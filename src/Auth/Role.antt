-- ===== src/Auth/Role.antt =====
-- Roles, permissions and the masks that tie them together.
use Prim.Native.Nat.{bit_and, bit_or}
use swarm_mcp.Prelude.{ℕ, ◌^◌, String, ◌≡◌, refl, Bool, true, not, ◌==◌, leb, if◌then◌else◌, ◌↔◌}
use swarm_mcp.Text.{◌=ᵇ◌}

pub data Role : Type 0 where
  coordinator worker observer : Role

pub Role-discrete : Discrete Role
Role-discrete = hlevel

unfoldable pub role_to_str : Role → String
role_to_str coordinator = "coordinator"
role_to_str worker = "worker"
role_to_str observer = "observer"

unfoldable pub role_from_str : String → Role
role_from_str s =
    if s == "coordinator" then coordinator else if s == "worker" then worker else observer

pub data Permission : Type 0 where
  task_create task_read task_assign task_update_status task_delete : Permission
  agent_register agent_read agent_manage : Permission
  context_write context_read branch_create branch_commit : Permission
  merge_request merge_approve merge_execute : Permission
  event_publish event_read prompt_use admin : Permission

unfoldable pub bit : Permission → ℕ
bit task_create = 2 ^ 0
bit task_read = 2 ^ 1
bit task_assign = 2 ^ 2
bit task_update_status = 2 ^ 3
bit task_delete = 2 ^ 4
bit agent_register = 2 ^ 5
bit agent_read = 2 ^ 6
bit agent_manage = 2 ^ 7
bit context_write = 2 ^ 8
bit context_read = 2 ^ 9
bit branch_create = 2 ^ 10
bit branch_commit = 2 ^ 11
bit merge_request = 2 ^ 12
bit merge_approve = 2 ^ 13
bit merge_execute = 2 ^ 14
bit event_publish = 2 ^ 15
bit event_read = 2 ^ 16
bit prompt_use = 2 ^ 17
bit admin = 2 ^ 18

infixl 60 ◌∣ₚ◌
-- operator| of a mask and a permission.
abbrev pub ◌∣ₚ◌ : ℕ → Permission → ℕ
a ∣ₚ p = bit_or a (bit p)

unfoldable pub role_permissions : Role → ℕ
unfolding bit
role_permissions coordinator = 0xFFFFFFFF
role_permissions worker =
    bit task_create
    ∣ₚ task_read
    ∣ₚ task_assign
    ∣ₚ task_update_status
    ∣ₚ agent_read
    ∣ₚ context_write
    ∣ₚ context_read
    ∣ₚ branch_create
    ∣ₚ branch_commit
    ∣ₚ merge_request
    ∣ₚ event_publish
    ∣ₚ event_read
    ∣ₚ prompt_use
role_permissions observer = bit task_read ∣ₚ agent_read ∣ₚ context_read ∣ₚ event_read ∣ₚ prompt_use

unfoldable pub has_permission : Role → Permission → Bool
unfolding role_permissions bit
has_permission r p = not (bit_and (role_permissions r) (bit p) =ᵇ 0)

-- The levels that `authorize` compares.
unfoldable pub level : Role → ℕ
level observer = 0
level worker = 1
level coordinator = 2

-- AuthProvider::authorize, by a minimum role.
unfoldable pub authorize_role : Role → Role → Bool
unfolding level
authorize_role role minimum_role = leb (level minimum_role) (level role)

-- AuthProvider::authorize, by a permission.
unfoldable pub authorize : Role → Permission → Bool
unfolding has_permission
authorize role perm = has_permission role perm

pub coordinator_may : (p : Permission) → has_permission coordinator p ≡ true
unfolding has_permission
coordinator_may task_create = refl
coordinator_may p = refl

-- What each role may do, as the comment over `Role` says it.
abbrev pub Grants : Role → Permission → Type 0
Grants coordinator p = Unit
Grants worker task_delete = ⊥
Grants worker agent_register = ⊥
Grants worker agent_manage = ⊥
Grants worker merge_approve = ⊥
Grants worker merge_execute = ⊥
Grants worker admin = ⊥
Grants worker _ = Unit
Grants observer task_read = Unit
Grants observer agent_read = Unit
Grants observer context_read = Unit
Grants observer event_read = Unit
Grants observer prompt_use = Unit
Grants observer _ = ⊥

-- `has_permission`, which tests bits of the masks, agrees with the table above for every role and
-- every permission.
pub has_permission_iff : (r : Role) (p : Permission) → (has_permission r p ≡ true) ↔ Grants r p
unfolding has_permission
has_permission_iff coordinator task_create = (λ h. tt, λ g. refl)
has_permission_iff coordinator p = (λ h. tt, λ g. refl)
has_permission_iff worker task_delete = (λ h. cc, λ g. absurd g)
has_permission_iff worker agent_register = (λ h. cc, λ g. absurd g)
has_permission_iff worker agent_manage = (λ h. cc, λ g. absurd g)
has_permission_iff worker merge_approve = (λ h. cc, λ g. absurd g)
has_permission_iff worker merge_execute = (λ h. cc, λ g. absurd g)
has_permission_iff worker admin = (λ h. cc, λ g. absurd g)
has_permission_iff worker p = (λ h. tt, λ g. refl)
has_permission_iff observer task_read = (λ h. tt, λ g. refl)
has_permission_iff observer agent_read = (λ h. tt, λ g. refl)
has_permission_iff observer context_read = (λ h. tt, λ g. refl)
has_permission_iff observer event_read = (λ h. tt, λ g. refl)
has_permission_iff observer prompt_use = (λ h. tt, λ g. refl)
has_permission_iff observer p = (λ h. cc, λ g. absurd g)

worker_may_as_observer :
    (p : Permission) → has_permission observer p ≡ true → has_permission worker p ≡ true
unfolding has_permission
worker_may_as_observer task_delete e = e
worker_may_as_observer agent_register e = e
worker_may_as_observer agent_manage e = e
worker_may_as_observer merge_approve e = e
worker_may_as_observer merge_execute e = e
worker_may_as_observer admin e = e
worker_may_as_observer p e = refl

-- A role that passes for another by level has all of its permissions.
pub authorize_role-has_permission :
    (r s : Role) (p : Permission)
    → authorize_role r s ≡ true
    → has_permission s p ≡ true
    → has_permission r p ≡ true
unfolding authorize_role
authorize_role-has_permission coordinator s p h e = coordinator_may p
authorize_role-has_permission worker coordinator p h e = cc
authorize_role-has_permission worker worker p h e = e
authorize_role-has_permission worker observer p h e = worker_may_as_observer p e
authorize_role-has_permission observer coordinator p h e = cc
authorize_role-has_permission observer worker p h e = cc
authorize_role-has_permission observer observer p h e = e
