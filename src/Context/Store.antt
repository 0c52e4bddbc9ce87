-- ===== src/Context/Store.antt =====
-- `ContextStore`. The callback is called after the lock is let go; a call is still one step of the
-- table. What the store asks of the JSON library is a parameter.
use swarm_mcp.Prelude.{
  ℕ, suc, String, Bool, true, false, not, ◌&&◌, ◌||◌, Option, none, some, List, [], ◌∷◌,
  ◌++◌ as ◌⧺◌, map, Effect, ◌==◌, if◌then◌else◌, length,
}
use swarm_mcp.Text.{codes, starts_with}
use swarm_mcp.Dict.{Dict, lookup, insert, erase}

-- `version` is an int, and never comes near its bound.
pub record ContextEntry (J : Type 0) : Type 0 where
  pub key : String
  pub value : J
  pub owner : String
  pub updated_at : ℕ
  pub version : ℕ

pub record ContextStore (J : Type 0) : Type 0 where
  pub store : Dict (ContextEntry J)
  pub listening : Bool

-- What the store uses of nlohmann::json.
pub record JsonEdit (J : Type 0) : Type 0 where
  pub is_object : J → Bool
  pub is_array : J → Bool
  pub merge_patch : J → J → J
  -- get<std::vector<json>>, and back
  pub elements : J → List J
  pub array : List J → J

-- A call of the callback: the entry and the action.
abbrev pub Outcome : Type 0 → Type 0 → Type 0
Outcome J A = Effect (ContextStore J) A (String × ContextEntry J × String)

module _ {J : Type 0} where
  unfoldable pub notify :
      ContextStore J → String → ContextEntry J → String → List (String × ContextEntry J × String)
  notify s key entry action = if s.listening then (key, entry, action) ∷ [] else []

  unfoldable pub on_change : ContextStore J → ContextStore J
  on_change s = record s { listening = true }

  unfoldable pub write : ContextStore J → String → ContextEntry J → String → Outcome J Bool
  unfolding notify
  write s key entry action = record {
    state = record s { store = insert key entry s.store };
    result = true;
    sent = notify s key entry action;
  }

  unfoldable pub refuse : ContextStore J → Outcome J Bool
  refuse s = record { state = s; result = false; sent = [] }

  unfoldable pub created : (now : ℕ) → (key : String) → J → (owner : String) → ContextEntry J
  created now key value owner = record {
    key = key;
    value = value;
    owner = owner;
    updated_at = now;
    version = 1;
  }

  unfoldable pub changed : (now : ℕ) → ContextEntry J → J → (owner : String) → ContextEntry J
  changed now entry value owner = record entry {
    value = value;
    owner = owner;
    updated_at = now;
    version = suc entry.version;
  }

  unfoldable pub set :
      ContextStore J → (now : ℕ) → (key : String) → J → (owner : String) → Outcome J Bool
  unfolding write created changed
  set s now key value owner = elim (lookup key s.store) [
    | some entry ↦ write s key (changed now entry value owner) "updated"
    | none ↦ write s key (created now key value owner) "created"
  ]

  unfoldable pub get : ContextStore J → String → Option (ContextEntry J)
  get s key = lookup key s.store

  unfoldable pub del : ContextStore J → String → Outcome J Bool
  unfolding notify refuse
  del s key = elim (lookup key s.store) [
    | none ↦ refuse s
    | some entry ↦ record {
      state = record s { store = erase key s.store };
      result = true;
      sent = notify s key entry "deleted";
    }
  ]

  unfoldable pub exists : ContextStore J → String → Bool
  exists s key = elim (lookup key s.store) [ none ↦ false | some entry ↦ true ]

  unfoldable pub entries_under : String → Dict (ContextEntry J) → List (ContextEntry J)
  entries_under prefix [] = []
  entries_under prefix ((k, entry) ∷ m) =
      let rest = entries_under prefix m in
      if prefix == "" || starts_with (codes k) (codes prefix) then entry ∷ rest else rest

  unfoldable pub list : ContextStore J → String → List (ContextEntry J)
  unfolding entries_under
  list s prefix = entries_under prefix s.store

  unfoldable pub snapshot : ContextStore J → Dict J
  snapshot s = map (λ (e : String × ContextEntry J). (e.0, e.1.value)) s.store

  unfoldable pub clear : ContextStore J → ContextStore J
  clear s = record s { store = [] }

  unfoldable pub size : ContextStore J → ℕ
  size s = length s.store

  module _ (edit : JsonEdit J) where
    open edit use {is_object, is_array, merge_patch, elements, array}

    unfoldable pub update_partial :
        ContextStore J → (now : ℕ) → (key : String) → J → (owner : String) → Outcome J Bool
    unfolding write refuse changed
    update_partial s now key patch owner = elim (lookup key s.store) [
      | none ↦ refuse s
      | some entry ↦
          if is_object patch && not (is_object entry.value)
          then refuse s
          else write s key
              (changed now entry
                (if is_object patch && is_object entry.value
                  then merge_patch entry.value patch
                  else patch)
                owner)
              "updated"
    ]

    unfoldable pub merged_value : J → J → J
    merged_value old value =
        if is_object value && is_object old
        then merge_patch old value
        else if is_array value && is_array old
        then array (elements old ⧺ elements value)
        else value

    unfoldable pub merge :
        ContextStore J → (now : ℕ) → (key : String) → J → (owner : String) → Outcome J Bool
    unfolding write created changed merged_value
    merge s now key value owner = elim (lookup key s.store) [
      | none ↦ write s key (created now key value owner) "created"
      | some entry ↦ write s key (changed now entry (merged_value entry.value value) owner) "merged"
    ]
