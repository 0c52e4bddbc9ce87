-- ===== src/Dict.antt =====
-- `std::unordered_map<std::string, V>`: an association list whose keys are distinct. The list's
-- order stands for the map's order of iteration, which the standard leaves open.
use swarm_mcp.Prelude.{
  String, ◌≡◌, refl, subst, ite, Option, none, some, List, [], ◌∷◌, arith, String_discrete, Bool,
  true, In, if◌then◌else◌, inl, inr, ◌⊎◌,
}

abbrev pub Dict {ℓ} : Type ℓ → Type ℓ
Dict V = List (String × V)

module _ {ℓ} {V : Type ℓ} where
  -- m.find(k)
  unfoldable pub lookup : String → Dict V → Option V
  lookup k [] = none
  lookup k ((j, v) ∷ m) = ite (String_discrete j k) (some v) (lookup k m)

  -- m[k] = v
  unfoldable pub insert : String → V → Dict V → Dict V
  insert k v [] = (k, v) ∷ []
  insert k v ((j, w) ∷ m) = ite (String_discrete j k) ((j, v) ∷ m) ((j, w) ∷ insert k v m)

  -- m.erase(k)
  unfoldable pub erase : String → Dict V → Dict V
  erase k [] = []
  erase k ((j, w) ∷ m) = ite (String_discrete j k) (erase k m) ((j, w) ∷ erase k m)

  pub lookup-insert :
      (k j : String) (v : V) (m : Dict V)
      → lookup j (insert k v m) ≡ ite (String_discrete k j) (some v) (lookup j m)
  unfolding lookup insert
  lookup-insert k j v [] = refl
  lookup-insert k j v ((i, w) ∷ m) = ground (arith, lookup-insert k j v m)

  pub lookup-erase :
      (k j : String) (m : Dict V)
      → lookup j (erase k m) ≡ ite (String_discrete k j) none (lookup j m)
  unfolding lookup erase
  lookup-erase k j [] = ground arith
  lookup-erase k j ((i, w) ∷ m) = ground (arith, lookup-erase k j m)

-- `P` holds of each key and the value that is found under it.
abbrev pub Every {ℓ κ} : {V : Type ℓ} → (String → V → Type κ) → Dict V → Type (ℓ ⊔ κ)
Every {V = V} P m = (k : String) (v : V) → lookup k m ≡ some v → P k v

module _ {ℓ κ} {V : Type ℓ} (P : String → V → Type κ) where
  pub Every-nil : Every P []
  unfolding lookup
  Every-nil k v e = cc

  pub Every-insert : (k : String) (v : V) (m : Dict V) → P k v → Every P m → Every P (insert k v m)
  Every-insert k v m new old j w e = elim (String_discrete k j) [
    | yes hit ↦ subst (λ i. P i w) hit (subst (P k) (ground (arith, lookup-insert k j v m)) new)
    | no miss ↦ old j w (ground (arith, lookup-insert k j v m))
  ]

  pub Every-erase : (k : String) (m : Dict V) → Every P m → Every P (erase k m)
  Every-erase k m old j w e = old j w (ground (arith, lookup-erase k j m))

-- No key twice.
abbrev pub Once {ℓ} : {V : Type ℓ} → Dict V → Type ℓ
Once [] = Unit
Once ((k, v) ∷ m) = (lookup k m ≡ none) × Once m

module _ {ℓ} {V : Type ℓ} where
  pub Once-insert : (k : String) (v : V) (m : Dict V) → Once m → Once (insert k v m)
  unfolding insert lookup
  Once-insert k v [] o = (refl, tt)
  Once-insert k v ((j, w) ∷ m) o = elim (String_discrete j k) [
    | yes hit ↦ ground arith
    | no miss ↦ let rest = Once-insert k v m o.1 in ground (arith, lookup-insert k j v m)
  ]

  pub Once-erase : (k : String) (m : Dict V) → Once m → Once (erase k m)
  unfolding erase lookup
  Once-erase k [] o = tt
  Once-erase k ((j, w) ∷ m) o = let rest = Once-erase k m o.1 in ground (arith, lookup-erase k j m)

  -- The values that pass a test, in the order of iteration.
  unfoldable pub select : (V → Bool) → Dict V → List V
  select p [] = []
  select p ((k, v) ∷ m) = let rest = select p m in if p v then v ∷ rest else rest

-- `select` returns the stored values that pass the test, and no others.
module _ {V : Type 0} (p : V → Bool) (v : V) where
  pub In-select_of_lookup :
      (k : String) (m : Dict V) → lookup k m ≡ some v → p v ≡ true → In v (select p m)
  unfolding lookup select
  In-select_of_lookup k [] e h = cc
  In-select_of_lookup k ((j, w) ∷ m) e h = ground (arith, In-select_of_lookup k m)

  In-select_cases :
      (j : String) (w : V) (m : Dict V)
      → In v (select p ((j, w) ∷ m))
      → ((v ≡ w) × (p w ≡ true)) ⊎ In v (select p m)
  unfolding select
  In-select_cases j w m h = ground arith

  pub lookup_of_In-select :
      (m : Dict V)
      → Once m
      → In v (select p m)
      → (k : String) × (lookup k m ≡ some v) × (p v ≡ true)
  unfolding lookup
  lookup_of_In-select [] o h = absurd (unfold select in h)
  lookup_of_In-select ((j, w) ∷ m) o h = elim (In-select_cases j w m h) [
    | inl (e, pass) ↦ (j, ground arith, ground arith)
    | inr r ↦ let (k, found, pass) = lookup_of_In-select m o.1 r in (k, ground arith, pass)
  ]

-- Two maps with the same keys still have the same keys where both get or lose one.
pub inserted :
    {A B : Type 0} (k j : String) (a : A) (b : B) (m : Dict A) (n : Dict B) (x : A)
    → lookup j (insert k a m) ≡ some x
    → ((y : A) → lookup j m ≡ some y → (z : B) × (lookup j n ≡ some z))
    → (z : B) × (lookup j (insert k b n) ≡ some z)
inserted k j a b m n x e old = elim (String_discrete k j) [
  | yes hit ↦ (b, ground (arith, lookup-insert k j b n))
  | no miss ↦
      let (z, f) = old x (ground (arith, lookup-insert k j a m)) in
      (z, ground (arith, lookup-insert k j b n))
]

-- The same where what stands under a key in both is related.
pub inserted_related :
    {A B : Type 0} (R : String → A → B → Type 0) (k j : String) (a : A) (b : B) (m : Dict A)
    (n : Dict B) (x : A)
    → lookup j (insert k a m) ≡ some x
    → R k a b
    → ((y : A) → lookup j m ≡ some y → (z : B) × (lookup j n ≡ some z) × R j y z)
    → (z : B) × (lookup j (insert k b n) ≡ some z) × R j x z
inserted_related R k j a b m n x e new old = elim (String_discrete k j) [
  | yes hit ↦
      let same : a ≡ x = ground (arith, lookup-insert k j a m) in
      (
        b,
        ground (arith, lookup-insert k j b n),
        subst (λ y. R j y b) same (subst (λ i. R i a b) hit new),
      )
  | no miss ↦
      let (z, f, r) = old x (ground (arith, lookup-insert k j a m)) in
      (z, ground (arith, lookup-insert k j b n), r)
]

pub erased :
    {A B : Type 0} (k j : String) (m : Dict A) (n : Dict B) (x : A)
    → lookup j (erase k m) ≡ some x
    → ((y : A) → lookup j m ≡ some y → (z : B) × (lookup j n ≡ some z))
    → (z : B) × (lookup j (erase k n) ≡ some z)
erased k j m n x e old = elim (String_discrete k j) [
  | yes hit ↦ absurd (ground (arith, lookup-erase k j m))
  | no miss ↦
      let (z, f) = old x (ground (arith, lookup-erase k j m)) in
      (z, ground (arith, lookup-erase k j n))
]
