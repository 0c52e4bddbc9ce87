-- ===== src/Context/Versions.antt =====
-- What happens to an entry in one call.
use swarm_mcp.Prelude.{
  ℕ, suc, String, ◌≡◌, ◌⊎◌, ◌↔◌, refl, ap, if◌then◌else◌, subst, sym, inl, inr, true, false, not,
  ◌&&◌, Option, none, some, ◌++◌ as ◌⧺◌, arith, Bool-cases, Option-cases, String_discrete,
}
use swarm_mcp.Dict.{Dict, lookup, insert, lookup-insert, lookup-erase}
use swarm_mcp.Context.Store.{
  ContextEntry, ContextStore, JsonEdit, changed, created, set, del, clear, on_change,
  update_partial, merged_value, merge,
}

pub data Call (J : Type 0) : Type 0 where
  setting patching merging : (now : ℕ) (key : String) → J → (owner : String) → Call J
  deleting : (key : String) → Call J
  clearing listening : Call J

module _ {J : Type 0} where
  -- The key that a call is about.
  abbrev pub target : Call J → Option String
  target (setting now key value owner) = some key
  target (patching now key value owner) = some key
  target (merging now key value owner) = some key
  target (deleting key) = some key
  target clearing = none
  target listening = none

  -- What may become of an entry: it stays, it is rewritten under the same key with the next version,
  -- or it is removed, which only a deletion and a clearing do.
  pub data Becomes (c : Call J) (k : String) (a : ContextEntry J)
      : Option (ContextEntry J) → Type 0 where
    stays : Becomes c k a (some a)
    rewritten :
        (b : ContextEntry J)
        → target c ≡ some k
        → b.key ≡ a.key
        → b.version ≡ suc a.version
        → Becomes c k a (some b)
    deleted : c ≡ deleting k → Becomes c k a none
    cleared : c ≡ clearing → Becomes c k a none

  module _ (edit : JsonEdit J) where
    open edit use {is_object, is_array, elements, array}

    pub step : ContextStore J → Call J → ContextStore J
    step s (setting now key value owner) = (set s now key value owner).state
    step s (patching now key value owner) = (update_partial edit s now key value owner).state
    step s (merging now key value owner) = (merge edit s now key value owner).state
    step s (deleting key) = (del s key).state
    step s clearing = clear s
    step s listening = on_change s

    -- An entry after `insert`, where the new one is its successor.
    Becomes-insert :
        (c : Call J) (m : Dict (ContextEntry J)) (key k : String) (a old new : ContextEntry J)
        → target c ≡ some key
        → lookup k m ≡ some a
        → lookup key m ≡ some old
        → new.key ≡ old.key
        → new.version ≡ suc old.version
        → Becomes c k a (lookup k (insert key new m))
    Becomes-insert c m key k a old new t at_k at_key same next = elim (String_discrete key k) [
      | yes hit ↦
          let found : some new ≡ lookup k (insert key new m) =
            ground (arith, lookup-insert key k new m) in
          let it : old ≡ a = ground arith in
          subst (Becomes c k a) found (rewritten new (ground arith) (ground arith) (ground arith))
      | no miss ↦
          let found : some a ≡ lookup k (insert key new m) =
            ground (arith, lookup-insert key k new m) in
          subst (Becomes c k a) found stays
    ]

    Becomes-new :
        (c : Call J) (m : Dict (ContextEntry J)) (key k : String) (a new : ContextEntry J)
        → lookup k m ≡ some a
        → lookup key m ≡ none
        → Becomes c k a (lookup k (insert key new m))
    Becomes-new c m key k a new at_k at_key =
        let found : some a ≡ lookup k (insert key new m) =
          ground (arith, lookup-insert key k new m) in
        subst (Becomes c k a) found stays

    -- A call leaves an entry as it is, or rewrites it under its key with the next version, which only
    -- a call on its key does, or removes it, which only its deletion and `clear` do.
    pub step-Becomes :
        (s : ContextStore J) (c : Call J) (k : String) (a : ContextEntry J)
        → lookup k s.store ≡ some a
        → Becomes c k a (lookup k (step s c).store)
    unfolding step set update_partial merge del clear on_change changed lookup
    step-Becomes s (setting now key value owner) k a e = elim (Option-cases (lookup key s.store)) [
      | inl g ↦ subst (Becomes (setting now key value owner) k a) (ground arith) (
          Becomes-new (setting now key value owner) s.store key k a (created now key value owner) e
            g)
      | inr (old, g) ↦ subst (Becomes (setting now key value owner) k a) (ground arith) (
          Becomes-insert (setting now key value owner) s.store key k a old
            (changed now old value owner) refl e g refl refl)
    ]
    step-Becomes s (patching now key patch owner) k a e = elim (Option-cases (lookup key s.store)) [
      | inl g ↦
          let same : some a ≡ lookup k (step s (patching now key patch owner)).store =
            ground arith in
          subst (Becomes (patching now key patch owner) k a) same stays
      | inr (old, g) ↦ elim (Bool-cases (is_object patch && not (is_object old.value))) [
        | inl no_ ↦
            let same : some a ≡ lookup k (step s (patching now key patch owner)).store =
              ground arith in
            subst (Becomes (patching now key patch owner) k a) same stays
        | inr ok ↦
            let value =
              if is_object patch && is_object old.value
              then edit.merge_patch old.value patch
              else patch in
            let new = changed now old value owner in
            subst (Becomes (patching now key patch owner) k a) (ground arith) (
              Becomes-insert (patching now key patch owner) s.store key k a old new refl e g refl
                refl)
      ]
    ]
    step-Becomes s (merging now key value owner) k a e = elim (Option-cases (lookup key s.store)) [
      | inl g ↦ subst (Becomes (merging now key value owner) k a) (ground arith) (
          Becomes-new (merging now key value owner) s.store key k a (created now key value owner) e
            g)
      | inr (old, g) ↦
          let new = changed now old (merged_value edit old.value value) owner in
          subst (Becomes (merging now key value owner) k a) (ground arith) (
            Becomes-insert (merging now key value owner) s.store key k a old new refl e g refl refl)
    ]
    step-Becomes s (deleting key) k a e = elim (String_discrete key k) [
      | yes hit ↦
          let gone : none ≡ lookup k (step s (deleting key)).store =
            ground (arith, lookup-erase key k s.store) in
          subst (Becomes (deleting key) k a) gone (deleted (ap deleting hit))
      | no miss ↦
          let same : some a ≡ lookup k (step s (deleting key)).store =
            ground (arith, lookup-erase key k s.store) in
          subst (Becomes (deleting key) k a) same stays
    ]
    step-Becomes s clearing k a e = cleared refl
    step-Becomes s listening k a e = subst (Becomes listening k a) (sym e) stays

    -- `update_partial` answers no exactly if there is no entry, or the patch is an object and the value
    -- is not.
    pub update_partial_refuses :
        (s : ContextStore J) (now : ℕ) (key : String) (patch : J) (owner : String)
        → ((update_partial edit s now key patch owner).result ≡ false) ↔ (
            (lookup key s.store ≡ none)
            ⊎ ((a : ContextEntry J) × (lookup key s.store ≡ some a)
                × (is_object patch ≡ true)
                × (is_object a.value ≡ false)))
    unfolding update_partial
    update_partial_refuses s now key patch owner = elim (Option-cases (lookup key s.store)) [
      | inl g ↦ (λ h. inl g, λ h. ground arith)
      | inr (a, g) ↦ (
        λ h. inr (a, g, ground arith, ground arith),
        λ h. elim h [ inl n ↦ absurd (ground arith) | inr x ↦ ground arith ],
      )
    ]

    -- Merging an array, which is no object, into an entry that holds an array appends its elements to
    -- those that are there, and gives the entry the next version, the owner and the time.
    pub merge_appends :
        (s : ContextStore J) (now : ℕ) (key : String) (more : J) (owner : String)
        (a : ContextEntry J)
        → lookup key s.store ≡ some a
        → is_array a.value ≡ true
        → is_array more ≡ true
        → is_object more ≡ false
        → lookup key (merge edit s now key more owner).state.store
          ≡ some (changed now a (array (elements a.value ⧺ elements more)) owner)
    unfolding merge merged_value
    merge_appends s now key more owner a e old_array new_array not_object =
        let new = changed now a (array (elements a.value ⧺ elements more)) owner in
        ground (arith, lookup-insert key key new s.store)
