-- ===== src/Events/Log.antt =====
-- The log keeps the newest events.
use swarm_mcp.Prelude.{
  ℕ, ◌+◌, ◌≤◌, ◌≡◌, ◌⊎◌, refl, subst, sym, ap, ◌∙◌, inl, inr, List, [], ◌∷◌, ◌++◌ as ◌⧺◌, arith,
  Bool-cases, ltb, length,
}
use swarm_mcp.Events.Bus.{Event, EventBus, trim, emit}

module _ {J : Type 0} (max : ℕ) where
  -- `kept` is what is left of `all` when the oldest events make room.
  pub record Newest (all kept : List (Event J)) : Type 0 where
    pub gone : List (Event J)
    pub parted : all ≡ gone ⧺ kept
    pub bounded : length kept ≤ max
    pub full : (gone ≡ []) ⊎ (length kept ≡ max)

  trim-Newest : (es : List (Event J)) → Newest es (trim max es)
  unfolding trim
  trim-Newest [] = record { gone = []; parted = refl; bounded = omega arith; full = inl refl }
  trim-Newest (e ∷ es) = elim (Bool-cases (ltb max (length (e ∷ es)))) [
    | inl more ↦
        let ih = trim-Newest es in
        subst (Newest (e ∷ es)) (ground arith) (record {
          gone = e ∷ ih.gone;
          parted = ap (λ l. e ∷ l) ih.parted;
          bounded = ih.bounded;
          full = elim ih.full [
            | inl none_gone ↦
                let same : es ≡ trim max es = ih.parted ∙ ap (λ g. g ⧺ trim max es) none_gone in
                let long : length es ≡ length (trim max es) = ap length same in
                inr (ground (arith, ih.bounded))
            | inr is_full ↦ inr is_full
          ];
        })
    | inr fits ↦
        subst (Newest (e ∷ es)) (ground arith)
          (record { gone = []; parted = refl; bounded = ground arith; full = inl refl })
  ]

  length-append : (xs ys : List (Event J)) → length (xs ⧺ ys) ≡ length xs + length ys
  length-append [] ys = omega arith
  length-append (x ∷ xs) ys = ground (arith, length-append xs ys)

  append-nil : (xs : List (Event J)) → xs ⧺ [] ≡ xs
  append-nil [] = refl
  append-nil (x ∷ xs) = ap (λ l. x ∷ l) (append-nil xs)

  -- Trimming once at the end does as well.
  trim-append : (xs ys : List (Event J)) → trim max (trim max xs ⧺ ys) ≡ trim max (xs ⧺ ys)
  unfolding trim
  trim-append [] ys = refl
  trim-append (x ∷ xs) ys = ground (arith, length-append xs ys, trim-append xs ys)

  trim-fits : (xs : List (Event J)) → length xs ≤ max → trim max xs ≡ xs
  unfolding trim
  trim-fits [] h = refl
  trim-fits (x ∷ xs) h = ground arith

  abbrev pub emit_all : EventBus J → List (Event J) → EventBus J
  emit_all b [] = b
  emit_all b (e ∷ es) = emit_all (emit max b e).1 es

  append_assoc :
      (xs : List (Event J)) (e : Event J) (ys : List (Event J)) → (xs ⧺ e ∷ []) ⧺ ys ≡ xs ⧺ e ∷ ys
  append_assoc [] e ys = refl
  append_assoc (x ∷ xs) e ys = ap (λ l. x ∷ l) (append_assoc xs e ys)

  log-emit_all :
      (b : EventBus J) (es : List (Event J))
      → length b.event_log ≤ max
      → (emit_all b es).event_log ≡ trim max (b.event_log ⧺ es)
  unfolding emit
  log-emit_all b [] fits = sym (ap (trim max) (append-nil b.event_log) ∙ trim-fits b.event_log fits)
  log-emit_all b (e ∷ es) fits =
      log-emit_all (emit max b e).1 es (trim-Newest (b.event_log ⧺ e ∷ [])).bounded
      ∙ trim-append (b.event_log ⧺ e ∷ []) es
      ∙ ap (trim max) (append_assoc b.event_log e es)

  -- From a log within the capacity on, after any events the log is the newest part of the old log and
  -- those events, in order: it is within the capacity, and nothing is gone unless it is full.
  pub emit_all-Newest :
      (b : EventBus J) (es : List (Event J))
      → length b.event_log ≤ max
      → Newest (b.event_log ⧺ es) (emit_all b es).event_log
  emit_all-Newest b es fits =
      subst (Newest (b.event_log ⧺ es)) (sym (log-emit_all b es fits))
        (trim-Newest (b.event_log ⧺ es))
