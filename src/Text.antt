-- ===== src/Text.antt =====
-- Texts as lists of character codes, for the functions that look inside a text.
use Prim.Native.Char.{code}
use Prim.Native.Nat.{compare, Ordering}
use swarm_mcp.Prelude.{
  ℕ, ◌+◌, ◌≡◌, refl, ap, inl, inr, Bool, Bool-cases, true, false, ◌&&◌, ◌||◌, String, List, [], ◌∷◌,
  ◌++◌, map, arith, leb, if◌then◌else◌,
}

-- `String` has its own `[]` and `∷`.
abbrev pub codes : String → List ℕ
codes String.[] = []
codes (String.◌∷◌ c s) = code c ∷ codes s

infix 50 ◌=ᵇ◌
abbrev pub ◌=ᵇ◌ : ℕ → ℕ → Bool
a =ᵇ b = elim (compare a b) [ Ordering.eq ↦ true | _ ↦ false ]

-- ::tolower in the "C" locale, which changes the letters A to Z.
unfoldable pub to_lower : ℕ → ℕ
to_lower c = if leb b'A' c && leb c b'Z' then c + 32 else c

unfoldable pub lower : String → List ℕ
unfolding to_lower
lower s = map to_lower (codes s)

-- s.starts_with(p)
unfoldable pub starts_with : List ℕ → List ℕ → Bool
starts_with s [] = true
starts_with [] (d ∷ p) = false
starts_with (c ∷ s) (d ∷ p) = c =ᵇ d && starts_with s p

-- s.find(p) != npos
unfoldable pub occurs : List ℕ → List ℕ → Bool
unfolding starts_with
occurs p [] = starts_with [] p
occurs p (c ∷ s) = starts_with (c ∷ s) p || occurs p s

pub starts_with-true : (s p : List ℕ) → starts_with s p ≡ true → (rest : List ℕ) × (s ≡ p ++ rest)
unfolding starts_with
starts_with-true s [] h = (s, refl)
starts_with-true [] (d ∷ p) h = cc
starts_with-true (c ∷ s) (d ∷ p) h =
    let (rest, e) = starts_with-true s p (ground arith) in (rest, ground arith)

pub starts_with-append : (p rest : List ℕ) → starts_with (p ++ rest) p ≡ true
unfolding starts_with
starts_with-append [] rest = refl
starts_with-append (d ∷ p) rest = ground (arith, starts_with-append p rest)

pub occurs-true :
    (p s : List ℕ)
    → occurs p s ≡ true
    → (before : List ℕ) × (after : List ℕ) × (s ≡ before ++ (p ++ after))
unfolding occurs
occurs-true p [] h = let (rest, e) = starts_with-true [] p h in ([], rest, e)
occurs-true p (c ∷ s) h = elim (Bool-cases (starts_with (c ∷ s) p)) [
  | inl now ↦ let (rest, e) = starts_with-true (c ∷ s) p now in ([], rest, e)
  | inr later ↦
      let (before, after, e) = occurs-true p s (ground arith) in
      (c ∷ before, after, ap (λ u. c ∷ u) e)
]

occurs_of_starts_with : (p s : List ℕ) → starts_with s p ≡ true → occurs p s ≡ true
unfolding occurs
occurs_of_starts_with p [] h = h
occurs_of_starts_with p (c ∷ s) h = ground arith

pub occurs-append : (before p after : List ℕ) → occurs p (before ++ (p ++ after)) ≡ true
unfolding occurs
occurs-append [] p after = occurs_of_starts_with p (p ++ after) (starts_with-append p after)
occurs-append (c ∷ before) p after = ground (arith, occurs-append before p after)
