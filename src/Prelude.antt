-- ===== src/Prelude.antt =====
-- Names that the other modules share: the library's, passed on, with text equality as a decision.
use Prim.Native.Nat.{compare, Ordering}
use text.Mathlib.Text.{◌==◌ as text_eq}
use text.Mathlib.TextEquality.{eq_iff}
pub use Prim.Native.Nat.{ℕ, zero, suc, ◌+◌, ◌-◌, ◌*◌, ◌/◌, ◌%◌, ◌^◌, ◌≤◌, ◌<◌}
pub use Prim.Native.String.{String}
pub use mathlib.Core.Path.{◌≡◌, refl, sym, ap, subst, ◌∙◌}
pub use mathlib.Core.Logic.{◌≢◌, ◌↔◌, ◌⊎◌, inl, inr, ite}
pub use mathlib.Core.Bool.{Bool, true, false, not, ◌&&◌, ◌||◌}
pub use mathlib.Core.Option.{Option, none, some}
pub use mathlib.Core.List.{List, [], ◌∷◌, ◌++◌, map}
pub use native.Mathlib.Omega.{arith}
unfoldable pub use native.Mathlib.Decide.{dec_lt, dec_le, ℕ_discrete}

abbrev pub ltb : ℕ → ℕ → Bool
ltb a b = elim (compare a b) [ Ordering.lt ↦ true | _ ↦ false ]

abbrev pub leb : ℕ → ℕ → Bool
leb a b = elim (compare a b) [ Ordering.gt ↦ false | _ ↦ true ]

infix 1 if◌then◌else◌
abbrev pub if◌then◌else◌ {ℓ} : {A : Type ℓ} → Bool → A → A → A
if true then x else y = x
if false then x else y = y

-- What holds of both branches.
pub both_branches {ℓ κ} :
    {A : Type ℓ} (P : A → Type κ) (b : Bool) (x y : A) → P x → P y → P (if b then x else y)
both_branches P true x y p q = p
both_branches P false x y p q = q

-- The same where the second branch is taken only if the test holds.
pub guarded_branches {ℓ κ} :
    {A : Type ℓ} (P : A → Type κ) (b : Bool) (x y : A)
    → P x
    → (b ≡ true → P y)
    → P (if not b then x else y)
guarded_branches P true x y p q = q refl
guarded_branches P false x y p q = p

-- What holds of each branch where the test sends it there.
pub split_branches {ℓ κ} :
    {A : Type ℓ} (P : A → Type κ) (b : Bool) (x y : A)
    → (b ≡ true → P x)
    → (b ≡ false → P y)
    → P (if b then x else y)
split_branches P true x y p q = p refl
split_branches P false x y p q = q refl

pub Bool-cases : (b : Bool) → (b ≡ true) ⊎ (b ≡ false)
Bool-cases true = inl refl
Bool-cases false = inr refl

pub Option-cases {ℓ} : {A : Type ℓ} (o : Option A) → (o ≡ none) ⊎ ((a : A) × (o ≡ some a))
Option-cases none = inl refl
Option-cases (some a) = inr (a, refl)

by_test : (s t : String) (b : Bool) → text_eq s t ≡ b → Dec (s ≡ t)
by_test s t true e = yes ((eq_iff s t).0 e)
by_test s t false e = no (λ p. cc (e, (eq_iff s t).1 p))

-- `==` of two texts, as a decision.
unfoldable pub String_discrete : Discrete String
unfolding by_test
String_discrete s t = by_test s t (text_eq s t) refl

-- A decision as a test.
abbrev pub decides {ℓ} : {P : Type ℓ} → Dec P → Bool
decides (yes p) = true
decides (no p) = false

infix 50 ◌==◌
abbrev pub ◌==◌ : String → String → Bool
s == t = decides (String_discrete s t)

-- The list functions of the program, over the native numbers.
module _ {ℓ} {A : Type ℓ} where
  abbrev pub length : List A → ℕ
  length [] = 0
  length (x ∷ xs) = suc (length xs)

  abbrev pub take : ℕ → List A → List A
  take zero xs = []
  take (suc n) [] = []
  take (suc n) (x ∷ xs) = x ∷ take n xs

  abbrev pub drop : ℕ → List A → List A
  drop zero xs = xs
  drop (suc n) [] = []
  drop (suc n) (x ∷ xs) = drop n xs

  pub length-take : (n : ℕ) (xs : List A) → length (take n xs) ≤ n
  length-take zero xs = omega arith
  length-take (suc n) [] = omega arith
  length-take (suc n) (x ∷ xs) = let rest = length-take n xs in omega (arith, rest)

  pub take-nil : (n : ℕ) → take n [] ≡ []
  take-nil zero = refl
  take-nil (suc n) = refl

  pub drop-nil : (n : ℕ) → drop n [] ≡ []
  drop-nil zero = refl
  drop-nil (suc n) = refl

  -- One step of each, at a number that is known by an equation.
  pub take-suc : (a b : ℕ) (x : A) (xs : List A) → a ≡ suc b → take a (x ∷ xs) ≡ x ∷ take b xs
  take-suc a b x xs e = ap (λ n. take n (x ∷ xs)) e

  pub take-zero : (a : ℕ) (xs : List A) → a ≡ 0 → take a xs ≡ []
  take-zero a xs e = ap (λ n. take n xs) e

  pub drop-suc : (a b : ℕ) (x : A) (xs : List A) → a ≡ suc b → drop a (x ∷ xs) ≡ drop b xs
  drop-suc a b x xs e = ap (λ n. drop n (x ∷ xs)) e

  pub drop-zero : (a : ℕ) (xs : List A) → a ≡ 0 → drop a xs ≡ xs
  drop-zero a xs e = ap (λ n. drop n xs) e

  -- The part that is taken, and the rest from there on.
  pub take-drop : (n k : ℕ) (xs : List A) → take n (drop k xs) ++ drop (k + n) xs ≡ drop k xs
  take-drop zero zero xs = refl
  take-drop (suc n) zero [] = ground arith
  take-drop (suc n) zero (x ∷ xs) = ground (arith, take-drop n zero xs)
  take-drop n (suc k) [] = ground (arith, take-nil n, drop-nil (suc k + n))
  take-drop n (suc k) (x ∷ xs) =
      ground (arith, take-drop n k xs, drop-suc (suc k + n) (k + n) x xs (omega arith))

  pub append-nil : (xs : List A) → xs ++ [] ≡ xs
  append-nil [] = refl
  append-nil (x ∷ xs) = ap (λ u. x ∷ u) (append-nil xs)

  pub drop-all : (n : ℕ) (xs : List A) → length xs ≤ n → drop n xs ≡ []
  drop-all zero [] h = refl
  drop-all zero (x ∷ xs) h = absurd (omega arith)
  drop-all (suc n) [] h = refl
  drop-all (suc n) (x ∷ xs) h = drop-all n xs (omega arith)

abbrev pub min : ℕ → ℕ → ℕ
min a b = if leb a b then a else b

-- `In x xs`: `x` is an element of `xs`.
abbrev pub In : {A : Type 0} → A → List A → Type 0
In x [] = ⊥
In x (y ∷ ys) = (x ≡ y) ⊎ In x ys

-- No element twice.
abbrev pub Distinct : {A : Type 0} → List A → Type 0
Distinct [] = Unit
Distinct (x ∷ xs) = (¬ In x xs) × Distinct xs

pub In-append : {A : Type 0} (x : A) (xs ys : List A) → In x (xs ++ ys) → In x xs ⊎ In x ys
In-append x [] ys h = inr h
In-append x (y ∷ xs) ys h = ground (arith, In-append x xs ys)

pub Distinct-snoc :
    {A : Type 0} (x : A) (xs : List A) → ¬ In x xs → Distinct xs → Distinct (xs ++ x ∷ [])
Distinct-snoc x [] new d = (λ h. absurd h, tt)
Distinct-snoc x (y ∷ xs) new d =
    (λ h. ground (arith, In-append y xs (x ∷ [])), Distinct-snoc x xs (λ h. new (inr h)) d.1)

-- std::ranges::find(xs, x) != xs.end(), and `contains` of a set.
unfoldable pub contains : List String → String → Bool
contains [] x = false
contains (y ∷ ys) x = y == x || contains ys x

pub In-of_contains : (xs : List String) (x : String) → contains xs x ≡ true → In x xs
unfolding contains
In-of_contains [] x h = cc
In-of_contains (y ∷ ys) x h = ground (arith, In-of_contains ys x)

pub contains_of_In : (xs : List String) (x : String) → In x xs → contains xs x ≡ true
unfolding contains
contains_of_In [] x h = absurd h
contains_of_In (y ∷ ys) x h = ground (arith, contains_of_In ys x)

-- What a call leaves behind: the new state, the value that it returns, and the calls that it makes
-- of the registered callback, in order.
pub record Effect (S A N : Type 0) : Type 0 where
  pub state : S
  pub result : A
  pub sent : List N

-- duration_cast<milliseconds>, and back: a time counts nanoseconds.
abbrev pub to_millis : ℕ → ℕ
to_millis t = t / 1000000

abbrev pub of_millis : ℕ → ℕ
of_millis ms = ms * 1000000

pub text_ne : (s t : String) → (s == t) ≡ false → s ≢ t
text_ne s t h e = ground arith

pub length-map {ℓ κ} :
    {A : Type ℓ} {B : Type κ} (f : A → B) (xs : List A) → length (map f xs) ≡ length xs
length-map f [] = refl
length-map f (x ∷ xs) = ap suc (length-map f xs)
