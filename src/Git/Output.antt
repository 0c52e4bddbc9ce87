-- ===== src/Git/Output.antt =====
-- How `GitOperations` reads what git prints.
use Prim.Native.Char.{Char, code}
use Prim.Native.String.{[], ◌∷◌, ◌++◌}
use Prim.Native.String.append
use swarm_mcp.Prelude.{
  String, ◌≡◌, ◌≢◌, refl, ap, sym, subst, ◌∙◌, Bool, true, false, ◌||◌, ◌&&◌, List, map, arith,
  if◌then◌else◌,
}
use swarm_mcp.Text.{◌=ᵇ◌}
use swarm_mcp.Git.Tokens.{flush, append-nil, snoc-append}

abbrev is_empty : String → Bool
is_empty [] = true
is_empty (c ∷ s) = false

-- while (!s.empty() && test(s.back())) s.pop_back();
unfoldable pub trim_back : (Char → Bool) → String → String
trim_back test [] = []
trim_back test (c ∷ s) =
    let rest = trim_back test s in if is_empty rest && test c then [] else c ∷ rest

-- s.substr(s.find_first_not_of(set))
unfoldable pub skip_front : (Char → Bool) → String → String
skip_front test [] = []
skip_front test (c ∷ s) = let rest = skip_front test s in if test c then rest else c ∷ s

abbrev pub is_cr : Char → Bool
is_cr c = code c =ᵇ 13

abbrev pub ends_line : Char → Bool
ends_line c = code c =ᵇ 10 || code c =ᵇ 13

abbrev pub is_mark : Char → Bool
is_mark c = code c =ᵇ b' ' || code c =ᵇ b'\t' || code c =ᵇ b'*'

-- while (std::getline(iss, line)): a line that is empty counts unless the text ends before it.
unfoldable pub getlines : String → (line : String) → List String
unfolding flush
getlines [] line = flush line List.[]
getlines (c ∷ s) line = elim (code c =ᵇ 10) [
  | true ↦ List.◌∷◌ line (getlines s [])
  | false ↦ getlines s (line ++ (c ∷ []))
]

-- The lines of `log` that are not empty.
unfoldable pub log_lines : List String → List String
unfolding trim_back flush
log_lines List.[] = List.[]
log_lines (List.◌∷◌ line lines) = flush (trim_back is_cr line) (log_lines lines)

-- The names of `branches`, without the marks before them.
unfoldable pub branch_names : List String → List String
unfolding trim_back skip_front flush
branch_names List.[] = List.[]
branch_names (List.◌∷◌ line lines) =
    flush (skip_front is_mark (trim_back is_cr line)) (branch_names lines)

-- Neither a line feed nor a carriage return in a text.
abbrev pub IsOneLine : String → Type 0
IsOneLine [] = Unit
IsOneLine (c ∷ s) = (code c ≢ 10) × (code c ≢ 13) × IsOneLine s

-- What git prints for a branch: the one that is checked out is marked.
abbrev pub shown : Bool × String → String
shown (true, name) = "* " ++ name
shown (false, name) = "  " ++ name

abbrev pub printed : List (Bool × String) → String
printed List.[] = []
printed (List.◌∷◌ b bs) = shown b ++ ("\n" ++ printed bs)

-- A name has a character, and the first one is no mark.
abbrev pub IsName : String → Type 0
IsName [] = ⊥
IsName (c ∷ s) = (is_mark c ≡ false) × IsOneLine (c ∷ s)

abbrev pub AreNames : List (Bool × String) → Type 0
AreNames List.[] = Unit
AreNames (List.◌∷◌ b bs) = IsName b.1 × AreNames bs

one_more :
    (c : Char) (s line : String)
    → code c ≢ 10
    → getlines (c ∷ s) line ≡ getlines s (line ++ (c ∷ []))
unfolding getlines
one_more c s line h = ground arith

getlines-line :
    (a rest line : String)
    → IsOneLine a
    → getlines (a ++ ("\n" ++ rest)) line ≡ List.◌∷◌ (line ++ a) (getlines rest [])
unfolding getlines
getlines-line [] rest line h =
    ap (λ u. getlines u line)
      (append.nil ("\n" ++ rest) ∙ append.cons "\n" [] rest ∙ ap (λ u. "\n" ∷ u) (append.nil rest))
    ∙ ap (λ u. List.◌∷◌ u (getlines rest [])) (sym (append-nil line))
getlines-line (c ∷ a) rest line h =
    ap (λ u. getlines u line) (append.cons c a ("\n" ++ rest))
    ∙ one_more c (a ++ ("\n" ++ rest)) line h.0
    ∙ getlines-line a rest (line ++ (c ∷ [])) h.2
    ∙ ap (λ u. List.◌∷◌ u (getlines rest [])) (snoc-append line c a)

trim_back-line : (a : String) → IsOneLine a → trim_back is_cr a ≡ a
unfolding trim_back
trim_back-line [] h = refl
trim_back-line (c ∷ a) h = ground (arith, trim_back-line a h.2)

skip_front-name : (a : String) → IsName a → skip_front is_mark a ≡ a
unfolding skip_front
skip_front-name [] h = absurd h
skip_front-name (c ∷ a) h = ground (arith, h.0)

flush-name : (a : String) (result : List String) → IsName a → flush a result ≡ List.◌∷◌ a result
unfolding flush
flush-name [] result h = absurd h
flush-name (c ∷ a) result h = refl

IsName-IsOneLine : (a : String) → IsName a → IsOneLine a
IsName-IsOneLine [] h = absurd h
IsName-IsOneLine (c ∷ a) h = h.1

-- What is read of one line.
abbrev name_of : String → String
name_of line = skip_front is_mark (trim_back is_cr line)

-- A line: a mark, a space and a name.
marked : (m : Char) (name : String) → (m ∷ " ") ++ name ≡ m ∷ (" " ∷ name)
marked m name =
    append.cons m " " name
    ∙ ap (λ u. m ∷ u) (append.cons " " [] name ∙ ap (λ u. " " ∷ u) (append.nil name))

marked-IsOneLine :
    (m : Char) (name : String)
    → code m ≢ 10
    → code m ≢ 13
    → IsName name
    → IsOneLine ((m ∷ " ") ++ name)
marked-IsOneLine m name lf cr h =
    subst IsOneLine (sym (marked m name))
      (lf, cr, (λ e. omega (arith, e), λ e. omega (arith, e), IsName-IsOneLine name h))

skips :
    (m : Char) (s : String) → is_mark m ≡ true → skip_front is_mark (m ∷ s) ≡ skip_front is_mark s
unfolding skip_front
skips m s h = rw h

name_of-marked :
    (m : Char) (name : String)
    → is_mark m ≡ true
    → code m ≢ 10
    → code m ≢ 13
    → IsName name
    → name_of ((m ∷ " ") ++ name) ≡ name
name_of-marked m name mark lf cr h =
    ap (skip_front is_mark) (trim_back-line ((m ∷ " ") ++ name) (marked-IsOneLine m name lf cr h))
    ∙ ap (skip_front is_mark) (marked m name)
    ∙ skips m (" " ∷ name) mark
    ∙ skips " " name refl
    ∙ skip_front-name name h

shown-IsOneLine : (b : Bool × String) → IsName b.1 → IsOneLine (shown b)
shown-IsOneLine (true, name) h =
    marked-IsOneLine "*" name (λ e. omega (arith, e)) (λ e. omega (arith, e)) h
shown-IsOneLine (false, name) h =
    marked-IsOneLine " " name (λ e. omega (arith, e)) (λ e. omega (arith, e)) h

name_of-shown : (b : Bool × String) → IsName b.1 → name_of (shown b) ≡ b.1
name_of-shown (true, name) h =
    name_of-marked "*" name refl (λ e. omega (arith, e)) (λ e. omega (arith, e)) h
name_of-shown (false, name) h =
    name_of-marked " " name refl (λ e. omega (arith, e)) (λ e. omega (arith, e)) h

-- The names that `branches` reads from what git prints of the branches, one on a line and the current
-- one marked, are the names of the branches, in order.
pub branch_names-printed :
    (bs : List (Bool × String))
    → AreNames bs
    → branch_names (getlines (printed bs) []) ≡ map (λ b. b.1) bs
unfolding branch_names getlines
branch_names-printed List.[] h = refl
branch_names-printed (List.◌∷◌ b bs) h =
    ap branch_names (
      getlines-line (shown b) (printed bs) [] (shown-IsOneLine b h.0)
      ∙ ap (λ u. List.◌∷◌ u (getlines (printed bs) [])) (append.nil (shown b)))
    ∙ ap (λ u. flush u (branch_names (getlines (printed bs) []))) (name_of-shown b h.0)
    ∙ flush-name b.1 (branch_names (getlines (printed bs) [])) h.0
    ∙ ap (List.◌∷◌ b.1) (branch_names-printed bs h.1)
