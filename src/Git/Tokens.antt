-- ===== src/Git/Tokens.antt =====
-- `tokenize_args`: a command line in one text becomes the arguments.
use Prim.Native.Char.{Char, code}
use Prim.Native.String.{[], ◌∷◌, ◌++◌}
use Prim.Native.String.append
use swarm_mcp.Prelude.{
  ℕ, String, ◌≡◌, ◌≢◌, refl, ap, sym, ◌∙◌, not, ◌||◌, List, arith, if◌then◌else◌,
}
use swarm_mcp.Text.{◌=ᵇ◌}

-- What a character does: it closes the quote, opens one, ends an argument, or belongs to it.
pub data Effect : Type 0 where
  closes opens ends adds : Effect

-- `quote` is the code of the open quote, or 0.
unfoldable pub effect : (quote c : ℕ) → Effect
effect quote c =
    if not (quote =ᵇ 0)
    then (if c =ᵇ quote then closes else adds)
    else if c =ᵇ b'"' || c =ᵇ b'\''
    then opens
    else if c =ᵇ b' ' || c =ᵇ b'\t'
    then ends
    else adds

-- if (!current.empty()) result.push_back(current);
unfoldable pub flush : String → List String → List String
flush [] result = result
flush (c ∷ s) result = List.◌∷◌ (c ∷ s) result

unfoldable pub tokenize_loop : (args current : String) → (quote : ℕ) → List String
unfolding effect flush
tokenize_loop [] current quote = flush current List.[]
tokenize_loop (c ∷ args) current quote = elim (effect quote (code c)) [
  | closes ↦ tokenize_loop args current 0
  | opens ↦ tokenize_loop args current (code c)
  | ends ↦ flush current (tokenize_loop args [] 0)
  | adds ↦ tokenize_loop args (current ++ (c ∷ [])) quote
]

unfoldable pub tokenize_args : String → List String
unfolding tokenize_loop
tokenize_args args = tokenize_loop args [] 0

-- The arguments in double quotes, each followed by a space.
abbrev pub quoted : List String → String
quoted List.[] = []
quoted (List.◌∷◌ a as') = "\"" ++ (a ++ ("\" " ++ quoted as'))

-- No double quote in a text.
abbrev pub HasNoQuote : String → Type 0
HasNoQuote [] = Unit
HasNoQuote (c ∷ s) = (code c ≢ b'"') × HasNoQuote s

abbrev pub HaveNoQuote : List String → Type 0
HaveNoQuote List.[] = Unit
HaveNoQuote (List.◌∷◌ a as') = HasNoQuote a × HaveNoQuote as'

-- The arguments that are not empty.
abbrev pub non_empty : List String → List String
non_empty List.[] = List.[]
non_empty (List.◌∷◌ a as') = flush a (non_empty as')

pub append-nil : (s : String) → s ++ [] ≡ s
append-nil [] = append.nil []
append-nil (c ∷ s) = append.cons c s [] ∙ ap (λ u. c ∷ u) (append-nil s)

pub snoc-append : (s : String) (c : Char) (t : String) → (s ++ (c ∷ [])) ++ t ≡ s ++ (c ∷ t)
snoc-append [] c t =
    ap (λ u. u ++ t) (append.nil (c ∷ []))
    ∙ append.cons c [] t
    ∙ ap (λ u. c ∷ u) (append.nil t)
    ∙ sym (append.nil (c ∷ t))
snoc-append (d ∷ s) c t =
    ap (λ u. u ++ t) (append.cons d s (c ∷ []))
    ∙ append.cons d (s ++ (c ∷ [])) t
    ∙ ap (λ u. d ∷ u) (snoc-append s c t)
    ∙ sym (append.cons d s (c ∷ t))

effect-quoted : (c : Char) → code c ≢ b'"' → effect b'"' (code c) ≡ adds
unfolding effect
effect-quoted c h = ground arith

-- One character of a quoted text.
adds_one :
    (c : Char) (rest current : String)
    → code c ≢ b'"'
    → tokenize_loop (c ∷ rest) current b'"' ≡ tokenize_loop rest (current ++ (c ∷ [])) b'"'
unfolding tokenize_loop
adds_one c rest current h = rw (tokenize_loop, effect-quoted c h)

-- Inside a quote, up to its end.
in_quote :
    (a rest current : String)
    → HasNoQuote a
    → tokenize_loop (a ++ rest) current b'"' ≡ tokenize_loop rest (current ++ a) b'"'
in_quote [] rest current h =
    ap (λ u. tokenize_loop u current b'"') (append.nil rest)
    ∙ ap (λ u. tokenize_loop rest u b'"') (sym (append-nil current))
in_quote (c ∷ a) rest current h =
    ap (λ u. tokenize_loop u current b'"') (append.cons c a rest)
    ∙ adds_one c (a ++ rest) current h.0
    ∙ in_quote a rest (current ++ (c ∷ [])) h.1
    ∙ ap (λ u. tokenize_loop rest u b'"') (snoc-append current c a)

opening : (rest : String) → tokenize_loop ("\"" ++ rest) [] 0 ≡ tokenize_loop rest [] b'"'
unfolding tokenize_loop effect
opening rest =
    ap (λ u. tokenize_loop u [] 0) (append.cons "\"" [] rest ∙ ap (λ u. "\"" ∷ u) (append.nil rest))

closing :
    (a rest : String) → tokenize_loop ("\" " ++ rest) a b'"' ≡ flush a (tokenize_loop rest [] 0)
unfolding tokenize_loop effect
closing a rest =
    ap (λ u. tokenize_loop u a b'"')
      (append.cons "\"" " " rest
        ∙ ap (λ u. "\"" ∷ u) (append.cons " " [] rest ∙ ap (λ u. " " ∷ u) (append.nil rest)))

-- Arguments that have no double quote in them come back, in order, from a command line that has them in
-- double quotes; only those that are empty are lost.
pub tokenize_args-quoted :
    (as' : List String) → HaveNoQuote as' → tokenize_args (quoted as') ≡ non_empty as'
unfolding tokenize_args flush
tokenize_args-quoted List.[] h = refl
tokenize_args-quoted (List.◌∷◌ a as') h =
    opening (a ++ ("\" " ++ quoted as'))
    ∙ in_quote a ("\" " ++ quoted as') [] h.0
    ∙ ap (λ u. tokenize_loop ("\" " ++ quoted as') u b'"') (append.nil a)
    ∙ closing a (quoted as')
    ∙ ap (flush a) (tokenize_args-quoted as' h.1)
