-- ===== src/Json/Read.antt =====
-- Reading back a member that is known to be there.
use swarm_mcp.Prelude.{ℕ, ◌<◌, ◌^◌, String, ◌≡◌, ◌∙◌, some, List, arith, to_millis}
use swarm_mcp.Dict.{Dict, lookup}
use swarm_mcp.Json.{JsonLib}

module _ (lib : JsonLib) where
  open lib use {
    Value, text, number, texts, object, member, as_text, as_texts, as_int64, value, member-object,
    as_text-text, as_texts-texts, as_int64-number, value-found,
  }

  pub read_text :
      (j : Value) (i s d : String) → member j i ≡ some (text s) → value as_text j i d ≡ some s
  read_text j i s d e = value-found as_text j (text s) i d e ∙ as_text-text s

  pub read_texts :
      (j : Value) (i : String) (l d : List String)
      → member j i ≡ some (texts l)
      → value as_texts j i d ≡ some l
  read_texts j i l d e = value-found as_texts j (texts l) i d e ∙ as_texts-texts l

  pub read_number :
      (j : Value) (i : String) (n d : ℕ)
      → n < 2 ^ 63
      → member j i ≡ some (number n)
      → value as_int64 j i d ≡ some n
  read_number j i n d h e = value-found as_int64 j (number n) i d e ∙ as_int64-number n h

  pub read_value :
      (j : Value) (i : String) (v d : Value) → member j i ≡ some v → value some j i d ≡ some v
  read_value j i v d e = value-found some j v i d e

  pub read_time :
      (j : Value) (i : String) (time : ℕ)
      → time < 2 ^ 63
      → member j i ≡ some (number (to_millis time))
      → value as_int64 j i 0 ≡ some (to_millis time)
  read_time j i time h e = read_number j i (to_millis time) 0 (omega arith) e

  pub member-fields :
      (fs : Dict Value) (i : String) (v : Value)
      → lookup i fs ≡ some v
      → member (object fs) i ≡ some v
  member-fields fs i v e = member-object fs i ∙ e
