-- ===== src/Json.antt =====
-- What the program uses of nlohmann::json, as an interface: the library is no part of the
-- repository. A call that throws `json::type_error` returns `none`.
pub mod Values
pub mod Read
use swarm_mcp.Prelude.{
  ℕ, ◌<◌, ◌^◌, String, ◌≡◌, Bool, true, false, Option, none, some, List, ite, String_discrete,
}
use swarm_mcp.Dict.{Dict, lookup}
use swarm_mcp.Int.{ℤ, pos, FitsInt64}

pub record JsonLib : Type 1 where
  pub Value : Type 0
  pub null : Value
  pub text : String → Value
  pub number : ℕ → Value
  -- A number with its sign.
  pub signed : ℤ → Value
  pub texts : List String → Value
  -- An initializer list of pairs.
  pub object : Dict Value → Value
  -- j[key] = value
  pub set : Value → String → Value → Value
  pub is_null : Value → Bool
  pub is_object : Value → Bool
  pub is_number : Value → Bool
  -- j.contains(key), and then j[key]
  pub member : Value → String → Option Value
  -- get<std::string>, get<std::vector<std::string>>, get<int64_t> where it is not negative,
  -- get<int64_t>, get<int>
  pub as_text : Value → Option String
  pub as_texts : Value → Option (List String)
  pub as_int64 : Value → Option ℕ
  pub as_signed : Value → Option ℤ
  pub as_int : Value → Option ℤ
  -- j.value(key, default), where `get` converts the member
  pub value : {A : Type 0} → (Value → Option A) → Value → String → A → Option A
  pub is_object-object : (fs : Dict Value) → is_object (object fs) ≡ true
  pub is_object-set :
      (j : Value) (k : String) (v : Value) → is_object j ≡ true → is_object (set j k v) ≡ true
  pub is_number-number : (n : ℕ) → is_number (number n) ≡ true
  pub member-object : (fs : Dict Value) (k : String) → member (object fs) k ≡ lookup k fs
  pub member-set :
      (j : Value) (k i : String) (v : Value)
      → is_object j ≡ true
      → member (set j k v) i ≡ ite (String_discrete k i) (some v) (member j i)
  pub as_text-text : (s : String) → as_text (text s) ≡ some s
  pub as_texts-texts : (l : List String) → as_texts (texts l) ≡ some l
  pub as_int64-number : (n : ℕ) → n < 2 ^ 63 → as_int64 (number n) ≡ some n
  pub as_int-number : (n : ℕ) → n < 2 ^ 31 → as_int (number n) ≡ some (pos n)
  pub as_signed-signed : (z : ℤ) → FitsInt64 z → as_signed (signed z) ≡ some z
  pub value-found :
      {A : Type 0} (get : Value → Option A) (j v : Value) (k : String) (d : A)
      → member j k ≡ some v
      → value get j k d ≡ get v
  pub value-missing :
      {A : Type 0} (get : Value → Option A) (j : Value) (k : String) (d : A)
      → is_object j ≡ true
      → member j k ≡ none
      → value get j k d ≡ some d

infixl 5 ◌>>=◌
abbrev pub ◌>>=◌ {ℓ κ} : {A : Type ℓ} {B : Type κ} → Option A → (A → Option B) → Option B
none >>= f = none
some a >>= f = f a
