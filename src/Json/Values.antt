-- ===== src/Json/Values.antt =====
-- A concrete library, small but lawful: it shows that the interface can be met.
use swarm_mcp.Prelude.{
  ℕ, String, ◌≡◌, refl, Bool, true, false, Option, none, some, List, [], ◌∷◌, ite, arith,
  String_discrete, if◌then◌else◌,
}
use swarm_mcp.Dict.{Dict, lookup}
use swarm_mcp.Int.{ℤ, pos, negsuc}
use swarm_mcp.Json.{JsonLib}

-- An object is `nil`, or one more field on an object; an array is `empty`, or one more item before
-- an array. `negative n` is the number `-(n + 1)`.
pub data Value : Type 0 where
  null nil empty : Value
  boolean : Bool → Value
  negative : ℕ → Value
  item : Value → Value → Value
  text : String → Value
  number : ℕ → Value
  texts : List String → Value
  field : String → Value → Value → Value

abbrev pub of_fields : Dict Value → Value
of_fields [] = nil
of_fields ((k, v) ∷ fs) = field k v (of_fields fs)

abbrev pub is_null : Value → Bool
is_null null = true
is_null _ = false

abbrev pub is_object : Value → Bool
is_object nil = true
is_object (field k v r) = true
is_object _ = false

abbrev pub is_number : Value → Bool
is_number (number n) = true
is_number (negative n) = true
is_number _ = false

abbrev pub member : Value → String → Option Value
member (field k v r) i = ite (String_discrete k i) (some v) (member r i)
member _ i = none

abbrev pub as_text : Value → Option String
as_text (text s) = some s
as_text _ = none

abbrev pub as_texts : Value → Option (List String)
as_texts (texts l) = some l
as_texts _ = none

abbrev pub as_number : Value → Option ℕ
as_number (number n) = some n
as_number _ = none

abbrev pub signed : ℤ → Value
signed (pos n) = number n
signed (negsuc n) = negative n

abbrev pub as_signed : Value → Option ℤ
as_signed (number n) = some (pos n)
as_signed (negative n) = some (negsuc n)
as_signed _ = none

pub as_signed-signed_lem : (z : ℤ) → as_signed (signed z) ≡ some z
as_signed-signed_lem (pos n) = refl
as_signed-signed_lem (negsuc n) = refl

abbrev pub value : {A : Type 0} → (Value → Option A) → Value → String → A → Option A
value get j k d = elim (member j k) [ some v ↦ get v | none ↦ if is_object j then some d else none ]

pub member-of_fields : (fs : Dict Value) (k : String) → member (of_fields fs) k ≡ lookup k fs
unfolding lookup
member-of_fields [] k = refl
member-of_fields ((j, v) ∷ fs) k = ground (arith, member-of_fields fs k)

pub is_object-of_fields : (fs : Dict Value) → is_object (of_fields fs) ≡ true
is_object-of_fields [] = refl
is_object-of_fields ((j, v) ∷ fs) = refl

pub value-found_lem :
    {A : Type 0} (get : Value → Option A) (j v : Value) (k : String) (d : A)
    → member j k ≡ some v
    → value get j k d ≡ get v
value-found_lem get j v k d e = rw (e, value)

pub value-missing_lem :
    {A : Type 0} (get : Value → Option A) (j : Value) (k : String) (d : A)
    → is_object j ≡ true
    → member j k ≡ none
    → value get j k d ≡ some d
value-missing_lem get j k d o e = rw (e, o, value)

abbrev pub json_values : JsonLib
json_values = record {
  Value = Value;
  null = null;
  text = text;
  number = number;
  signed = signed;
  texts = texts;
  object = of_fields;
  set = λ j k v. field k v j;
  is_null = is_null;
  is_object = is_object;
  is_number = is_number;
  member = member;
  as_text = as_text;
  as_texts = as_texts;
  as_int64 = as_number;
  as_signed = as_signed;
  as_int = as_signed;
  value = λ {A} get j k d. value get j k d;
  is_object-object = is_object-of_fields;
  is_object-set = λ j k v o. refl;
  is_number-number = λ n. refl;
  member-object = member-of_fields;
  member-set = λ j k i v o. refl;
  as_text-text = λ s. refl;
  as_texts-texts = λ l. refl;
  as_int64-number = λ n h. refl;
  as_int-number = λ n h. refl;
  as_signed-signed = λ z h. as_signed-signed_lem z;
  value-found = λ {A} get j v k d e. value-found_lem get j v k d e;
  value-missing = λ {A} get j k d o e. value-missing_lem get j k d o e;
}
