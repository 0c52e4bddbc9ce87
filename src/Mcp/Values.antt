-- ===== src/Mcp/Values.antt =====
-- A concrete library for the protocol: it shows that the interface can be met.
use swarm_mcp.Prelude.{
  String, ◌≡◌, refl, ap, Bool, true, false, Option, none, some, List, [], ◌∷◌, ite, arith,
  String_discrete, if◌then◌else◌, Bool-cases, inl, inr,
}
use std.Option.{some-injective}
use swarm_mcp.Dict.{Dict, lookup}
use swarm_mcp.Json.Values.{
  Value, null, nil, empty, boolean, negative, item, number, field, is_object, is_number, is_null,
  member, of_fields, json_values,
}
use swarm_mcp.Mcp.Json.{ℤ, pos, negsuc, RpcJson, throws}

abbrev as_bool : Value → Option Bool
as_bool (boolean b) = some b
as_bool _ = none

abbrev integer : ℤ → Value
integer (pos n) = number n
integer (negsuc n) = negative n

abbrev as_integer : Value → Option ℤ
as_integer (number n) = some (pos n)
as_integer (negative n) = some (negsuc n)
as_integer _ = none

abbrev array : List Value → Value
array [] = empty
array (v ∷ vs) = item v (array vs)

abbrev elements : Value → List Value
elements (item v r) = v ∷ elements r
elements _ = []

abbrev items : Value → Option (List Value)
items empty = some []
items (item v r) = some (v ∷ elements r)
items _ = none

abbrev pub as_object : Value → Value
as_object j = if is_object j then j else nil

abbrev pub erase : Value → String → Value
erase (field k v r) i = ite (String_discrete k i) (as_object (erase r i)) (field k v (erase r i))
erase j i = j

abbrev pub or_null : Option Value → Value
or_null none = null
or_null (some v) = v

abbrev pub merge_patch : Value → Value → Value
merge_patch j nil = as_object j
merge_patch j (field k v r) =
    if is_null v
    then erase (merge_patch j r) k
    else field k (merge_patch (or_null (member j k)) v) (merge_patch j r)
merge_patch j p = p

is_object-as_object : (j : Value) → is_object (as_object j) ≡ true
is_object-as_object nil = refl
is_object-as_object (field k v r) = refl
is_object-as_object j = refl

member-as_object : (j : Value) (k : String) → member (as_object j) k ≡ member j k
member-as_object (field i v r) k = refl
member-as_object j k = refl

is_object-erase : (j : Value) (k : String) → is_object j ≡ true → is_object (erase j k) ≡ true
is_object-erase nil k o = refl
is_object-erase (field i v r) k o = ground (arith, is_object-as_object (erase r k))
is_object-erase j k o = cc

member-erase :
    (j : Value) (k i : String) → member (erase j k) i ≡ ite (String_discrete k i) none (member j i)
member-erase (field i v r) k j = ground (arith, member-erase r k j, member-as_object (erase r k) j)
member-erase j k i = ground arith

pub is_object-merge_patch_lem :
    (j : Value) (fs : Dict Value) → is_object (merge_patch j (of_fields fs)) ≡ true
is_object-merge_patch_lem j [] = is_object-as_object j
is_object-merge_patch_lem j ((k, v) ∷ fs) = elim (Bool-cases (is_null v)) [
  | inl n ↦
      ground
        (arith, is_object-erase (merge_patch j (of_fields fs)) k (is_object-merge_patch_lem j fs))
  | inr n ↦ rw n
]

pub member-merge_patch_lem :
    (j : Value) (fs : Dict Value) (k : String) (v : Value)
    → lookup k fs ≡ some v
    → is_null v ≡ false
    → (old : Value) × (member (merge_patch j (of_fields fs)) k ≡ some (merge_patch old v))
unfolding lookup
member-merge_patch_lem j [] k v e n = cc
member-merge_patch_lem j ((i, w) ∷ fs) k v e n = elim (String_discrete i k) [
  | yes hit ↦
      let same : w ≡ v = some-injective {a = w} {b = v} (ground arith) in
      (or_null (member j i), ground (arith, same))
  | no miss ↦
      let (old, f) = member-merge_patch_lem j fs k v (ground arith) n in
      (old, ground (arith, f, member-erase (merge_patch j (of_fields fs)) i k))
]

pub as_integer-integer_lem : (z : ℤ) → as_integer (integer z) ≡ some z
as_integer-integer_lem (pos n) = refl
as_integer-integer_lem (negsuc n) = refl

pub is_null-of_fields : (fs : Dict Value) → is_null (of_fields fs) ≡ false
is_null-of_fields [] = refl
is_null-of_fields ((k, v) ∷ fs) = refl

pub is_object-member_lem :
    (j : Value) (k : String) (v : Value) → member j k ≡ some v → is_object j ≡ true
is_object-member_lem (field i w r) k v e = refl
is_object-member_lem j k v e = cc

pub is_number-integer_lem : (z : ℤ) → is_number (integer z) ≡ true
is_number-integer_lem (pos n) = refl
is_number-integer_lem (negsuc n) = refl

elements-array : (vs : List Value) → elements (array vs) ≡ vs
elements-array [] = refl
elements-array (v ∷ vs) = ap (λ r. v ∷ r) (elements-array vs)

pub items-array_lem : (vs : List Value) → items (array vs) ≡ some vs
items-array_lem [] = refl
items-array_lem (v ∷ vs) = ap (λ r. some (v ∷ r)) (elements-array vs)

abbrev pub rpc_values : RpcJson
rpc_values = record {
  lib = json_values;
  bool = boolean;
  integer = integer;
  array = array;
  as_bool = as_bool;
  as_integer = as_integer;
  as_rounded = as_integer;
  items = items;
  erase = erase;
  merge_patch = merge_patch;
  dump = λ v. "{}";
  parse = λ s. throws "not parsed";
  type_error = λ v. "type_error";
  as_bool-bool = λ b. refl;
  as_integer-integer = λ z h. as_integer-integer_lem z;
  as_rounded-integer = λ z h. as_integer-integer_lem z;
  is_number-integer = is_number-integer_lem;
  items-array = items-array_lem;
  is_object-member = is_object-member_lem;
  is_null-null = refl;
  is_null-text = λ s. refl;
  is_null-object = is_null-of_fields;
  merge_patch-text = λ j s. refl;
  is_object-merge_patch = is_object-merge_patch_lem;
  member-merge_patch = member-merge_patch_lem;
}
