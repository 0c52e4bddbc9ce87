-- ===== src/Mcp/Json.antt =====
-- What the protocol uses of nlohmann::json, on top of Json.
use swarm_mcp.Prelude.{String, ◌≡◌, Bool, true, false, Option, some, List}
pub use swarm_mcp.Int.{ℤ, pos, negsuc, minus, FitsInt}
use swarm_mcp.Dict.{Dict, lookup}
use swarm_mcp.Json.{JsonLib}

-- How a function ends that may throw: with its value, or with the `what()` of an exception.
pub data Answer (A : Type 0) : Type 0 where
  returns : A → Answer A
  throws : String → Answer A

pub record RpcJson : Type 1 where
  pub lib : JsonLib
  open lib use {Value, null, text, object, is_null, is_object, is_number, member}
  pub bool : Bool → Value
  pub integer : ℤ → Value
  pub array : List Value → Value
  -- get<bool>
  pub as_bool : Value → Option Bool
  -- is_number_integer(), and is_number(), with get<int>
  pub as_integer : Value → Option ℤ
  pub as_rounded : Value → Option ℤ
  -- is_array(), with the elements
  pub items : Value → Option (List Value)
  pub erase : Value → String → Value
  pub merge_patch : Value → Value → Value
  pub dump : Value → String
  -- json::parse, which throws `parse_error`
  pub parse : String → Answer Value
  -- what() of the `type_error` that is thrown where the value is not as it is read
  pub type_error : Value → String
  pub as_bool-bool : (b : Bool) → as_bool (bool b) ≡ some b
  pub as_integer-integer : (z : ℤ) → FitsInt z → as_integer (integer z) ≡ some z
  pub as_rounded-integer : (z : ℤ) → FitsInt z → as_rounded (integer z) ≡ some z
  pub is_number-integer : (z : ℤ) → is_number (integer z) ≡ true
  pub items-array : (vs : List Value) → items (array vs) ≡ some vs
  -- `contains` is false for what is no object.
  pub is_object-member :
      (j : Value) (k : String) (v : Value) → member j k ≡ some v → is_object j ≡ true
  pub is_null-null : is_null null ≡ true
  pub is_null-text : (s : String) → is_null (text s) ≡ false
  pub is_null-object : (fs : Dict Value) → is_null (object fs) ≡ false
  pub merge_patch-text : (j : Value) (s : String) → merge_patch j (text s) ≡ text s
  pub is_object-merge_patch :
      (j : Value) (fs : Dict Value) → is_object (merge_patch j (object fs)) ≡ true
  -- RFC 7396: a member of the patch that is not null is merged into what stands there.
  pub member-merge_patch :
      (j : Value) (fs : Dict Value) (k : String) (v : Value)
      → lookup k fs ≡ some v
      → is_null v ≡ false
      → (old : Value) × (member (merge_patch j (object fs)) k ≡ some (merge_patch old v))
