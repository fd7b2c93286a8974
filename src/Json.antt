-- ===== src/Json.antt =====
-- serde_json's `Value`, and the accessors that the program calls on it.
use outbox_dispatcher.Base.{ℕ, Bool, Option, none, some, List, [], ◌∷◌, if◌then◌else◌}
use outbox_dispatcher.Text.{Text, text_eq}

-- `serde_json::Number`: a u64, a negative i64, or a float (whose value nothing here reads).
pub data Number : Type 0 where
  pos_int : ℕ → Number
  neg_int : ℕ → Number
  float : Number

mutual
  pub data Value : Type 0 where
    null : Value
    bool : Bool → Value
    number : Number → Value
    string : Text → Value
    array : Elements → Value
    object : Members → Value

  pub data Elements : Type 0 where
    nil : Elements
    cons : Value → Elements → Elements

  pub data Members : Type 0 where
    end : Members
    member : Text → Value → Members → Members

abbrev pub elements : Elements → List Value
elements nil = []
elements (cons v vs) = v ∷ elements vs

abbrev pub members : Members → List (Text × Value)
members end = []
members (member k v ms) = (k, v) ∷ members ms

abbrev pub as_array : Value → Option (List Value)
as_array (array es) = some (elements es)
as_array null = none
as_array (bool b) = none
as_array (number n) = none
as_array (string s) = none
as_array (object ms) = none

abbrev pub as_object : Value → Option (List (Text × Value))
as_object (object ms) = some (members ms)
as_object null = none
as_object (bool b) = none
as_object (number n) = none
as_object (string s) = none
as_object (array es) = none

abbrev pub as_str : Value → Option Text
as_str (string s) = some s
as_str null = none
as_str (bool b) = none
as_str (number n) = none
as_str (array es) = none
as_str (object ms) = none

abbrev pub as_u64 : Value → Option ℕ
as_u64 (number (pos_int n)) = some n
as_u64 (number (neg_int n)) = none
as_u64 (number float) = none
as_u64 null = none
as_u64 (bool b) = none
as_u64 (string s) = none
as_u64 (array es) = none
as_u64 (object ms) = none

-- `Map::get`: an object's keys are distinct, so the first hit is the only one.
unfoldable pub lookup : Text → List (Text × Value) → Option Value
lookup k [] = none
lookup k ((j, v) ∷ ms) = if text_eq j k then some v else lookup k ms

-- `Value::get(key)`: a value that is no object has no member.
abbrev pub get : Value → Text → Option Value
get (object ms) k = lookup k (members ms)
get null k = none
get (bool b) k = none
get (number n) k = none
get (string s) k = none
get (array es) k = none
