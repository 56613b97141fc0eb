-- ===== src/Json.antt =====
-- `serde_json::Value`, as far as the program reads and builds it. An object is the list of its
-- members; `get` takes the first member of a name. (A parsed or built object has each name once.)
use federated_catalog_rs.Prelude.{
  ℕ, String, Bool, Option, none, some, List, [], ◌∷◌, ◌==◌, if◌then◌else◌,
}

-- `serde_json::Number`: an unsigned integer, a negative one, or a float, which the program never reads
pub data Number : Type 0 where
  pos_int : ℕ → Number
  neg_int : ℕ → Number
  float : String → Number

mutual
  pub data Value : Type 0 where
    null : Value
    bool : Bool → Value
    number : Number → Value
    string : String → Value
    array : Items → Value
    object : Members → Value

  pub data Items : Type 0 where
    nil : Items
    item : Value → Items → Items

  pub data Members : Type 0 where
    end : Members
    member : String → Value → Members → Members

unfoldable pub lookup : String → Members → Option Value
lookup key end = none
lookup key (member name v ms) = let rest = lookup key ms in if name == key then some v else rest

-- `value.get(key)`
unfoldable pub get : String → Value → Option Value
unfolding lookup
get key (object ms) = lookup key ms
get key null = none
get key (bool b) = none
get key (number n) = none
get key (string s) = none
get key (array vs) = none

-- `Value::as_str`
abbrev pub as_str : Value → Option String
as_str (string s) = some s
as_str null = none
as_str (bool b) = none
as_str (number n) = none
as_str (array vs) = none
as_str (object ms) = none

abbrev pub as_u64_number : Number → Option ℕ
as_u64_number (pos_int n) = some n
as_u64_number (neg_int n) = none
as_u64_number (float s) = none

-- `Value::as_u64`
abbrev pub as_u64 : Value → Option ℕ
as_u64 (number n) = as_u64_number n
as_u64 null = none
as_u64 (bool b) = none
as_u64 (string s) = none
as_u64 (array vs) = none
as_u64 (object ms) = none

-- `Value::as_array`
abbrev pub as_array : Value → Option Items
as_array (array vs) = some vs
as_array null = none
as_array (bool b) = none
as_array (number n) = none
as_array (string s) = none
as_array (object ms) = none

abbrev pub to_list : Items → List Value
to_list nil = []
to_list (item v vs) = v ∷ to_list vs

abbrev pub of_list : List Value → Items
of_list [] = nil
of_list (v ∷ vs) = item v (of_list vs)

abbrev pub members : List (String × Value) → Members
members [] = end
members ((k, v) ∷ ms) = member k v (members ms)

-- The literals of `json!`
abbrev pub obj : List (String × Value) → Value
obj ms = object (members ms)

abbrev pub arr : List Value → Value
arr vs = array (of_list vs)

abbrev pub nat : ℕ → Value
nat n = number (pos_int n)

-- `value.get(key).and_then(Value::as_str)` and its like
abbrev pub and_then {ℓ} : {A : Type ℓ} → Option Value → (Value → Option A) → Option A
and_then none f = none
and_then (some v) f = f v

unfoldable pub get_str : String → Value → Option String
unfolding get
get_str key v = and_then (get key v) as_str

unfoldable pub get_u64 : String → Value → Option ℕ
unfolding get
get_u64 key v = and_then (get key v) as_u64

unfoldable pub get_array : String → Value → Option Items
unfolding get
get_array key v = and_then (get key v) as_array

abbrev pub or_else {ℓ} : {A : Type ℓ} → Option A → Option A → Option A
or_else none b = b
or_else (some a) b = some a

abbrev pub unwrap_or {ℓ} : {A : Type ℓ} → Option A → A → A
unwrap_or none d = d
unwrap_or (some a) d = a
