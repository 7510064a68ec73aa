-- ===== src/Contract/Json.antt =====
-- JSON values of contracts/v1/analysis_run.py, with Python's equality, and `_validate_json`.
-- A finite float is m / 2^k exactly.
pub mod Equality
use technical_test_mitus_ai.Prelude.{
  ℕ, zero, suc, ◌-◌, ◌*◌, ◌^◌, String, ◌≡◌, refl, Bool, true, false, not, ◌&&◌, ◌||◌, Option, none,
  some, Eq, ◌==◌, nat_eq, string_eq, leb, ltb, if◌then◌else◌, Error, contract_validation,
  overflow_error, Result, ok, err, ◌>>=◌, ◌>>◌, require, forbid,
}
use technical_test_mitus_ai.Contract.Text.{is_unsafe_text, is_sensitive_key}

pub data ℤ : Type 0 where
  pos : ℕ → ℤ
  negsuc : ℕ → ℤ

pub data Number : Type 0 where
  int : ℤ → Number
  float : ℤ → ℕ → Number
  nan infinity minus_infinity : Number

mutual
  pub data JsonValue : Type 0 where
    null : JsonValue
    bool : Bool → JsonValue
    number : Number → JsonValue
    string : String → JsonValue
    array : Items → JsonValue
    object : Fields → JsonValue

  pub data Items : Type 0 where
    nil : Items
    item : JsonValue → Items → Items

  -- A dict, in its order of insertion.
  pub data Fields : Type 0 where
    end : Fields
    field : String → JsonValue → Fields → Fields

-- `math.isfinite` of a float
unfoldable pub is_finite : Number → Bool
is_finite (int z) = true
is_finite (float m k) = true
is_finite nan = false
is_finite infinity = false
is_finite minus_infinity = false

-- Integers from here on round to no finite float: `float(n)` raises OverflowError.
pub float_limit : ℕ
float_limit = 2 ^ 1024 - 2 ^ 970

unfoldable pub float_overflows : Number → Bool
unfolding float_limit
float_overflows (int (pos n)) = leb float_limit n
float_overflows (int (negsuc n)) = leb float_limit (suc n)
float_overflows _ = false

-- `0 <= x <= 100`
unfoldable pub is_percent : Number → Bool
is_percent (int (pos n)) = leb n 100
is_percent (float (pos m) k) = leb m (100 * 2 ^ k)
is_percent _ = false

-- `x == 100`
unfoldable pub is_hundred : Number → Bool
is_hundred (int (pos n)) = n == 100
is_hundred (float (pos m) k) = m == 100 * 2 ^ k
is_hundred _ = false

-- Number equality, as m / 2^j == n / 2^k
abbrev dyadic_eq : ℤ → ℕ → ℤ → ℕ → Bool
dyadic_eq (pos m) j (pos n) k = m * 2 ^ k == n * 2 ^ j
dyadic_eq (negsuc m) j (negsuc n) k = suc m * 2 ^ k == suc n * 2 ^ j
dyadic_eq _ j _ k = false

unfoldable pub number_eq : Number → Number → Bool
number_eq (int a) (int b) = dyadic_eq a 0 b 0
number_eq (int a) (float b k) = dyadic_eq a 0 b k
number_eq (float a j) (int b) = dyadic_eq a j b 0
number_eq (float a j) (float b k) = dyadic_eq a j b k
number_eq infinity infinity = true
number_eq minus_infinity minus_infinity = true
number_eq _ _ = false

-- In Python a bool is an int: `True == 1`.
abbrev bool_number : Bool → Number
bool_number true = int (pos 1)
bool_number false = int (pos 0)

abbrev pub get_field : String → Fields → Option JsonValue
get_field k end = none
get_field k (field j v fs) = if j == k then some v else get_field k fs

abbrev pub field_count : Fields → ℕ
field_count end = 0
field_count (field k v fs) = suc (field_count fs)

abbrev pub with_value : (JsonValue → Bool) → Option JsonValue → Bool
with_value f none = false
with_value f (some v) = f v

-- Python's `==` on JSON values: dicts are compared whatever their order.
unfoldable mutual
  unfolding number_eq

  pub json_eq : JsonValue → JsonValue → Bool
  json_eq null null = true
  json_eq (bool a) (bool b) = number_eq (bool_number a) (bool_number b)
  json_eq (bool a) (number b) = number_eq (bool_number a) b
  json_eq (number a) (bool b) = number_eq a (bool_number b)
  json_eq (number a) (number b) = number_eq a b
  json_eq (string a) (string b) = a == b
  json_eq (array xs) (array ys) = items_eq xs ys
  json_eq (object f) (object g) = field_count f == field_count g && fields_in f g
  json_eq _ _ = false

  pub items_eq : Items → Items → Bool
  items_eq nil nil = true
  items_eq (item x xs) (item y ys) = json_eq x y && items_eq xs ys
  items_eq _ _ = false

  -- Each entry has its equal in the other dict.
  pub fields_in : Fields → Fields → Bool
  fields_in end g = true
  fields_in (field k v f) g = with_value (json_eq v) (get_field k g) && fields_in f g

-- Two mappings
abbrev pub mapping_eq : Fields → Fields → Bool
mapping_eq f g = json_eq (object f) (object g)

-- `_validate_json`: no number that is not finite
unfoldable mutual
  unfolding is_finite

  pub validate_json : JsonValue → Result (Unit {0})
  validate_json (number n) =
      require (is_finite n) (contract_validation "contains a non-finite number")
  validate_json (array xs) = validate_items xs
  validate_json (object fs) = validate_mapping fs
  validate_json _ = ok tt

  pub validate_items : Items → Result (Unit {0})
  validate_items nil = ok tt
  validate_items (item x xs) = do validate_json x; validate_items xs

  pub validate_mapping : Fields → Result (Unit {0})
  validate_mapping end = ok tt
  validate_mapping (field k v fs) = do validate_json v; validate_mapping fs

-- `_validate_safe_detail_value`, and `_validate_safe_details` below
mutual
  unfolding validate_json

  safe_value : JsonValue → Result (Unit {0})
  safe_value (string s) =
      forbid (is_unsafe_text s) (contract_validation "contains unsafe diagnostic content")
  safe_value (object fs) = do validate_mapping fs; safe_fields fs
  safe_value (array xs) = safe_items xs
  safe_value _ = ok tt

  safe_items : Items → Result (Unit {0})
  safe_items nil = ok tt
  safe_items (item x xs) = do safe_value x; safe_items xs

  safe_fields : Fields → Result (Unit {0})
  safe_fields end = ok tt
  safe_fields (field k v fs) = do
    forbid (is_sensitive_key k) (contract_validation "contains a secret-like key")
    safe_value v
    safe_fields fs

unfoldable pub validate_safe_details : Fields → Result (Unit {0})
unfolding validate_json safe_value
validate_safe_details fs = do validate_mapping fs; safe_fields fs
