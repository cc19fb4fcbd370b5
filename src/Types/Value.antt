-- ===== src/Types/Value.antt =====
-- `Value` and `DataType` of types/value.h and types/data_type.h. An `int64_t` and a `double` are
-- the 64-bit patterns that hold them, a string is its bytes.
use custom_sql_database.Prelude.{ℕ, ◌+◌, ◌%◌, Bool, true, false, Bytes, ltb}

pub data DataType : Type 0 where
  int_type float_type string_type boolean_type date_type uuid_type : DataType

pub data Value : Type 0 where
  null : Value
  int : ℕ → Value
  float : ℕ → Value
  string : Bytes → Value
  boolean : Bool → Value

abbrev pub is_null : Value → Bool
is_null null = true
is_null _ = false

-- Order of two `int64_t` patterns: flipping the sign bit turns the signed order into that of ℕ.
abbrev pub flip_sign : ℕ → ℕ
flip_sign a = (a + 9223372036854775808) % 18446744073709551616

abbrev pub int_less : ℕ → ℕ → Bool
int_less a b = ltb (flip_sign a) (flip_sign b)

-- `get_type`: NULL counts as STRING.
unfoldable pub get_type : Value → DataType
get_type (int _) = int_type
get_type (float _) = float_type
get_type (string _) = string_type
get_type (boolean _) = boolean_type
get_type null = string_type
