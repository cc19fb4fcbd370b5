-- ===== src/Types/Compare.antt =====
-- `operator==`, `operator<` and their kin on `Value` (types/value.cc).
use custom_sql_database.Prelude.{ℕ, Bool, true, false, not, ◌||◌, [], ◌∷◌, Bytes, ◌==◌, bytes_beq}
use custom_sql_database.Types.Value.{Value, null, int, float, string, boolean, int_less}
use custom_sql_database.Types.Text.{int_to_string, bytes_less}

-- What the code uses of `double`, on the 64-bit patterns of IEEE 754.
pub record Floats : Type 0 where
  -- static_cast<double> of an int64_t
  pub of_int : ℕ → ℕ
  -- a < b
  pub less : ℕ → ℕ → Bool
  -- std::abs(a - b) < 1e-9
  pub near : ℕ → ℕ → Bool
  -- operator<< with the default precision
  pub print : ℕ → Bytes

bool_beq : Bool → Bool → Bool
bool_beq true b = b
bool_beq false b = not b

module _ (fl : Floats) where
  unfoldable pub to_string : Value → Bytes
  to_string null = b'N' ∷ b'U' ∷ b'L' ∷ b'L' ∷ []
  to_string (int a) = int_to_string a
  to_string (float a) = fl.print a
  to_string (string s) = s
  to_string (boolean true) = b't' ∷ b'r' ∷ b'u' ∷ b'e' ∷ []
  to_string (boolean false) = b'f' ∷ b'a' ∷ b'l' ∷ b's' ∷ b'e' ∷ []

  unfoldable pub value_eq : Value → Value → Bool
  unfolding bool_beq
  value_eq null null = true
  value_eq (int a) (int b) = a == b
  value_eq (int a) (float b) = fl.near (fl.of_int a) b
  value_eq (float a) (int b) = fl.near a (fl.of_int b)
  value_eq (float a) (float b) = fl.near a b
  value_eq (string a) (string b) = bytes_beq a b
  value_eq (boolean a) (boolean b) = bool_beq a b
  value_eq _ _ = false

  unfoldable pub value_less : Value → Value → Bool
  unfolding to_string bytes_less
  value_less null null = false
  value_less null _ = true
  value_less _ null = false
  value_less (int a) (int b) = int_less a b
  value_less (int a) (float b) = fl.less (fl.of_int a) b
  value_less (float a) (int b) = fl.less a (fl.of_int b)
  value_less (float a) (float b) = fl.less a b
  value_less (string a) (string b) = bytes_less a b
  value_less a b = bytes_less (to_string a) (to_string b)

  unfoldable pub value_le : Value → Value → Bool
  value_le a b = value_less a b || value_eq a b

  unfoldable pub value_greater : Value → Value → Bool
  value_greater a b = not (value_le a b)

  unfoldable pub value_ge : Value → Value → Bool
  value_ge a b = not (value_less a b)
