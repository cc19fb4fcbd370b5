-- ===== src/Types/Text.antt =====
-- The text of values: `std::to_string` of an `int64_t`, and the order of `std::string`.
use custom_sql_database.Prelude.{
  ℕ, zero, suc, ◌+◌, ◌-◌, ◌/◌, ◌%◌, Bool, true, false, [], ◌∷◌, Bytes, ltb, ◌==◌, if◌then◌else◌,
}

-- Decimal digits, at most `fuel` of them; 20 are enough for 64 bits.
unfoldable pub decimal : ℕ → ℕ → Bytes → Bytes
decimal zero n acc = acc
decimal (suc fuel) n acc =
    let more = decimal fuel (n / 10) ((48 + n % 10) ∷ acc) in
    if ltb n 10 then (48 + n) ∷ acc else more

-- std::to_string of the `int64_t` with this pattern.
unfoldable pub int_to_string : ℕ → Bytes
unfolding decimal
int_to_string a =
    if ltb a 9223372036854775808
    then decimal 20 a []
    else b'-' ∷ decimal 20 (18446744073709551616 - a) []

-- a < b on std::string.
unfoldable pub bytes_less : Bytes → Bytes → Bool
bytes_less bs [] = false
bytes_less [] (b ∷ bs) = true
bytes_less (a ∷ as') (b ∷ bs) = let rest = bytes_less as' bs in if a == b then rest else ltb a b
