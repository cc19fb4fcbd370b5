-- ===== src/Executor/RowKey.antt =====
-- `isRowEqual`, `isRowLess` and the hash of a row (executor/row_key.cc).
use Prim.Native.Nat.{bit_xor}
use custom_sql_database.Prelude.{
  ℕ, ◌+◌, ◌*◌, ◌/◌, ◌%◌, ◌^◌, ◌≡◌, ◌↔◌, Bool, true, false, ◌&&◌, List, [], ◌∷◌, Bytes,
  bytes_beq_iff, if◌then◌else◌, arith, All,
}
use custom_sql_database.Types.Value.{Value, null, int, float, string, boolean}
use custom_sql_database.Types.Compare.{Floats, value_eq, value_less}

-- `std::hash` of the standard library.
pub record Hashes : Type 0 where
  pub hash_int : ℕ → ℕ
  pub hash_double : ℕ → ℕ
  pub hash_string : Bytes → ℕ
  pub hash_bool : Bool → ℕ

module _ (hs : Hashes) where
  unfoldable pub hash_value : Value → ℕ
  hash_value null = 0
  hash_value (int a) = hs.hash_int a
  hash_value (float a) = hs.hash_double a
  hash_value (string s) = hs.hash_string s
  hash_value (boolean b) = hs.hash_bool b

-- seed ^= value + HASH_MIX_CONSTANT + (seed << 6) + (seed >> 2), in 64 bits.
unfoldable pub mix_hash : ℕ → ℕ → ℕ
mix_hash seed value =
    bit_xor seed ((value + 0x9e3779b97f4a7c15 + seed * 64 % 2 ^ 64 + seed / 4) % 2 ^ 64)

module _ (hs : Hashes) where
  hash_from : ℕ → List Value → ℕ
  hash_from seed [] = seed
  hash_from seed (v ∷ vs) = hash_from (mix_hash seed (hash_value hs v)) vs

  unfoldable pub hash_row : List Value → ℕ
  unfolding hash_from
  hash_row vs = hash_from 0 vs

module _ (fl : Floats) where
  unfoldable pub is_row_equal : List Value → List Value → Bool
  is_row_equal [] [] = true
  is_row_equal (a ∷ as') (b ∷ bs) = value_eq fl a b && is_row_equal as' bs
  is_row_equal _ _ = false

  unfoldable pub is_row_less : List Value → List Value → Bool
  is_row_less as' [] = false
  is_row_less [] (b ∷ bs) = true
  is_row_less (a ∷ as') (b ∷ bs) =
      let rest = is_row_less as' bs in if value_eq fl a b then rest else value_less fl a b

-- Values other than floats, on which `==` is equality.
abbrev pub NoFloat : Value → Type 0
NoFloat (float _) = ⊥
NoFloat _ = Unit

module _ (fl : Floats) where
  pub value_eq_iff : (a b : Value) → NoFloat a → NoFloat b → (value_eq fl a b ≡ true) ↔ (a ≡ b)
  unfolding value_eq
  value_eq_iff (float a) b ha hb = absurd ha
  value_eq_iff a (float b) ha hb = absurd hb
  value_eq_iff (string a) (string b) ha hb = ground (arith, bytes_beq_iff a b)
  value_eq_iff _ _ ha hb = ground arith

  -- On rows without floats `isRowEqual` decides equality.
  pub is_row_equal_iff :
      (as' bs : List Value)
      → All NoFloat as'
      → All NoFloat bs
      → (is_row_equal fl as' bs ≡ true) ↔ (as' ≡ bs)
  unfolding is_row_equal
  is_row_equal_iff [] [] ha hb = ground arith
  is_row_equal_iff [] (b ∷ bs) ha hb = ground arith
  is_row_equal_iff (a ∷ as') [] ha hb = ground arith
  is_row_equal_iff (a ∷ as') (b ∷ bs) ha hb =
      ground (arith, value_eq_iff a b ha.0 hb.0, is_row_equal_iff as' bs ha.1 hb.1)
