-- ===== src/Partition/Hash.antt =====
-- `computePartitionHash` of core/partition.cc: FNV-1a on 64 bits.
use custom_sql_database.Prelude.{
  ℕ, zero, suc, ◌+◌, ◌*◌, ◌/◌, ◌%◌, ◌^◌, [], ◌∷◌, Bytes, if◌then◌else◌,
}
use custom_sql_database.Types.Value.{
  DataType, int_type, float_type, string_type, boolean_type, date_type, uuid_type, Value, null, int,
  float, string, boolean, get_type,
}
use custom_sql_database.Types.Bytes.{le_bytes}

-- a ^ b on the low bits.
unfoldable pub xor : ℕ → ℕ → ℕ → ℕ
xor zero a b = 0
xor (suc bits) a b = (a + b) % 2 + 2 * xor bits (a / 2) (b / 2)

abbrev fnv_offset : ℕ
fnv_offset = 14695981039346656037

abbrev fnv_prime : ℕ
fnv_prime = 1099511628211

unfoldable pub mix_bytes : ℕ → Bytes → ℕ
unfolding xor
mix_bytes hash [] = hash
mix_bytes hash (b ∷ data') = mix_bytes (xor 64 hash b * fnv_prime % 2 ^ 64) data'

-- static_cast<uint8_t> of a `DataType`
abbrev type_tag : DataType → ℕ
type_tag int_type = 0
type_tag float_type = 1
type_tag string_type = 2
type_tag boolean_type = 3
type_tag date_type = 4
type_tag uuid_type = 5

-- The bytes of the value behind the tag.
abbrev hashed_bytes : Value → Bytes
hashed_bytes null = []
hashed_bytes (int v) = le_bytes 8 v
hashed_bytes (float v) = le_bytes 8 v
hashed_bytes (boolean b) = (if b then 1 else 0) ∷ []
hashed_bytes (string s) = s

unfoldable pub compute_partition_hash : Value → ℕ
unfolding mix_bytes get_type le_bytes
compute_partition_hash value =
    mix_bytes (mix_bytes fnv_offset (type_tag (get_type value) ∷ [])) (hashed_bytes value)
