-- ===== src/Storage/Tuple.antt =====
-- `serialize_tuple`, `measure_tuple_size` and `deserialize_tuple` of storage/page_format.cc.
pub mod RoundTrip
use custom_sql_database.Prelude.{
  ℕ, zero, suc, ◌+◌, ◌-◌, ◌*◌, ◌%◌, ◌^◌, ◌<◌, ◌≤◌, ◌≡◌, refl, ap, Bool, true, false, List, [], ◌∷◌,
  ◌++◌, arith, Bytes, length, length-append, take, drop, take_of_length-eq, drop_of_length-eq, leb,
  ltb, if◌then◌else◌, All,
}
use custom_sql_database.Errors.{Result, ok, throw, storage_error, ◌>>=◌}
use custom_sql_database.Types.Value.{Value, DataType}
use custom_sql_database.Types.Bytes.{le_bytes, le_value, length-le_bytes, le_value-le_bytes}
use custom_sql_database.Types.Codec.{
  serialize_value, deserialize_value, InRange, deserialize-serialize,
}
use custom_sql_database.Row.{Row}

unfoldable pub append_u32 : Bytes → ℕ → Bytes
append_u32 out value = out ++ le_bytes 4 (value % 2 ^ 32)

unfoldable pub append_u64 : Bytes → ℕ → Bytes
append_u64 out value = out ++ le_bytes 8 value

-- A reader takes the bytes from the offset on, and returns those behind what it read.
unfoldable pub read_u32 : Bytes → Result (ℕ × Bytes)
read_u32 rest =
    if ltb (length rest) 4 then throw storage_error else ok (le_value (take 4 rest), drop 4 rest)

unfoldable pub read_u64 : Bytes → Result (ℕ × Bytes)
read_u64 rest =
    if ltb (length rest) 8 then throw storage_error else ok (le_value (take 8 rest), drop 8 rest)

-- The loop over the columns: each value has its length in front.
unfoldable pub append_columns : Bytes → List Value → Bytes
unfolding append_u32
append_columns out [] = out
append_columns out (v ∷ vs) =
    let blob = serialize_value v in append_columns (append_u32 out (length blob) ++ blob) vs

unfoldable pub serialize_tuple : Row → Bytes
unfolding append_columns append_u64
serialize_tuple row = append_columns (append_u64 (append_u64 [] row.xmin) row.xmax) row.values

measure_columns : ℕ → List Value → ℕ
measure_columns size [] = size
measure_columns size (v ∷ vs) = measure_columns (size + (4 + length (serialize_value v))) vs

unfoldable pub measure_tuple_size : Row → ℕ
unfolding measure_columns
measure_tuple_size row = measure_columns 16 row.values

unfoldable pub read_column : Bytes → Result (Value × Bytes)
unfolding read_u32
read_column rest = do
  (value_len, rest') ← read_u32 rest
  if ltb (length rest') value_len
      then throw storage_error
      else do v ← deserialize_value (take value_len rest'); ok (v, drop value_len rest')

unfoldable pub read_columns : Bytes → List DataType → Result (List Value)
unfolding read_column
read_columns rest [] = ok []
read_columns rest (t ∷ types) = do
  (v, rest') ← read_column rest
  vs ← read_columns rest' types
  ok (v ∷ vs)

unfoldable pub deserialize_tuple : Bytes → List DataType → Result Row
unfolding read_columns read_u64
deserialize_tuple bytes types = do
  (xmin, rest) ← read_u64 bytes
  (xmax, rest') ← read_u64 rest
  vs ← read_columns rest' types
  ok (record { values = vs; xmin = xmin; xmax = xmax })
