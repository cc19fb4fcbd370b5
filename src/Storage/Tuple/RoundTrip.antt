-- ===== src/Storage/Tuple/RoundTrip.antt =====
-- Reading back an encoded tuple (storage/page_format.cc).
use mathlib.Core.List.{append-nil, append_assoc}
use custom_sql_database.Prelude.{
  ℕ, ◌+◌, ◌%◌, ◌^◌, ◌<◌, ◌≤◌, ◌≡◌, refl, List, [], ◌∷◌, ◌∙◌, ◌++◌, arith, Bytes, length,
  length-append, take_of_length-eq, drop_of_length-eq, All,
}
use custom_sql_database.Errors.{ok}
use custom_sql_database.Types.Value.{Value, DataType}
use custom_sql_database.Types.Bytes.{le_bytes, length-le_bytes, le_value-le_bytes}
use custom_sql_database.Types.Codec.{
  serialize_value, InRange, deserialize-serialize, length-serialize-lt,
}
use custom_sql_database.Row.{Row}
use custom_sql_database.Storage.Tuple.{
  append_u32, read_u32, read_u64, append_columns, serialize_tuple, measure_columns,
  measure_tuple_size, read_column, read_columns, deserialize_tuple,
}

encode : List Value → Bytes
encode [] = []
encode (v ∷ vs) =
    le_bytes 4 (length (serialize_value v) % 2 ^ 32) ++ (serialize_value v ++ encode vs)

append_columns-encode : (out : Bytes) (vs : List Value) → append_columns out vs ≡ out ++ encode vs
unfolding append_columns append_u32 encode
append_columns-encode out [] = simp append-nil
append_columns-encode out (v ∷ vs) =
    append_columns-encode (append_u32 out (length (serialize_value v)) ++ serialize_value v) vs
    ∙ simp append_assoc

read_u32-append :
    (n : ℕ) (rest : Bytes) → n < 2 ^ 32 → read_u32 (le_bytes 4 n ++ rest) ≡ ok (n, rest)
unfolding read_u32
read_u32-append n rest h = ground (
  arith,
  length-append (le_bytes 4 n) rest,
  length-le_bytes 4 n,
  take_of_length-eq 4 (le_bytes 4 n) rest,
  drop_of_length-eq 4 (le_bytes 4 n) rest,
  le_value-le_bytes 4 n,
)

read_u64-append :
    (n : ℕ) (rest : Bytes) → n < 2 ^ 64 → read_u64 (le_bytes 8 n ++ rest) ≡ ok (n, rest)
unfolding read_u64
read_u64-append n rest h = ground (
  arith,
  length-append (le_bytes 8 n) rest,
  length-le_bytes 8 n,
  take_of_length-eq 8 (le_bytes 8 n) rest,
  drop_of_length-eq 8 (le_bytes 8 n) rest,
  le_value-le_bytes 8 n,
)

read_column-encode :
    (v : Value) (rest : Bytes)
    → InRange v
    → read_column (le_bytes 4 (length (serialize_value v) % 2 ^ 32) ++ (serialize_value v ++ rest))
      ≡ ok (v, rest)
unfolding read_column
read_column-encode v rest h =
    let blob = serialize_value v in
    let size : length blob % 2 ^ 32 ≡ length blob = omega (arith, length-serialize-lt v h) in
    rw (size, read_u32-append (length blob) (blob ++ rest) (length-serialize-lt v h))
      (ground (
        arith,
        length-append blob rest,
        take_of_length-eq (length blob) blob rest refl,
        drop_of_length-eq (length blob) blob rest refl,
        deserialize-serialize v h,
      ))

read_columns-encode :
    (vs : List Value) (types : List DataType)
    → length types ≡ length vs
    → All InRange vs
    → read_columns (encode vs) types ≡ ok vs
unfolding read_columns encode
read_columns-encode [] [] l h = refl
read_columns-encode [] (t ∷ types) l h = absurd (omega arith)
read_columns-encode (v ∷ vs) [] l h = absurd (omega arith)
read_columns-encode (v ∷ vs) (t ∷ types) l h =
    rw (read_column-encode v (encode vs) h.0, read_columns-encode vs types (omega arith) h.1)

-- A row whose values and ids the C++ types hold is read back from its encoding, values and both
-- transaction ids, under any column types of the right number.
pub deserialize-serialize_tuple :
    (row : Row) (types : List DataType)
    → row.xmin < 2 ^ 64
    → row.xmax < 2 ^ 64
    → All InRange row.values
    → length types ≡ length row.values
    → deserialize_tuple (serialize_tuple row) types ≡ ok row
unfolding serialize_tuple deserialize_tuple
deserialize-serialize_tuple row types min max h l =
    rw (append_columns-encode, append_assoc)
      (rw (read_u64-append row.xmin (le_bytes 8 row.xmax ++ encode row.values) min) (
        rw (read_u64-append row.xmax (encode row.values) max)
          (rw (read_columns-encode row.values types l h))))

measure_columns-eq :
    (size : ℕ) (out : Bytes) (vs : List Value)
    → size ≡ length out
    → measure_columns size vs ≡ length (append_columns out vs)
unfolding measure_columns append_columns append_u32
measure_columns-eq size out [] e = e
measure_columns-eq size out (v ∷ vs) e =
    let blob = serialize_value v in
    let prefix = le_bytes 4 (length blob % 2 ^ 32) in
    measure_columns-eq (size + (4 + length blob)) ((out ++ prefix) ++ blob) vs (
      omega (
        arith,
        length-append (out ++ prefix) blob,
        length-append out prefix,
        length-le_bytes 4 (length blob % 2 ^ 32),
      ))

-- `measure_tuple_size` is the size of the encoding.
pub measure-eq-length : (row : Row) → measure_tuple_size row ≡ length (serialize_tuple row)
unfolding measure_tuple_size serialize_tuple
measure-eq-length row =
    measure_columns-eq 16 (le_bytes 8 row.xmin ++ le_bytes 8 row.xmax) row.values (
      omega (
        arith,
        length-append (le_bytes 8 row.xmin) (le_bytes 8 row.xmax),
        length-le_bytes 8 row.xmin,
        length-le_bytes 8 row.xmax,
      ))

measure_columns-ge : (size : ℕ) (vs : List Value) → size ≤ measure_columns size vs
unfolding measure_columns
measure_columns-ge size [] = omega arith
measure_columns-ge size (v ∷ vs) =
    omega (arith, measure_columns-ge (size + (4 + length (serialize_value v))) vs)

pub measure-ge : (row : Row) → 16 ≤ measure_tuple_size row
unfolding measure_tuple_size
measure-ge row = measure_columns-ge 16 row.values
