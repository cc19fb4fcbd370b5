-- ===== src/Storage/Wal/Read.antt =====
-- What the loop of `recover` reads (storage/wal_manager.cc): whole records, and a torn one.
use custom_sql_database.Prelude.{
  ℕ, zero, suc, ◌+◌, ◌%◌, ◌^◌, ◌<◌, ◌≡◌, refl, [], ◌∷◌, ◌++◌, Bytes, arith, length, length-append,
  length-take, take, take-append, drop-append,
}
use custom_sql_database.Types.Bytes.{le_bytes, le_value, le_value-le_bytes}
use custom_sql_database.Storage.Wal.Log.{
  RecordType, type_val, record_bytes, blob_payload, Recovery, add_blob, apply_record, read_records,
}

pub length-record_bytes :
    (type : RecordType) (payload : Bytes) → length (record_bytes type payload) ≡ 5 + length payload
unfolding record_bytes le_bytes
length-record_bytes type payload = omega arith

-- A whole record is applied, and the loop goes on behind it.
pub read_records-record :
    (fuel : ℕ) (type : RecordType) (payload rest : Bytes) (st : Recovery)
    → length payload < 2 ^ 32
    → read_records (suc fuel) (record_bytes type payload ++ rest) st
      ≡ read_records fuel rest (apply_record (type_val type) payload st)
unfolding read_records record_bytes le_bytes
read_records-record fuel type payload rest st small =
    let size : length payload % 2 ^ 32 ≡ length payload = omega arith in
    let value = le_value-le_bytes 4 (length payload) small in
    rw (size, value, take-append payload rest, drop-append payload rest)
      (ground (arith, length-append payload rest))

-- A record that is cut short is not applied.
pub read_records-torn :
    (fuel n : ℕ) (type : RecordType) (payload : Bytes) (st : Recovery)
    → length payload < 2 ^ 32
    → n < length (record_bytes type payload)
    → read_records fuel (take n (record_bytes type payload)) st ≡ st
unfolding read_records record_bytes le_bytes
read_records-torn zero n type payload st small short = refl
read_records-torn (suc fuel) zero type payload st small short = refl
read_records-torn (suc fuel) (suc zero) type payload st small short = refl
read_records-torn (suc fuel) (suc (suc zero)) type payload st small short = refl
read_records-torn (suc fuel) (suc (suc (suc zero))) type payload st small short = refl
read_records-torn (suc fuel) (suc (suc (suc (suc zero)))) type payload st small short = refl
read_records-torn (suc fuel) (suc (suc (suc (suc (suc n))))) type payload st small short =
    let size : length payload % 2 ^ 32 ≡ length payload = omega arith in
    let value = le_value-le_bytes 4 (length payload) small in
    rw (size, value) (ground (arith, length-take n payload, short))

-- The payload of a table is read back.
pub add_blob-blob_payload :
    (name blob : Bytes) (st : Recovery)
    → length name < 2 ^ 16
    → add_blob (blob_payload name blob) st ≡ record {
      pending = st.pending ++ (name, blob) ∷ [];
      saw_commit = st.saw_commit;
      saw_done = st.saw_done;
    }
unfolding blob_payload le_bytes le_value
add_blob-blob_payload name blob st small =
    let size : length name % 2 ^ 16 ≡ length name = omega arith in
    let value = le_value-le_bytes 2 (length name) small in
    rw (size, value, take-append name blob, drop-append name blob)
      (ground (arith, length-append name blob))
