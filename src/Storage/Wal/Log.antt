-- ===== src/Storage/Wal/Log.antt =====
-- The operations of storage/wal_manager.cc: a record is its type, the length of its payload in 4 bytes,
-- and the payload.
use custom_sql_database.Prelude.{
  ℕ, zero, suc, ◌+◌, ◌%◌, ◌^◌, Bool, true, false, not, ◌&&◌, Option, none, some, List, [], ◌∷◌,
  ◌++◌, Bytes, bytes_eq, ◌==◌, leb, ltb, length, take, drop, if◌then◌else◌, insert,
}
use custom_sql_database.Types.Bytes.{le_bytes, le_value}

-- WalManager::RecordType
pub data RecordType : Type 0 where
  table_blob commit done : RecordType

abbrev pub type_val : RecordType → ℕ
type_val table_blob = 1
type_val commit = 2
type_val done = 3

abbrev pub Log : Type 0
Log = Option Bytes

-- A file that is missing is created.
abbrev pub log_bytes : Log → Bytes
log_bytes none = []
log_bytes (some bytes) = bytes

unfoldable pub record_bytes : RecordType → Bytes → Bytes
unfolding le_bytes
record_bytes type payload = type_val type ∷ le_bytes 4 (length payload % 2 ^ 32) ++ payload

unfoldable pub append_record : RecordType → Bytes → Log → Log
unfolding record_bytes
append_record type payload log = some (log_bytes log ++ record_bytes type payload)

unfoldable pub blob_payload : Bytes → Bytes → Bytes
unfolding le_bytes
blob_payload table_name blob = le_bytes 2 (length table_name % 2 ^ 16) ++ table_name ++ blob

unfoldable pub append_table_blob : Bytes → Bytes → Log → Log
unfolding append_record blob_payload
append_table_blob table_name blob log = append_record table_blob (blob_payload table_name blob) log

unfoldable pub append_commit : ℕ → Log → Log
unfolding append_record le_bytes
append_commit txn_id log = append_record commit (le_bytes 8 txn_id) log

unfoldable pub append_done : Log → Log
unfolding append_record
append_done log = append_record done [] log

abbrev pub truncate : Log → Log
truncate log = none

-- The variables of `recover`: `pending` holds table names and their files.
pub record Recovery : Type 0 where
  pub pending : List (Bytes × Bytes)
  pub saw_commit : Bool
  pub saw_done : Bool

abbrev pub start : Recovery
start = record { pending = []; saw_commit = false; saw_done = false }

-- A TableBlob record; one that is too short is passed over.
abbrev pub add_blob : Bytes → Recovery → Recovery
add_blob payload st =
    let name_len = le_value (take 2 payload) in
    if ltb (length payload) 2
    then st
    else if ltb (length payload) (2 + name_len)
    then st
    else record {
      pending = st.pending ++ (take name_len (drop 2 payload), drop name_len (drop 2 payload)) ∷ [];
      saw_commit = st.saw_commit;
      saw_done = st.saw_done;
    }

unfoldable pub apply_record : ℕ → Bytes → Recovery → Recovery
unfolding le_value
apply_record type payload st =
    if type == 1
    then add_blob payload st
    else if type == 2
    then record { pending = st.pending; saw_commit = true; saw_done = st.saw_done }
    else if type == 3
    then record { pending = []; saw_commit = false; saw_done = true }
    else st

-- The loop of `recover`: a read that is cut short ends it. Every record takes 5 bytes at least, so
-- the length of the file is enough fuel.
unfoldable pub read_records : ℕ → Bytes → Recovery → Recovery
unfolding apply_record
read_records zero bytes st = st
read_records (suc fuel) [] st = st
read_records (suc fuel) (type ∷ bytes) st =
    let size = le_value (take 4 bytes) in
    let payload = take size (drop 4 bytes) in
    let rest = read_records fuel (drop size (drop 4 bytes)) (apply_record type payload st) in
    if ltb (length bytes) 4 then st else if leb size (length (drop 4 bytes)) then rest else st

-- The .db files behind the writes of the pending blobs, in order.
unfoldable pub restore : List (Bytes × Bytes) → List (Bytes × Bytes) → List (Bytes × Bytes)
restore [] files = files
restore ((name, blob) ∷ pending) files = restore pending (insert name blob files)

abbrev pub restored : Recovery → List (Bytes × Bytes) → List (Bytes × Bytes)
restored st files = if st.saw_commit && not st.saw_done then restore st.pending files else files

-- The log and the files behind the call.
unfoldable pub recover : Log → List (Bytes × Bytes) → Log × List (Bytes × Bytes)
unfolding read_records restore
recover none files = (none, files)
recover (some bytes) files =
    (truncate (some bytes), restored (read_records (length bytes) bytes start) files)
