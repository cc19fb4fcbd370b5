-- ===== src/Storage/HeapFile.antt =====
-- `HeapFile` of storage/heap_file.{h,cc}, over the pages of its store. The buffer pool is
-- transparent here: a page that is pinned is the page that was last written.
pub mod Rows
pub mod Update
use custom_sql_database.Prelude.{
  ℕ, suc, ◌+◌, ◌-◌, ◌%◌, ◌^◌, ◌≡◌, Bool, true, false, not, Option, none, some, List, [], ◌∷◌, ◌==◌,
  ltb, leb, length, take, if◌then◌else◌, Bytes, arith,
}
use custom_sql_database.Errors.{Result, ok, throw, storage_error, ◌>>=◌}
use custom_sql_database.Types.Value.{DataType}
use custom_sql_database.Row.{Row}
use custom_sql_database.Storage.Memory.{Memory}
use custom_sql_database.Storage.Tuple.{serialize_tuple, deserialize_tuple}
use custom_sql_database.Storage.Page.{
  Page, initialize, insert_tuple, read_tuple, delete_tuple, update_tuple_in_place, is_slot_live,
  get_slot_count,
}

pub record ItemPointer : Type 0 where
  pub page_id : ℕ
  pub slot : ℕ

pub record HeapFile : Type 0 where
  pub pages : ℕ → Page
  pub page_count : ℕ
  pub insert_page_id : ℕ
  pub has_insert_page : Bool
  pub column_types : List DataType

-- Page `id` becomes `p`.
unfoldable pub put_page : ℕ → Page → HeapFile → HeapFile
put_page id p h = record h { pages = λ i. if i == id then p else h.pages i }

-- A pin of a page that the store does not have fails.
unfoldable pub pin : ℕ → HeapFile → Result Page
pin id h = if ltb id h.page_count then ok (h.pages id) else throw storage_error

-- The new page goes behind the others.
unfoldable pub allocate_and_init_page : HeapFile → HeapFile × ℕ
allocate_and_init_page h =
    let id = h.page_count in
    (record (put_page id (initialize id (λ i. 0)) h) { page_count = h.page_count + 1 }, id)

unfoldable pub insert_into_page : ℕ → Bytes → HeapFile → Result (HeapFile × ItemPointer)
insert_into_page id bytes h = do
  p ← pin id h
  (p', slot) ← insert_tuple bytes p
  ok (put_page id p' h, record { page_id = id; slot = slot })

abbrev use_new_page : HeapFile → HeapFile
use_new_page h =
    let (h', id) = allocate_and_init_page h in
    record h' { insert_page_id = id; has_insert_page = true }

unfoldable pub ensure_initialized : HeapFile → HeapFile
ensure_initialized h = if h.has_insert_page then h else use_new_page h

-- catch (const StorageException &): a new page takes the tuple.
abbrev or_new_page :
    Bytes → HeapFile → Result (HeapFile × ItemPointer) → Result (HeapFile × ItemPointer)
or_new_page bytes h (ok r) = ok r
or_new_page bytes h (throw storage_error) =
    let h' = use_new_page h in insert_into_page h'.insert_page_id bytes h'
or_new_page bytes h (throw e) = throw e

unfoldable pub insert_bytes : Bytes → HeapFile → Result (HeapFile × ItemPointer)
insert_bytes bytes h = or_new_page bytes h (insert_into_page h.insert_page_id bytes h)

unfoldable pub insert_row : Row → HeapFile → Result (HeapFile × ItemPointer)
insert_row row h =
    let bytes = serialize_tuple row in
    if ltb 8192 (length bytes + 4 + 12)
    then throw storage_error
    else insert_bytes bytes (ensure_initialized h)

abbrev decode : List DataType → Option Bytes → Result Row
decode types none = throw storage_error
decode types (some bytes) = deserialize_tuple bytes types

unfoldable pub get_row : ItemPointer → HeapFile → Result Row
get_row pointer h = do p ← pin pointer.page_id h; decode h.column_types (read_tuple pointer.slot p)

unfoldable pub delete_slot : ItemPointer → HeapFile → Result HeapFile
delete_slot pointer h = do
  p ← pin pointer.page_id h
  p' ← delete_tuple pointer.slot p
  ok (put_page pointer.page_id p' h)

abbrev pub finish_update :
    ItemPointer → Row → HeapFile → Page × Bool → Result (HeapFile × ItemPointer)
finish_update pointer row h (p', true) = ok (put_page pointer.page_id p' h, pointer)
finish_update pointer row h (p', false) = do h' ← delete_slot pointer h; insert_row row h'

-- static_cast<uint16_t>(bytes.size()): the page sees no more than that of the bytes.
unfoldable pub cast_bytes : Bytes → Bytes
cast_bytes bytes = take (length bytes % 2 ^ 16) bytes

unfoldable pub update_row : ItemPointer → Row → HeapFile → Result (HeapFile × ItemPointer)
update_row pointer row h = do
  p ← pin pointer.page_id h
  finish_update pointer row h
      (update_tuple_in_place pointer.slot (cast_bytes (serialize_tuple row)) p)
