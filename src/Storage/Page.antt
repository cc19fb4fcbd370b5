-- ===== src/Storage/Page.antt =====
-- `Page` of storage/page.{h,cc}: a header of 12 bytes, tuples growing up from it, and the slot
-- directory growing down from the end of the page. The tests for null pointers, which throw, are left
-- out: a tuple is a list of bytes here.
pub mod Layout
pub mod Insert
pub mod Update
pub mod Initialize
use custom_sql_database.Prelude.{
  ℕ, zero, suc, ◌+◌, ◌-◌, ◌*◌, ◌/◌, ◌%◌, ◌<◌, Bool, true, false, not, ◌&&◌, ◌||◌, Option, none,
  some, arith, Bytes, length, ltb, leb, ◌==◌, if◌then◌else◌,
}
use custom_sql_database.Errors.{Result, ok, throw, storage_error}
use custom_sql_database.Storage.Memory.{Memory, write_at, read_at, get_u16, set_u16}

abbrev pub page_size : ℕ
page_size = 8192

abbrev pub header_size : ℕ
header_size = 12

abbrev pub slot_size : ℕ
slot_size = 4

abbrev pub Page : Type 0
Page = Memory

-- The fields of `PageHeader` behind the page id.
unfoldable pub get_slot_count : Page → ℕ
get_slot_count p = get_u16 4 p

unfoldable pub lower : Page → ℕ
lower p = get_u16 6 p

unfoldable pub upper : Page → ℕ
upper p = get_u16 8 p

-- The page id is 0..3; `flags` is 10..11.
unfoldable pub initialize : ℕ → Page → Page
initialize page_id p = set_u16 10 0 (
    set_u16 8 page_size (
      set_u16 6 header_size
        (set_u16 4 0 (set_u16 2 (page_id / 65536) (set_u16 0 (page_id % 65536) (λ i. 0))))))

unfoldable pub get_free_space : Page → ℕ
unfolding lower upper
get_free_space p = if ltb (upper p) (lower p) then 0 else upper p - lower p

-- The address of a slot entry: its offset field, with its length field two bytes behind.
unfoldable pub slot_at : ℕ → Page → ℕ
unfolding upper get_slot_count
slot_at index p = upper p + (get_slot_count p - 1 - index) * slot_size

unfoldable pub slot_offset : ℕ → Page → ℕ
unfolding slot_at
slot_offset index p = get_u16 (slot_at index p) p

unfoldable pub slot_length : ℕ → Page → ℕ
unfolding slot_at
slot_length index p = get_u16 (slot_at index p + 2) p

unfoldable pub is_slot_live : ℕ → Page → Bool
unfolding slot_offset slot_length
is_slot_live slot p =
    if leb (get_slot_count p) slot
    then false
    else not (slot_offset slot p == 0) && not (slot_length slot p == 0)

-- The writes of `insertTuple`: the payload, `lower`, `upper`, the slot entry and the slot count.
unfoldable pub inserted : Bytes → Page → Page
unfolding lower upper get_slot_count
inserted tuple p =
    let offset = lower p in
    let upper' = (upper p + 65536 - slot_size) % 65536 in
    set_u16 4 ((get_slot_count p + 1) % 65536) (
      set_u16 (upper' + 2) (length tuple) (
        set_u16 upper' offset (
          set_u16 8 upper'
            (set_u16 6 ((lower p + length tuple) % 65536) (write_at offset tuple p)))))

-- The new page and the slot index.
unfoldable pub insert_tuple : Bytes → Page → Result (Page × ℕ)
unfolding get_free_space inserted
insert_tuple tuple p =
    if ltb (get_free_space p) (length tuple + slot_size)
    then throw storage_error
    else ok (inserted tuple p, get_slot_count p)

unfoldable pub read_tuple : ℕ → Page → Option Bytes
unfolding is_slot_live
read_tuple slot p =
    if is_slot_live slot p then some (read_at (slot_offset slot p) (slot_length slot p) p) else none

unfoldable pub delete_tuple : ℕ → Page → Result Page
unfolding slot_at
delete_tuple slot p =
    if leb (get_slot_count p) slot
    then throw storage_error
    else ok (set_u16 (slot_at slot p + 2) 0 (set_u16 (slot_at slot p) 0 p))

-- The new page, and whether the tuple was overwritten.
unfoldable pub update_tuple_in_place : ℕ → Bytes → Page → Page × Bool
unfolding is_slot_live
update_tuple_in_place slot tuple p =
    if not (is_slot_live slot p)
    then (p, false)
    else if not (slot_length slot p == length tuple)
    then (p, false)
    else (write_at (slot_offset slot p) tuple p, true)
