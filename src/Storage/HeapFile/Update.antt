-- ===== src/Storage/HeapFile/Update.antt =====
-- `delete_slot` and `update_row` of storage/heap_file.cc.
use custom_sql_database.Prelude.{
  ℕ, ◌+◌, ◌%◌, ◌^◌, ◌≤◌, ◌<◌, ◌≡◌, ◌≢◌, ◌⊎◌, inl, inr, refl, ap, sym, ◌∙◌, Bool, true, false, none,
  some, ◌==◌, ==_iff, ltb, leb, length, take_all, Bytes, arith, All, Bool-cases,
}
use custom_sql_database.Errors.{Result, ok, throw, storage_error}
use custom_sql_database.Types.Codec.{InRange}
use custom_sql_database.Row.{Row}
use custom_sql_database.Storage.Tuple.{serialize_tuple, measure_tuple_size}
use custom_sql_database.Storage.Tuple.RoundTrip.{deserialize-serialize_tuple, measure-eq-length}
use custom_sql_database.Storage.Page.{
  Page, read_tuple, delete_tuple, get_slot_count, slot_at, update_tuple_in_place,
}
use custom_sql_database.Storage.Page.Layout
use custom_sql_database.Storage.Page.Update.{
  delete_tuple-Deletes, Overwrites, refused, stored, update-Overwrites,
}
use custom_sql_database.Storage.Memory.{set_u16}
use custom_sql_database.Storage.HeapFile.{
  HeapFile, ItemPointer, put_page, pin, delete_slot, finish_update, update_row, get_row, cast_bytes,
}
use custom_sql_database.Storage.HeapFile.Rows.{
  IsValid, Exists, bytes_at, Stores, insert_row-Stores, get_row-bytes,
}

-- Two pointers name different slots.
abbrev pub Differs : ItemPointer → ItemPointer → Type 0
Differs q pointer = (q.page_id ≢ pointer.page_id) ⊎ (q.slot ≢ pointer.slot)

-- What replacing one page by a valid one, with the same slots but for one, leaves.
record Keeps (h h' : HeapFile) (pointer : ItemPointer) : Type 0 where
  valid : IsValid h'
  types : h'.column_types ≡ h.column_types
  others :
      (q : ItemPointer)
      → Exists q h
      → Differs q pointer
      → Exists q h' × (bytes_at q h' ≡ bytes_at q h)

-- The page `p'` has the slots of `p`, and reads the same in all but one.
record AgreesBut (slot : ℕ) (p p' : Page) : Type 0 where
  valid : Layout.IsValid p'
  count : get_slot_count p' ≡ get_slot_count p
  same : (i : ℕ) → i < get_slot_count p → i ≢ slot → read_tuple i p' ≡ read_tuple i p

put_page-Keeps :
    (h : HeapFile) (pointer : ItemPointer) (p' : Page)
    → IsValid h
    → AgreesBut pointer.slot (h.pages pointer.page_id) p'
    → Keeps h (put_page pointer.page_id p' h) pointer
unfolding put_page
put_page-Keeps h pointer p' v a = record {
  valid = record {
    pages = λ i here. elim (Bool-cases (i == pointer.page_id)) [
      | inl same ↦ rw same a.valid
      | inr other ↦ rw other (v.pages i here)
    ];
    insert_page = v.insert_page;
  };
  types = refl;
  others = λ q x d. elim (Bool-cases (q.page_id == pointer.page_id)) [
    | inl same ↦
        let at : q.page_id ≡ pointer.page_id = (==_iff q.page_id pointer.page_id).0 same in
        let fits : q.slot < get_slot_count (h.pages pointer.page_id) = rw (← at) x.slot in
        let slot_ne : q.slot ≢ pointer.slot = elim d [
          | inl page_ne ↦ absurd (page_ne at)
          | inr ne ↦ ne
        ] in
        (
          record { page = x.page; slot = rw same (rw a.count fits) },
          rw same (a.same q.slot fits slot_ne ∙ ap (λ k. read_tuple q.slot (h.pages k)) (sym at)),
        )
    | inr other ↦ (record { page = x.page; slot = rw other x.slot }, rw other refl)
  ];
}

delete_tuple-ok :
    (p : Page) (slot : ℕ) → slot < get_slot_count p → (p' : Page) × (delete_tuple slot p ≡ ok p')
unfolding delete_tuple
delete_tuple-ok p slot h =
    let guard : leb (get_slot_count p) slot ≡ false = ground arith in
    (set_u16 (slot_at slot p + 2) 0 (set_u16 (slot_at slot p) 0 p), rw guard refl)

delete_slot-Keeps :
    (h : HeapFile) (pointer : ItemPointer)
    → IsValid h
    → Exists pointer h
    → (h' : HeapFile) × (delete_slot pointer h ≡ ok h')
      × Keeps h h' pointer
      × Exists pointer h'
      × (bytes_at pointer h' ≡ none)
unfolding delete_slot pin put_page
delete_slot-Keeps h pointer v x =
    let p = h.pages pointer.page_id in
    let (p', e) = delete_tuple-ok p pointer.slot x.slot in
    let d = delete_tuple-Deletes p p' pointer.slot (v.pages pointer.page_id x.page) e in
    let here : ltb pointer.page_id h.page_count ≡ true = ground (arith, x.page) in
    let self : (pointer.page_id == pointer.page_id) ≡ true =
      (==_iff pointer.page_id pointer.page_id).1 refl in
    (
      put_page pointer.page_id p' h,
      rw (here, e),
      put_page-Keeps h pointer p' v (record { valid = d.valid; count = d.count; same = d.others }),
      record { page = x.page; slot = rw self (rw d.count x.slot) },
      rw self d.gone,
    )

-- What an update leaves: the row at a pointer, nothing at the old pointer unless it is the same, and
-- every slot but the old one reading the same.
pub record Updates (row : Row) (h h' : HeapFile) (pointer pointer' : ItemPointer) : Type 0 where
  pub valid : IsValid h'
  pub exists : Exists pointer' h'
  pub read_back : get_row pointer' h' ≡ ok row
  pub left : (pointer' ≡ pointer) ⊎ (get_row pointer h' ≡ throw storage_error)
  pub others :
      (q : ItemPointer)
      → Exists q h
      → Differs q pointer
      → Exists q h' × (get_row q h' ≡ get_row q h)

-- The update ended well.
abbrev pub Updated : Row → HeapFile → ItemPointer → Result (HeapFile × ItemPointer) → Type 0
Updated row h pointer r =
    (h' : HeapFile) × (pointer' : ItemPointer) × (r ≡ ok (h', pointer'))
    × Updates row h h' pointer pointer'

get_row-Keeps :
    (h h' : HeapFile) (pointer q : ItemPointer)
    → Keeps h h' pointer
    → Exists q h
    → Differs q pointer
    → Exists q h' × (get_row q h' ≡ get_row q h)
get_row-Keeps h h' pointer q k x d =
    let (x', same) = k.others q x d in
    (x', get_row-bytes q h' x'.page ∙ rw (k.types, same) (sym (get_row-bytes q h x.page)))

cast_bytes-small : (bytes : Bytes) → length bytes < 65536 → cast_bytes bytes ≡ bytes
unfolding cast_bytes
cast_bytes-small bytes h =
    let fits : length bytes % 65536 ≡ length bytes = omega arith in rw fits (take_all bytes)

-- An insertion into a file in which only the slot of the pointer has changed.
Keeps-Updates :
    (row : Row) (h h' h'' : HeapFile) (pointer pointer' : ItemPointer)
    → Keeps h h' pointer
    → Exists pointer h'
    → bytes_at pointer h' ≡ none
    → Stores row h' h'' pointer'
    → Updates row h h'' pointer pointer'
Keeps-Updates row h h' h'' pointer pointer' k old gone s = record {
  valid = s.valid;
  exists = s.exists;
  read_back = s.read_back;
  left = inr ((s.others pointer old).1 ∙ get_row-bytes pointer h' old.page ∙ rw gone refl);
  others = λ q x d.
      let (x', same) = get_row-Keeps h h' pointer q k x d in
      let (x'', same') = s.others q x' in (x'', same' ∙ same);
}

-- A row that a file can store.
record Fits (row : Row) (h : HeapFile) : Type 0 where
  min : row.xmin < 2 ^ 64
  max : row.xmax < 2 ^ 64
  range : All InRange row.values
  columns : length h.column_types ≡ length row.values
  size : measure_tuple_size row + 16 ≤ 8192

refused-Updated :
    (row : Row) (h : HeapFile) (pointer : ItemPointer) (p : Page)
    → IsValid h
    → Exists pointer h
    → Fits row h
    → Updated row h pointer (finish_update pointer row h (p, false))
refused-Updated row h pointer p v x f =
    let (h', e, k, old, gone) = delete_slot-Keeps h pointer v x in
    let (h'', pointer', e', s) =
      insert_row-Stores row h' k.valid f.min f.max f.range (ap length k.types ∙ f.columns) f.size in
    (h'', pointer', rw (e, e'), Keeps-Updates row h h' h'' pointer pointer' k old gone s)

stored-Updated :
    (row : Row) (h : HeapFile) (pointer : ItemPointer) (p' : Page)
    → IsValid h
    → Exists pointer h
    → Fits row h
    → AgreesBut pointer.slot (h.pages pointer.page_id) p'
    → read_tuple pointer.slot p' ≡ some (serialize_tuple row)
    → Updated row h pointer (finish_update pointer row h (p', true))
unfolding put_page
stored-Updated row h pointer p' v x f a e =
    let h' = put_page pointer.page_id p' h in
    let k = put_page-Keeps h pointer p' v a in
    let here : (pointer.page_id == pointer.page_id) ≡ true =
      (==_iff pointer.page_id pointer.page_id).1 refl in
    let at : bytes_at pointer h' ≡ some (serialize_tuple row) = rw here e in
    (
      h',
      pointer,
      refl,
      record {
        valid = k.valid;
        exists = record { page = x.page; slot = rw here (rw a.count x.slot) };
        read_back =
            get_row-bytes pointer h' x.page
            ∙ rw at (deserialize-serialize_tuple row h.column_types f.min f.max f.range f.columns);
        left = inl refl;
        others = λ q y d. get_row-Keeps h h' pointer q k y d;
      },
    )

Overwrites-Updated :
    (row : Row) (h : HeapFile) (pointer : ItemPointer) (r : Page × Bool)
    → IsValid h
    → Exists pointer h
    → Fits row h
    → Overwrites (serialize_tuple row) (h.pages pointer.page_id) pointer.slot r
    → Updated row h pointer (finish_update pointer row h r)
Overwrites-Updated row h pointer _ v x f refused =
    refused-Updated row h pointer (h.pages pointer.page_id) v x f
Overwrites-Updated row h pointer _ v x f (stored p' valid count self rest) =
    stored-Updated row h pointer p' v x f
      (record { valid = valid; count = count; same = λ i here ne. rest i ne }) self

-- Updating an existing slot of a valid heap file with a row that fits an empty page succeeds, in
-- place or by deletion and insertion; the returned pointer reads the row back, the old slot is
-- that of the returned pointer or reads nothing any more, the file stays valid and every other
-- slot reads what it read before.
pub update_row-Updates :
    (row : Row) (h : HeapFile) (pointer : ItemPointer)
    → IsValid h
    → Exists pointer h
    → row.xmin < 2 ^ 64
    → row.xmax < 2 ^ 64
    → All InRange row.values
    → length h.column_types ≡ length row.values
    → measure_tuple_size row + 16 ≤ 8192
    → (h' : HeapFile) × (pointer' : ItemPointer) × (update_row pointer row h ≡ ok (h', pointer'))
      × Updates row h h' pointer pointer'
unfolding update_row pin
update_row-Updates row h pointer v x min max range l small =
    let bytes = serialize_tuple row in
    let size = measure-eq-length row in
    let here : ltb pointer.page_id h.page_count ≡ true = ground (arith, x.page) in
    let over =
      update-Overwrites (h.pages pointer.page_id) pointer.slot bytes
        (v.pages pointer.page_id x.page) in
    rw (here, cast_bytes-small bytes (omega arith))
      (Overwrites-Updated row h pointer
        (update_tuple_in_place pointer.slot bytes (h.pages pointer.page_id)) v x
        (record { min = min; max = max; range = range; columns = l; size = small }) over.0)
