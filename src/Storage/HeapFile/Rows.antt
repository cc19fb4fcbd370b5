-- ===== src/Storage/HeapFile/Rows.antt =====
-- What the operations of storage/heap_file.cc do to the rows of the file.
use custom_sql_database.Prelude.{
  ℕ, ◌+◌, ◌^◌, ◌≤◌, ◌<◌, ◌≡◌, inl, inr, refl, ap, sym, ◌∙◌, Bool, true, false, Option, some, ◌==◌,
  ==_iff, ltb, length, if◌then◌else◌, Bytes, arith, All, Bool-cases,
}
use custom_sql_database.Errors.{Result, ok, throw, storage_error}
use custom_sql_database.Types.Codec.{InRange}
use custom_sql_database.Row.{Row}
use custom_sql_database.Storage.Tuple.{serialize_tuple, measure_tuple_size}
use custom_sql_database.Storage.Tuple.RoundTrip.{
  deserialize-serialize_tuple, measure-eq-length, measure-ge,
}
use custom_sql_database.Storage.Page.{
  Page, insert_tuple, inserted, read_tuple, get_slot_count, get_free_space,
}
use custom_sql_database.Storage.Page.Insert.{insert_tuple-Inserts}
use custom_sql_database.Storage.Page.Initialize.{initialize-IsValid}
use custom_sql_database.Storage.Page.Layout
use custom_sql_database.Storage.HeapFile.{
  HeapFile, ItemPointer, put_page, pin, allocate_and_init_page, insert_into_page, use_new_page,
  ensure_initialized, or_new_page, insert_bytes, insert_row, decode, get_row,
}

pub record IsValid (h : HeapFile) : Type 0 where
  pub pages : (id : ℕ) → id < h.page_count → Layout.IsValid (h.pages id)
  pub insert_page : h.has_insert_page ≡ true → h.insert_page_id < h.page_count

-- The bytes that a pointer reads.
abbrev pub bytes_at : ItemPointer → HeapFile → Option Bytes
bytes_at pointer h = read_tuple pointer.slot (h.pages pointer.page_id)

-- The pointer names a slot of the file.
pub record Exists (pointer : ItemPointer) (h : HeapFile) : Type 0 where
  pub page : pointer.page_id < h.page_count
  pub slot : pointer.slot < get_slot_count (h.pages pointer.page_id)

-- The file `h'` has the bytes at the pointer, and what `h` has elsewhere.
pub record Adds (bytes : Bytes) (h h' : HeapFile) (pointer : ItemPointer) : Type 0 where
  pub valid : IsValid h'
  pub exists : Exists pointer h'
  pub stored : bytes_at pointer h' ≡ some bytes
  pub types : h'.column_types ≡ h.column_types
  pub others : (q : ItemPointer) → Exists q h → Exists q h' × (bytes_at q h' ≡ bytes_at q h)

insert_into_page-Adds :
    (id : ℕ) (bytes : Bytes) (h : HeapFile) (p' : Page) (slot : ℕ)
    → IsValid h
    → 0 < length bytes
    → id < h.page_count
    → insert_tuple bytes (h.pages id) ≡ ok (p', slot)
    → Adds bytes h (put_page id p' h) (record { page_id = id; slot = slot })
unfolding put_page
insert_into_page-Adds id bytes h p' slot v pos' present e =
    let ins = insert_tuple-Inserts (h.pages id) bytes p' slot (v.pages id present) e in
    record {
      valid = record {
        pages = λ i here. elim (Bool-cases (i == id)) [
          | inl same ↦ rw same ins.valid
          | inr other ↦ rw other (v.pages i here)
        ];
        insert_page = v.insert_page;
      };
      exists = record { page = present; slot = ground (arith, ins.next, ins.count, ==_iff id id) };
      stored = ground (arith, ins.stored, ==_iff id id);
      types = refl;
      others = λ q x. elim (Bool-cases (q.page_id == id)) [
        | inl same ↦
            let at : q.page_id ≡ id = (==_iff q.page_id id).0 same in
            let fits : q.slot < get_slot_count (h.pages id) = rw (← at) x.slot in
            (
              record { page = x.page; slot = rw same (omega (arith, ins.count)) },
              rw same (ins.others q.slot fits ∙ ap (λ k. read_tuple q.slot (h.pages k)) (sym at)),
            )
        | inr other ↦ (record { page = x.page; slot = rw other x.slot }, rw other refl)
      ];
    }

-- A file after a new page has been added for insertions.
record Extends (h h' : HeapFile) : Type 0 where
  valid : IsValid h'
  ready : h'.has_insert_page ≡ true
  types : h'.column_types ≡ h.column_types
  others : (q : ItemPointer) → Exists q h → Exists q h' × (bytes_at q h' ≡ bytes_at q h)

use_new_page-Extends : (h : HeapFile) → IsValid h → Extends h (use_new_page h)
unfolding allocate_and_init_page put_page
use_new_page-Extends h v = record {
  valid = record {
    pages = λ i here. elim (Bool-cases (i == h.page_count)) [
      | inl new ↦ rw new (initialize-IsValid h.page_count (λ k. 0)).0
      | inr old ↦ rw old (v.pages i (ground arith))
    ];
    insert_page = λ t. omega arith;
  };
  ready = refl;
  types = refl;
  others = λ q x.
      let old : (q.page_id == h.page_count) ≡ false = ground (arith, x.page) in
      (record { page = omega (arith, x.page); slot = rw old x.slot }, rw old refl);
}

-- The new page is the page for insertions, and is empty.
new_page_room :
    (h : HeapFile) → get_free_space ((use_new_page h).pages (use_new_page h).insert_page_id) ≡ 8180
unfolding allocate_and_init_page put_page
new_page_room h =
    let same : (h.page_count == h.page_count) ≡ true = (==_iff h.page_count h.page_count).1 refl in
    rw same (initialize-IsValid h.page_count (λ k. 0)).2

Adds-Extends :
    {bytes : Bytes} {h h' h'' : HeapFile} {pointer : ItemPointer}
    → Extends h h'
    → Adds bytes h' h'' pointer
    → Adds bytes h h'' pointer
Adds-Extends x a = record {
  valid = a.valid;
  exists = a.exists;
  stored = a.stored;
  types = a.types ∙ x.types;
  others = λ q e.
      let (e', same) = x.others q e in let (e'', same') = a.others q e' in (e'', same' ∙ same);
}

-- An insertion ended well: in a file that adds the bytes.
abbrev pub Added : Bytes → HeapFile → Result (HeapFile × ItemPointer) → Type 0
Added bytes h r =
    (h' : HeapFile) × (pointer : ItemPointer) × (r ≡ ok (h', pointer)) × Adds bytes h h' pointer

insert_tuple-ok :
    (p : Page) (bytes : Bytes)
    → length bytes + 4 ≤ get_free_space p
    → insert_tuple bytes p ≡ ok (inserted bytes p, get_slot_count p)
unfolding insert_tuple
insert_tuple-ok p bytes h = ground arith

insert_tuple-full :
    (p : Page) (bytes : Bytes)
    → get_free_space p < length bytes + 4
    → insert_tuple bytes p ≡ throw storage_error
unfolding insert_tuple
insert_tuple-full p bytes h = ground arith

insert_into_page-Added :
    (id : ℕ) (bytes : Bytes) (h : HeapFile)
    → IsValid h
    → 0 < length bytes
    → id < h.page_count
    → length bytes + 4 ≤ get_free_space (h.pages id)
    → Added bytes h (insert_into_page id bytes h)
unfolding insert_into_page pin
insert_into_page-Added id bytes h v some' present fits =
    let e = insert_tuple-ok (h.pages id) bytes fits in
    let here : ltb id h.page_count ≡ true = ground arith in
    (
      put_page id (inserted bytes (h.pages id)) h,
      record { page_id = id; slot = get_slot_count (h.pages id) },
      rw (here, e),
      insert_into_page-Adds id bytes h (inserted bytes (h.pages id)) (get_slot_count (h.pages id)) v
          some' present e,
    )

insert_into_page-full :
    (id : ℕ) (bytes : Bytes) (h : HeapFile)
    → id < h.page_count
    → get_free_space (h.pages id) < length bytes + 4
    → insert_into_page id bytes h ≡ throw storage_error
unfolding insert_into_page pin
insert_into_page-full id bytes h present full =
    let here : ltb id h.page_count ≡ true = ground arith in
    rw (here, insert_tuple-full (h.pages id) bytes full)

insert_new-Added :
    (bytes : Bytes) (h : HeapFile)
    → IsValid h
    → 0 < length bytes
    → length bytes + 16 ≤ 8192
    → Added bytes h (or_new_page bytes h (throw storage_error))
insert_new-Added bytes h v some' small =
    let x = use_new_page-Extends h v in
    let h' = use_new_page h in
    let (h'', pointer, e, a) =
      insert_into_page-Added h'.insert_page_id bytes h' x.valid some' (x.valid.insert_page x.ready)
        (omega (arith, new_page_room h)) in
    (h'', pointer, e, Adds-Extends x a)

insert_bytes-Added :
    (bytes : Bytes) (h : HeapFile)
    → IsValid h
    → h.has_insert_page ≡ true
    → 0 < length bytes
    → length bytes + 16 ≤ 8192
    → Added bytes h (insert_bytes bytes h)
unfolding insert_bytes
insert_bytes-Added bytes h v ready some' small =
    let room = get_free_space (h.pages h.insert_page_id) in
    let present = v.insert_page ready in
    elim (Bool-cases (ltb room (length bytes + 4))) [
      | inl full ↦
          rw (insert_into_page-full h.insert_page_id bytes h present (ground arith))
            (insert_new-Added bytes h v some' small)
      | inr fits ↦
          let (h', pointer, e, a) =
            insert_into_page-Added h.insert_page_id bytes h v some' present (ground arith) in
          rw e (h', pointer, refl, a)
    ]

if-Extends :
    (b : Bool) (h : HeapFile)
    → (b ≡ true → Extends h h)
    → Extends h (use_new_page h)
    → Extends h (if b then h else use_new_page h)
if-Extends true h keep new = keep refl
if-Extends false h keep new = new

ensure-Extends : (h : HeapFile) → IsValid h → Extends h (ensure_initialized h)
unfolding ensure_initialized
ensure-Extends h v =
    if-Extends h.has_insert_page h
      (λ old. record { valid = v; ready = old; types = refl; others = λ q x. (x, refl) })
      (use_new_page-Extends h v)

pub insert_row-Added :
    (row : Row) (h : HeapFile)
    → IsValid h
    → 0 < length (serialize_tuple row)
    → length (serialize_tuple row) + 16 ≤ 8192
    → Added (serialize_tuple row) h (insert_row row h)
unfolding insert_row
insert_row-Added row h v some' small =
    let bytes = serialize_tuple row in
    let x = ensure-Extends h v in
    let guard : ltb 8192 (length bytes + 4 + 12) ≡ false = ground arith in
    let (h', pointer, e, a) =
      insert_bytes-Added bytes (ensure_initialized h) x.valid x.ready some' small in
    rw guard (h', pointer, e, Adds-Extends x a)

pub get_row-bytes :
    (q : ItemPointer) (h : HeapFile)
    → q.page_id < h.page_count
    → get_row q h ≡ decode h.column_types (bytes_at q h)
unfolding get_row pin
get_row-bytes q h present = let here : ltb q.page_id h.page_count ≡ true = ground arith in rw here

-- What the file `h'` is after a row was stored at the pointer.
pub record Stores (row : Row) (h h' : HeapFile) (pointer : ItemPointer) : Type 0 where
  pub valid : IsValid h'
  pub exists : Exists pointer h'
  pub read_back : get_row pointer h' ≡ ok row
  pub others : (q : ItemPointer) → Exists q h → Exists q h' × (get_row q h' ≡ get_row q h)

pub Adds-Stores :
    {h h' : HeapFile} {pointer : ItemPointer} (row : Row)
    → row.xmin < 2 ^ 64
    → row.xmax < 2 ^ 64
    → All InRange row.values
    → length h.column_types ≡ length row.values
    → Adds (serialize_tuple row) h h' pointer
    → Stores row h h' pointer
Adds-Stores {h} {h'} {pointer} row min max range l a = record {
  valid = a.valid;
  exists = a.exists;
  read_back =
      get_row-bytes pointer h' a.exists.page
      ∙ rw (a.types, a.stored) (deserialize-serialize_tuple row h.column_types min max range l);
  others = λ q x.
      let (x', same) = a.others q x in
      (x', get_row-bytes q h' x'.page ∙ rw (a.types, same) (sym (get_row-bytes q h x.page)));
}

-- Inserting a row that fits an empty page into a valid heap file succeeds, on the current page or
-- on a new one; the pointer reads the row back, the file stays valid and every existing slot
-- reads what it read before.
pub insert_row-Stores :
    (row : Row) (h : HeapFile)
    → IsValid h
    → row.xmin < 2 ^ 64
    → row.xmax < 2 ^ 64
    → All InRange row.values
    → length h.column_types ≡ length row.values
    → measure_tuple_size row + 16 ≤ 8192
    → (h' : HeapFile) × (pointer : ItemPointer) × (insert_row row h ≡ ok (h', pointer))
      × Stores row h h' pointer
insert_row-Stores row h v min max range l small =
    let size = measure-eq-length row in
    let (h', pointer, e, a) =
      insert_row-Added row h v (omega (arith, measure-ge row)) (omega arith) in
    (h', pointer, e, Adds-Stores row min max range l a)
