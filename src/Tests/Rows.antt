-- ===== src/Tests/Rows.antt =====
-- Values, pages and heap files on small inputs.
use custom_sql_database.Prelude.{
  ◌+◌, ◌≡◌, ◌↔◌, refl, true, false, List, [], ◌∷◌, ◌++◌, Bytes, arith,
}
use custom_sql_database.Errors.{ok, throw, overrun}
use custom_sql_database.Types.Value.{DataType, int_type, string_type, int, string}
use custom_sql_database.Types.Bytes.{le_bytes}
use custom_sql_database.Types.Codec.{
  serialize_value, deserialize_value, deserialize-serialize, deserialize_wraps,
}
use custom_sql_database.Row.{Row}
use custom_sql_database.Storage.Tuple.{serialize_tuple, deserialize_tuple, measure_tuple_size}
use custom_sql_database.Storage.Tuple.RoundTrip.{deserialize-serialize_tuple}
use custom_sql_database.Storage.Memory.{get_u16, set_u16}
use custom_sql_database.Storage.Page.{
  Page, initialize, insert_tuple, inserted, delete_tuple, slot_at, slot_length, get_slot_count,
  get_free_space, update_tuple_in_place, is_slot_live,
}
use custom_sql_database.Storage.Page.Layout
use custom_sql_database.Storage.Page.Initialize.{initialize-IsValid}
use custom_sql_database.Storage.Page.Insert.{Inserts, insert_tuple-Inserts}
use custom_sql_database.Storage.Page.Update.{
  Deletes, delete_tuple-Deletes, Overwrites, update-Overwrites,
}
use custom_sql_database.Storage.HeapFile.{HeapFile, ItemPointer, insert_row, update_row}
use custom_sql_database.Storage.HeapFile.Rows.{Stores, insert_row-Stores}
use custom_sql_database.Storage.HeapFile.Update.{Updates, update_row-Updates}

abbrev text : Bytes
text = b'a' ∷ b'b' ∷ []

deserialize-serialize_example : deserialize_value (serialize_value (string text)) ≡ ok (string text)
deserialize-serialize_example = deserialize-serialize (string text) (omega arith)

deserialize_wraps_example : deserialize_value (0x02 ∷ le_bytes 4 4294967295 ++ text) ≡ throw overrun
deserialize_wraps_example =
    deserialize_wraps 4294967295 text (omega arith) (omega arith) (omega arith)

abbrev row : Row
row = record { values = int 7 ∷ string text ∷ []; xmin = 3; xmax = 0 }

abbrev types : List DataType
types = int_type ∷ string_type ∷ []

deserialize-serialize_tuple_example : deserialize_tuple (serialize_tuple row) types ≡ ok row
deserialize-serialize_tuple_example =
    deserialize-serialize_tuple row types (omega arith) (omega arith)
      (omega arith, (omega arith, tt)) refl

-- An empty page, and the page with one tuple.
abbrev empty : Page
empty = initialize 0 (λ i. 0)

abbrev filled : Page
filled = inserted text empty

initialize-IsValid_example :
    Layout.IsValid (initialize 0 (λ i. 0))
    × (get_slot_count (initialize 0 (λ i. 0)) ≡ 0)
    × (get_free_space (initialize 0 (λ i. 0)) ≡ 8180)
initialize-IsValid_example = initialize-IsValid 0 (λ i. 0)

insert_tuple-Inserts_example : Inserts text empty filled 0
unfolding insert_tuple get_free_space get_slot_count initialize get_u16 set_u16
insert_tuple-Inserts_example =
    insert_tuple-Inserts empty text filled 0 (initialize-IsValid 0 (λ i. 0)).0 refl

filled-Inserts : Inserts text empty filled 0
unfolding insert_tuple get_free_space get_slot_count initialize get_u16 set_u16
filled-Inserts = insert_tuple-Inserts empty text filled 0 (initialize-IsValid 0 (λ i. 0)).0 refl

filled-IsValid : Layout.IsValid filled
filled-IsValid = filled-Inserts.valid

delete_tuple-Deletes_example :
    Deletes filled (set_u16 (slot_at 0 filled + 2) 0 (set_u16 (slot_at 0 filled) 0 filled)) 0
unfolding delete_tuple inserted get_slot_count initialize get_u16 set_u16
delete_tuple-Deletes_example =
    delete_tuple-Deletes filled
      (set_u16 (slot_at 0 filled + 2) 0 (set_u16 (slot_at 0 filled) 0 filled)) 0 filled-IsValid refl

update-Overwrites_example :
    Overwrites (b'c' ∷ b'd' ∷ []) filled 0 (update_tuple_in_place 0 (b'c' ∷ b'd' ∷ []) filled)
    × (((update_tuple_in_place 0 (b'c' ∷ b'd' ∷ []) filled).1 ≡ true)
        ↔ ((is_slot_live 0 filled ≡ true) × (slot_length 0 filled ≡ 2)))
update-Overwrites_example = update-Overwrites filled 0 (b'c' ∷ b'd' ∷ []) filled-IsValid

-- A file without pages, and one with a page that has one tuple.
abbrev new_file : HeapFile
new_file = record {
  pages = λ i j. 0;
  page_count = 0;
  insert_page_id = 0;
  has_insert_page = false;
  column_types = types;
}

abbrev file : HeapFile
file = record {
  pages = λ i. filled;
  page_count = 1;
  insert_page_id = 0;
  has_insert_page = true;
  column_types = types;
}

abbrev pointer : ItemPointer
pointer = record { page_id = 0; slot = 0 }

insert_row-Stores_example :
    (h' : HeapFile) × (p : ItemPointer) × (insert_row row new_file ≡ ok (h', p))
    × Stores row new_file h' p
unfolding measure_tuple_size serialize_value le_bytes
insert_row-Stores_example =
    insert_row-Stores row new_file
      (record {
        pages = λ id h. absurd (omega (arith, h));
        insert_page = λ h. absurd (ground (arith, h));
      })
      (omega arith) (omega arith) (omega arith, (omega arith, tt)) refl (omega arith)

update_row-Updates_example :
    (h' : HeapFile) × (p : ItemPointer) × (update_row pointer row file ≡ ok (h', p))
    × Updates row file h' pointer p
unfolding measure_tuple_size serialize_value le_bytes
update_row-Updates_example =
    update_row-Updates row file pointer
      (record { pages = λ id h. filled-IsValid; insert_page = λ h. omega arith })
      (record {
        page = omega arith;
        slot = omega (arith, filled-Inserts.count, (initialize-IsValid 0 (λ i. 0)).1);
      })
      (omega arith) (omega arith) (omega arith, (omega arith, tt)) refl (omega arith)
