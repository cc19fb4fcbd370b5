-- ===== src/Storage/PageStore.antt =====
-- `MemoryPageStore` of storage/page_store.cc: the pages of one file. Null buffers are left out.
use custom_sql_database.Prelude.{
  ℕ, zero, suc, ◌%◌, ◌^◌, none, some, List, [], ◌∷◌, ◌++◌, length, get_elem?, ltb, if◌then◌else◌,
}
use custom_sql_database.Errors.{Result, ok, throw, storage_error}
use custom_sql_database.Storage.Page.{Page}

abbrev pub PageStore : Type 0
PageStore = List Page

unfoldable pub read_page : ℕ → PageStore → Result Page
read_page page_id store = elim (get_elem? store page_id) [
  | none ↦ throw storage_error
  | some p ↦ ok p
]

abbrev pub put_elem : {A : Type 0} → ℕ → A → List A → List A
put_elem i a [] = []
put_elem zero a (x ∷ xs) = a ∷ xs
put_elem (suc i) a (x ∷ xs) = x ∷ put_elem i a xs

unfoldable pub write_page : ℕ → Page → PageStore → Result PageStore
write_page page_id page store =
    if ltb page_id (length store) then ok (put_elem page_id page store) else throw storage_error

abbrev pub page_count : PageStore → ℕ
page_count store = length store % 2 ^ 32

-- The id of the new page, of zeros, and the store with it.
unfoldable pub allocate_page : PageStore → ℕ × PageStore
allocate_page store = (length store % 2 ^ 32, store ++ (λ i. 0) ∷ [])
