-- ===== src/Shard/Merge.antt =====
-- `ResultMerger::merge` of network/result_merger.cc: the rows of the workers' results, one after another.
use mathlib.Core.List.{append_assoc, append-nil}
use custom_sql_database.Prelude.{
  ◌+◌, ◌≡◌, refl, sym, ◌∙◌, Bool, true, false, not, ◌&&◌, List, [], ◌∷◌, ◌++◌, arith, Bytes,
  bytes_beq, bytes_beq_iff, ◌↔◌, if◌then◌else◌, All, all,
}
use custom_sql_database.Types.Value.{Value}
use custom_sql_database.Executor.Result.{QueryResult, error_result}

abbrev names_beq : List Bytes → List Bytes → Bool
names_beq [] [] = true
names_beq (a ∷ as') (b ∷ bs) = bytes_beq a b && names_beq as' bs
names_beq _ _ = false

names_beq_iff : (as' bs : List Bytes) → (names_beq as' bs ≡ true) ↔ (as' ≡ bs)
names_beq_iff [] [] = (λ e. refl, λ e. refl)
names_beq_iff (a ∷ as') (b ∷ bs) = ground (arith, bytes_beq_iff a b, names_beq_iff as' bs)
names_beq_iff [] (b ∷ bs) = ground arith
names_beq_iff (a ∷ as') [] = ground arith

-- The second loop: a result with other columns ends it with an error.
unfoldable pub append_parts : List QueryResult → QueryResult → QueryResult
append_parts [] merged = merged
append_parts (part ∷ results) merged =
    let rest = append_parts results (record {
      success = merged.success;
      column_names = merged.column_names;
      rows = merged.rows ++ part.rows;
      affected_rows = merged.affected_rows + part.affected_rows;
    }) in
    if not (names_beq part.column_names merged.column_names) then error_result else rest

unfoldable pub merge : List QueryResult → QueryResult
unfolding append_parts
merge [] = error_result
merge (first ∷ results) =
    let merged : QueryResult = record {
      success = true;
      column_names = first.column_names;
      rows = [];
      affected_rows = 0;
    } in
    if not (all (λ r. r.success) (first ∷ results))
    then error_result
    else append_parts (first ∷ results) merged

abbrev pub all_rows : List QueryResult → List (List Value)
all_rows [] = []
all_rows (r ∷ results) = r.rows ++ all_rows results

-- The result has these columns.
abbrev pub HasColumns : List Bytes → QueryResult → Type 0
HasColumns names r = r.column_names ≡ names

append_parts-rows :
    (results : List QueryResult) (merged : QueryResult)
    → All (HasColumns merged.column_names) results
    → ((append_parts results merged).rows ≡ merged.rows ++ all_rows results)
      × ((append_parts results merged).success ≡ merged.success)
unfolding append_parts
append_parts-rows [] merged h = (sym (append-nil merged.rows), refl)
append_parts-rows (part ∷ results) merged h =
    let same = (names_beq_iff part.column_names merged.column_names).1 h.0 in
    let next : QueryResult = record {
      success = merged.success;
      column_names = merged.column_names;
      rows = merged.rows ++ part.rows;
      affected_rows = merged.affected_rows + part.affected_rows;
    } in
    let ih = append_parts-rows results next h.1 in
    rw same (ih.0 ∙ append_assoc merged.rows part.rows (all_rows results), ih.1)

-- Results that all succeeded, with the columns of the first, merge into their rows in order.
pub merge-rows :
    (first : QueryResult) (results : List QueryResult)
    → all (λ r. r.success) (first ∷ results) ≡ true
    → All (HasColumns first.column_names) results
    → ((merge (first ∷ results)).rows ≡ all_rows (first ∷ results))
      × ((merge (first ∷ results)).success ≡ true)
unfolding merge
merge-rows first results ok h =
    rw (merge, ok)
      (append_parts-rows (first ∷ results)
        (record { success = true; column_names = first.column_names; rows = []; affected_rows = 0 })
        (refl, h))

-- A failed result fails the whole.
pub merge-failed :
    (results : List QueryResult)
    → all (λ r. r.success) results ≡ false
    → (merge results).success ≡ false
unfolding merge
merge-failed [] h = absurd (ground (arith, h))
merge-failed (first ∷ results) h = rw (merge, h) refl
