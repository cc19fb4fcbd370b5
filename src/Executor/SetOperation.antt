-- ===== src/Executor/SetOperation.antt =====
-- `SetOperationOperator` of executor/set_operation_operator.cc. An `unordered_set<RowKey>` finds a
-- key that has the same hash and is equal.
pub mod Sets
use custom_sql_database.Prelude.{
  ℕ, Bool, true, false, not, ◌&&◌, ◌||◌, List, [], ◌∷◌, ◌++◌, ◌==◌, if◌then◌else◌, any, length,
  arith,
}
use custom_sql_database.Types.Value.{
  Value, is_null, DataType, get_type, int_type, float_type, string_type, boolean_type, date_type,
  uuid_type,
}
use custom_sql_database.Types.Compare.{Floats}
use custom_sql_database.Executor.Result.{QueryResult, error_result}
use custom_sql_database.Executor.RowKey.{Hashes, hash_row, is_row_equal}

pub data SetOperationKind : Type 0 where
  union intersect except : SetOperationKind

abbrev pub Rows : Type 0
Rows = List (List Value)

type_code : DataType → ℕ
type_code int_type = 0
type_code float_type = 1
type_code string_type = 2
type_code boolean_type = 3
type_code date_type = 4
type_code uuid_type = 5

-- The loop over the first rows. A right row that is shorter is read out of bounds; the arity test
-- before it keeps well-formed results from that.
same_types : List Value → List Value → Bool
unfolding type_code
same_types (a ∷ as') (b ∷ bs) =
    let rest = same_types as' bs in
    if is_null a || is_null b
    then rest
    else if type_code (get_type a) == type_code (get_type b)
    then rest
    else false
same_types _ _ = true

unfoldable pub validate_column_types : Rows → Rows → Bool
unfolding same_types
validate_column_types (l ∷ _) (r ∷ _) = same_types l r
validate_column_types _ _ = true

unfoldable pub build_success_result : QueryResult → Rows → QueryResult
build_success_result left rows = record {
  success = true;
  column_names = left.column_names;
  rows = rows;
  affected_rows = length rows;
}

module _ (fl : Floats) (hs : Hashes) where
  -- seen.find(row) != seen.end()
  unfoldable pub finds : List Value → Rows → Bool
  finds row [] = false
  finds row (key ∷ keys) =
      (hash_row hs key == hash_row hs row && is_row_equal fl key row) || finds row keys

  abbrev pub push : List Value → Rows × Rows → Rows × Rows
  push row (rows, seen) = (row ∷ rows, seen)

  -- One loop over a source: a row that passes the test and is not yet in the set of emitted rows is
  -- pushed and put into the set. The pushed rows, and the set afterwards.
  unfoldable pub emit : (List Value → Bool) → Rows → Rows → Rows × Rows
  emit test [] seen = ([], seen)
  emit test (row ∷ rows) seen =
      let pushed = push row (emit test rows (row ∷ seen)) in
      let passed = emit test rows seen in
      if test row && not (finds row seen) then pushed else passed

  unfoldable pub execute_union_all : QueryResult → QueryResult → QueryResult
  unfolding build_success_result
  execute_union_all left right = build_success_result left (left.rows ++ right.rows)

  unfoldable pub execute_union_distinct : QueryResult → QueryResult → QueryResult
  execute_union_distinct left right =
      let (from_left, seen) = emit (λ row. true) left.rows [] in
      let (from_right, _) = emit (λ row. true) right.rows seen in
      build_success_result left (from_left ++ from_right)

  unfoldable pub execute_intersect : QueryResult → QueryResult → QueryResult
  execute_intersect left right =
      build_success_result left (emit (λ row. finds row right.rows) left.rows []).0

  unfoldable pub execute_except : QueryResult → QueryResult → QueryResult
  execute_except left right =
      build_success_result left (emit (λ row. not (finds row right.rows)) left.rows []).0

  abbrev dispatch : SetOperationKind → Bool → QueryResult → QueryResult → QueryResult
  dispatch union true left right = execute_union_all left right
  dispatch union false left right = execute_union_distinct left right
  dispatch intersect is_all left right = execute_intersect left right
  dispatch except is_all left right = execute_except left right

  unfoldable pub execute : QueryResult → QueryResult → SetOperationKind → Bool → QueryResult
  unfolding validate_column_types
  execute left right kind is_all =
      if not left.success
      then left
      else if not right.success
      then right
      else if not (length left.column_names == length right.column_names)
      then error_result
      else if not (validate_column_types left.rows right.rows)
      then error_result
      else dispatch kind is_all left right
