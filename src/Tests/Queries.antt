-- ===== src/Tests/Queries.antt =====
-- Query operators of executor/ on small results.
use custom_sql_database.Prelude.{
  ◌↔◌, false, arith, ◌≡◌, refl, true, not, ◌&&◌, ◌||◌, some, List, [], ◌∷◌, ◌++◌, ltb, ◌==◌, length,
  pos,
}
use custom_sql_database.IndexKey.{
  IndexKey, key_less, key_eq, starts_with, key_trichotomy, starts_with_iff,
}
use custom_sql_database.Types.Value.{Value, int, string}
use custom_sql_database.Types.Compare.{Floats}
use custom_sql_database.Executor.Result.{QueryResult}
use custom_sql_database.Executor.RowKey.{Hashes}
use custom_sql_database.Executor.LimitOffset.{apply, window, apply-window}
use custom_sql_database.Executor.SetOperation.{
  execute_intersect, execute_except, execute_union_distinct,
}
use custom_sql_database.Executor.SetOperation.Sets.{
  has, AreDistinct, intersect-rows, except-rows, union-rows,
}

-- Doubles as their patterns, in the order of the patterns.
abbrev pub patterns : Floats
patterns = record { of_int = λ a. a; less = ltb; near = λ a b. a == b; print = λ a. [] }

-- Hashes with collisions.
abbrev sizes : Hashes
sizes = record {
  hash_int = λ a. a;
  hash_double = λ a. a;
  hash_string = λ s. length s;
  hash_bool = λ b. 1;
}

abbrev left : QueryResult
left = record {
  success = true;
  column_names = (b'c' ∷ []) ∷ [];
  rows = (int 1 ∷ []) ∷ (int 2 ∷ []) ∷ (int 1 ∷ []) ∷ (string (b'x' ∷ []) ∷ []) ∷ [];
  affected_rows = 4;
}

abbrev right : QueryResult
right = record {
  success = true;
  column_names = (b'c' ∷ []) ∷ [];
  rows = (int 2 ∷ []) ∷ (int 3 ∷ []) ∷ [];
  affected_rows = 2;
}

abbrev pub two : List Value
two = int 2 ∷ []

apply-window_example :
    let output = apply (some (record { offset = pos 1; limit = pos 2 })) left in
    (output.rows ≡ window 1 2 left.rows) × (output.affected_rows ≡ length (window 1 2 left.rows))
apply-window_example = apply-window 1 2 left refl

intersect-rows_example :
    AreDistinct patterns sizes (execute_intersect patterns sizes left right).rows
    × (has patterns sizes two (execute_intersect patterns sizes left right).rows
        ≡ (has patterns sizes two left.rows && has patterns sizes two right.rows))
intersect-rows_example =
    intersect-rows patterns sizes left right ((tt, tt), ((tt, tt), ((tt, tt), ((tt, tt), tt))))
      ((tt, tt), ((tt, tt), tt)) two (tt, tt)

except-rows_example :
    AreDistinct patterns sizes (execute_except patterns sizes left right).rows
    × (has patterns sizes two (execute_except patterns sizes left right).rows
        ≡ (has patterns sizes two left.rows && not (has patterns sizes two right.rows)))
except-rows_example =
    except-rows patterns sizes left right ((tt, tt), ((tt, tt), ((tt, tt), ((tt, tt), tt))))
      ((tt, tt), ((tt, tt), tt)) two (tt, tt)

union-rows_example :
    AreDistinct patterns sizes (execute_union_distinct patterns sizes left right).rows
    × (has patterns sizes two (execute_union_distinct patterns sizes left right).rows
        ≡ (has patterns sizes two left.rows || has patterns sizes two right.rows))
union-rows_example =
    union-rows patterns sizes left right ((tt, tt), ((tt, tt), ((tt, tt), ((tt, tt), tt))))
      ((tt, tt), ((tt, tt), tt)) two (tt, tt)

key_trichotomy_example :
    ((key_less patterns (int 1 ∷ []) two
        || (key_eq patterns (int 1 ∷ []) two || key_less patterns two (int 1 ∷ [])))
      ≡ true)
    × ((key_less patterns (int 1 ∷ []) two && key_less patterns two (int 1 ∷ [])) ≡ false)
    × ((key_eq patterns (int 1 ∷ []) two
          && (key_less patterns (int 1 ∷ []) two || key_less patterns two (int 1 ∷ [])))
        ≡ false)
key_trichotomy_example = key_trichotomy patterns (int 1 ∷ []) two ((omega arith, omega arith), tt)

starts_with_iff_example :
    (starts_with patterns (int 2 ∷ int 3 ∷ []) two ≡ true)
    ↔ ((rest : IndexKey) × (int 2 ∷ int 3 ∷ [] ≡ two ++ rest))
starts_with_iff_example = starts_with_iff patterns (int 2 ∷ int 3 ∷ []) two (tt, (tt, tt)) (tt, tt)
