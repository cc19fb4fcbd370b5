-- ===== src/Executor/LimitOffset.antt =====
-- `LimitOffsetOperator` of executor/limit_offset_operator.cc.
use custom_sql_database.Prelude.{
  ℕ, zero, suc, ◌≤◌, ◌≡◌, refl, ap, Bool, true, false, not, Option, none, some, List, [], ◌∷◌, ltb,
  leb, length, take, drop, if◌then◌else◌, arith, ℤ, pos, negsuc,
}
use custom_sql_database.Types.Value.{Value}
use custom_sql_database.Executor.Result.{QueryResult}

pub record Statement : Type 0 where
  pub offset : ℤ
  pub limit : ℤ

abbrev pub Rows : Type 0
Rows = List (List Value)

unfoldable pub skip_rows : ℤ → Rows → Rows
skip_rows (pos zero) rows = rows
skip_rows (pos (suc n)) rows = if leb (length rows) (suc n) then [] else drop (suc n) rows
skip_rows (negsuc _) rows = rows

unfoldable pub limit_rows : ℤ → Rows → Rows
limit_rows (pos zero) rows = []
limit_rows (pos (suc n)) rows = if ltb (suc n) (length rows) then take (suc n) rows else rows
limit_rows (negsuc _) rows = rows

-- offset <= 0 && limit < 0
abbrev pub is_unlimited : ℤ → ℤ → Bool
is_unlimited (pos (suc _)) limit = false
is_unlimited _ (negsuc _) = true
is_unlimited _ (pos _) = false

abbrev run : Statement → QueryResult → QueryResult
run stmt input =
    let rows = limit_rows stmt.limit (skip_rows stmt.offset input.rows) in
    if is_unlimited stmt.offset stmt.limit
    then input
    else record input { rows = rows; affected_rows = length rows }

unfoldable pub apply : Option Statement → QueryResult → QueryResult
unfolding skip_rows limit_rows
apply none input = input
apply (some stmt) input = if not input.success then input else run stmt input

drop_all_rows : (n : ℕ) (rows : Rows) → length rows ≤ n → drop n rows ≡ []
drop_all_rows zero [] h = refl
drop_all_rows zero (r ∷ rows) h = absurd (omega arith)
drop_all_rows (suc n) [] h = refl
drop_all_rows (suc n) (r ∷ rows) h = drop_all_rows n rows (omega arith)

take_all_rows : (n : ℕ) (rows : Rows) → length rows ≤ n → take n rows ≡ rows
take_all_rows zero [] h = refl
take_all_rows zero (r ∷ rows) h = absurd (omega arith)
take_all_rows (suc n) [] h = refl
take_all_rows (suc n) (r ∷ rows) h = ap (◌∷◌ r) (take_all_rows n rows (omega arith))

-- The rows that `LIMIT limit OFFSET offset` stands for.
abbrev pub window : ℕ → ℕ → Rows → Rows
window offset limit rows = take limit (drop offset rows)

skip_rows-drop : (n : ℕ) (rows : Rows) → skip_rows (pos n) rows ≡ drop n rows
unfolding skip_rows
skip_rows-drop zero rows = refl
skip_rows-drop (suc n) rows = ground (arith, drop_all_rows (suc n) rows)

limit_rows-take : (n : ℕ) (rows : Rows) → limit_rows (pos n) rows ≡ take n rows
unfolding limit_rows
limit_rows-take zero rows = refl
limit_rows-take (suc n) rows = ground (arith, take_all_rows (suc n) rows)

-- With a limit and an offset that are not negative, a successful result keeps exactly the rows of
-- the window, and reports their number.
pub apply-window :
    (offset limit : ℕ) (input : QueryResult)
    → input.success ≡ true
    → let output = apply (some (record { offset = pos offset; limit = pos limit })) input in
      (output.rows ≡ window offset limit input.rows)
      × (output.affected_rows ≡ length (window offset limit input.rows))
unfolding apply
apply-window zero limit input h = ground (arith, limit_rows-take limit input.rows)
apply-window (suc n) limit input h =
    ground
      (arith, skip_rows-drop (suc n) input.rows, limit_rows-take limit (drop (suc n) input.rows))
