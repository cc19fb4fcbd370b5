-- ===== src/Row.antt =====
-- `Row` of core/row.{h,cc}: the values of a tuple and the ids of the transactions that created and
-- deleted this version of it.
use custom_sql_database.Prelude.{
  ℕ, zero, suc, List, [], ◌∷◌, ◌++◌, none, some, length, get_elem?, leb, if◌then◌else◌,
}
use custom_sql_database.Errors.{Result, ok, throw, out_of_range}
use custom_sql_database.Types.Value.{Value}

pub record Row : Type 0 where
  pub values : List Value
  pub xmin : ℕ
  pub xmax : ℕ

abbrev pub empty_row : Row
empty_row = record { values = []; xmin = 0; xmax = 0 }

unfoldable pub add_value : Value → Row → Row
add_value v row = record row { values = row.values ++ v ∷ [] }

unfoldable pub get_value : ℕ → Row → Result Value
get_value i row = elim (get_elem? row.values i) [ none ↦ throw out_of_range | some v ↦ ok v ]

set_elem : List Value → ℕ → Value → List Value
set_elem [] i v = []
set_elem (x ∷ xs) zero v = v ∷ xs
set_elem (x ∷ xs) (suc i) v = x ∷ set_elem xs i v

unfoldable pub set_value : ℕ → Value → Row → Result Row
unfolding set_elem
set_value i v row =
    if leb (length row.values) i
    then throw out_of_range
    else ok (record row { values = set_elem row.values i v })

erase_elem : List Value → ℕ → List Value
erase_elem [] i = []
erase_elem (x ∷ xs) zero = xs
erase_elem (x ∷ xs) (suc i) = x ∷ erase_elem xs i

unfoldable pub remove_value : ℕ → Row → Result Row
unfolding erase_elem
remove_value i row =
    if leb (length row.values) i
    then throw out_of_range
    else ok (record row { values = erase_elem row.values i })
