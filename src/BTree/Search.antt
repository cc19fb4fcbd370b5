-- ===== src/BTree/Search.antt =====
-- The searches of `BTreeIndex` (core/btree_index.cc) over the order of the keys. What the searches of
-- the children give is the list of their results; the code reads those that it visits.
use Prim.Native.Nat.{max}
use custom_sql_database.Prelude.{
  ℕ, zero, suc, Bool, Option, none, some, List, [], ◌∷◌, ◌++◌, get_elem?, if◌then◌else◌,
}
use custom_sql_database.BTree.Node.{Node, Nodes, node, nil, cons, lower_bound, is_at}

abbrev pub or_nothing : Option (List ℕ) → List ℕ
or_nothing none = []
or_nothing (some rows) = rows

abbrev pub rows_at : {K : Type 0} → ℕ → List (K × List ℕ) → List ℕ
rows_at i [] = []
rows_at zero ((key, rows) ∷ entries) = rows
rows_at (suc i) (e ∷ entries) = rows_at i entries

unfoldable mutual
  pub collect_equal : {K : Type 0} → (K → K → Bool) → (K → K → Bool) → K → Node K → List ℕ
  collect_equal less eq key (node leaf entries children) =
      let i = lower_bound less eq key entries in
      let below = or_nothing (get_elem? (collect_equal_all less eq key children) i) in
      if is_at less eq i key entries then rows_at i entries else if leaf then [] else below

  pub collect_equal_all :
      {K : Type 0} → (K → K → Bool) → (K → K → Bool) → K → Nodes K → List (List ℕ)
  collect_equal_all less eq key nil = []
  collect_equal_all less eq key (cons c cs) =
      collect_equal less eq key c ∷ collect_equal_all less eq key cs

-- What the loop of a scan does behind the key: its rows or not, and whether it goes on.
pub data Visit : Type 0 where
  takes passes_over stops : Visit

-- children.back(), by the results of the children that are left.
abbrev pub last_of : List (List ℕ) → List ℕ
last_of [] = []
last_of (rs ∷ []) = rs
last_of (rs ∷ ss ∷ rest) = last_of (ss ∷ rest)

abbrev pub next_of : List (List ℕ) → List ℕ
next_of [] = []
next_of (rs ∷ rest) = rs

abbrev pub rest_of : List (List ℕ) → List (List ℕ)
rest_of [] = []
rest_of (rs ∷ rest) = rest

-- The loop over the keys that `collect_range` and `collect_prefix` share: the child before the key,
-- the key, and after the loop the last child. `below` has the results of the children that are left.
unfoldable pub scan_keys :
    {K : Type 0} → (K → Visit) → Bool → List (K × List ℕ) → List (List ℕ) → List ℕ
scan_keys visit leaf [] below = if leaf then [] else last_of below
scan_keys visit leaf ((key, rows) ∷ entries) below =
    let rest = scan_keys visit leaf entries (rest_of below) in
    let before = if leaf then [] else next_of below in
    before ++ elim (visit key) [ takes ↦ rows ++ rest | passes_over ↦ rest | stops ↦ [] ]

unfoldable mutual
  pub scan : {K : Type 0} → (K → Visit) → Node K → List ℕ
  scan visit (node leaf entries children) = scan_keys visit leaf entries (scan_all visit children)

  pub scan_all : {K : Type 0} → (K → Visit) → Nodes K → List (List ℕ)
  scan_all visit nil = []
  scan_all visit (cons c cs) = scan visit c ∷ scan_all visit cs

unfoldable mutual
  -- The number of levels.
  pub height : {K : Type 0} → Node K → ℕ
  height (node leaf entries children) = suc (height_all children)

  pub height_all : {K : Type 0} → Nodes K → ℕ
  height_all nil = 0
  height_all (cons c cs) = max (height c) (height_all cs)
