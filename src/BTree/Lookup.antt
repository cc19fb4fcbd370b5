-- ===== src/BTree/Lookup.antt =====
-- The lookups of core/btree_index.cc on a well-formed index, and what they give after an insertion.
use mathlib.Core.Option
use custom_sql_database.Prelude.{
  ℕ, ◌≡◌, refl, ap, ◌∙◌, Bool, true, false, ◌&&◌, Option, none, some, List, [], ◌∷◌, ◌++◌, arith,
  if◌then◌else◌,
}
use custom_sql_database.Types.Value.{DataType}
use custom_sql_database.Types.Compare.{Floats}
use custom_sql_database.IndexKey.{IndexKey, key_eq, key_less}
use custom_sql_database.BTree.Search.{Visit, takes, passes_over, stops}
use custom_sql_database.BTree.Entries.{Entries, rows_of, rows_of-upsert}
use custom_sql_database.BTree.Layout.{flatten}
use custom_sql_database.BTree.Insert.{IsGood}
use custom_sql_database.BTree.Find.{collect_equal-rows_of}
use custom_sql_database.BTree.Scan.{IsMonotone, taken, take_rows, scan-taken}
use custom_sql_database.BTree.Index.{
  Root, insert, find_equal, find_range, visit_range, passes_lower, passes_upper, is_beyond,
}
use custom_sql_database.BTree.Keys.{HasShape, key-IsOrder, is_skipped-HasShape}
use custom_sql_database.BTree.Refine.{contents, IsIndex, insert-upsert}

-- The rows of the keys that pass a test, in the order of the keys.
unfoldable pub rows_where : {K : Type 0} → (K → Bool) → Entries K → List ℕ
rows_where test [] = []
rows_where test ((key, rows) ∷ entries) =
    let rest = rows_where test entries in if test key then rows ++ rest else rest

abbrev pub visit_of : Bool → Bool → Visit
visit_of passes beyond = if passes then takes else if beyond then stops else passes_over

pub stopped_beyond : (passes beyond : Bool) → visit_of passes beyond ≡ stops → beyond ≡ true
stopped_beyond true beyond e = absurd (ground (arith, e))
stopped_beyond false true e = refl
stopped_beyond false false e = absurd (ground (arith, e))

pub taken_passes : (passes beyond : Bool) → visit_of passes beyond ≡ takes → passes ≡ true
taken_passes true beyond e = refl
taken_passes false true e = absurd (ground (arith, e))
taken_passes false false e = absurd (ground (arith, e))

pub visit-taken :
    (passes beyond : Bool) (rows rest : List ℕ)
    → take_rows (visit_of passes beyond) rows rest ≡ (if passes then rows ++ rest else rest)
visit-taken true beyond rows rest = refl
visit-taken false true rows rest = refl
visit-taken false false rows rest = refl

module _ (fl : Floats) (t : DataType) (ts : List DataType) where
  contents-IsGood :
      (root : Root)
      → IsIndex fl (t ∷ ts) root
      → IsGood (HasShape (t ∷ ts)) (key_less fl) (key_eq fl) (contents root)
  contents-IsGood none i = record { keys = tt; sorted = tt }
  contents-IsGood (some n) i = i.1

  -- A lookup reads the rows of its key.
  pub find_equal-rows_of :
      (q : IndexKey) (root : Root)
      → HasShape (t ∷ ts) q
      → IsIndex fl (t ∷ ts) root
      → find_equal fl q root ≡ rows_of (key_less fl) (key_eq fl) q (contents root)
  unfolding find_equal rows_of
  find_equal-rows_of q none pq i = refl
  find_equal-rows_of q (some n) pq i =
      rw (is_skipped-HasShape t ts q pq)
        (collect_equal-rows_of (key-IsOrder fl (t ∷ ts)) i.0.0 q n pq i.0.1 i.1)

  -- An insertion of a row into a well-formed index succeeds, and behind it `find_equal` gives,
  -- for the key of the insertion, the rows it gave before followed by the new one, and for every
  -- other key of the index's column types the rows it gave before.
  pub find_equal-insert :
      (q key : IndexKey) (row : ℕ) (root : Root)
      → HasShape (t ∷ ts) q
      → HasShape (t ∷ ts) key
      → IsIndex fl (t ∷ ts) root
      → Option.map (find_equal fl q) (insert fl key row root)
        ≡ some (if key_eq fl key q then find_equal fl q root ++ row ∷ [] else find_equal fl q root)
  find_equal-insert q key row root pq pk i =
      let (root', ok, i', same) = insert-upsert fl t ts key row root pk i in
      let g = contents-IsGood root i in
      rw (ok, find_equal-rows_of q root' pq i', same, find_equal-rows_of q root pq i)
        (ap some (
          rows_of-upsert (key-IsOrder fl (t ∷ ts)) key q row (contents root) pk pq g.keys g.sorted))

  -- A bound, when there is one, is a key of the index.
  abbrev pub IsBound : Option IndexKey → Type 0
  IsBound none = Unit
  IsBound (some key) = HasShape (t ∷ ts) key

  abbrev pub in_range : Option IndexKey → Bool → Option IndexKey → Bool → IndexKey → Bool
  in_range lower li upper ui key = passes_lower fl key lower li && passes_upper fl key upper ui

  not_within :
      (b u : IndexKey) (ui : Bool)
      → HasShape (t ∷ ts) b
      → HasShape (t ∷ ts) u
      → key_less fl u b ≡ true
      → passes_upper fl b (some u) ui ≡ false
  unfolding passes_upper
  not_within b u true pb pu l = ground (arith, l)
  not_within b u false pb pu l =
      let o = key-IsOrder fl (t ∷ ts) in
      ground (arith, l, o.less_trans b u b pb pu pb, o.less_irrefl b pb)

  visit_range-IsMonotone :
      (lower : Option IndexKey) (li : Bool) (upper : Option IndexKey) (ui : Bool)
      → IsBound upper
      → IsMonotone (HasShape (t ∷ ts)) (key_less fl) (key_eq fl) (visit_range fl lower li upper ui)
  unfolding visit_range passes_upper
  visit_range-IsMonotone lower li none ui b = record {
    stopped = λ a b pa pb l stop take'. absurd (ground (arith, stopped_beyond _ false stop));
  }
  visit_range-IsMonotone lower li (some u) ui pu = record {
    stopped = λ a b pa pb l stop take'.
        let o = key-IsOrder fl (t ∷ ts) in
        let beyond = stopped_beyond _ (key_less fl u a) stop in
        let above = o.less_trans u a b pu pa pb beyond l in
        absurd (ground (arith, not_within b u ui pb pu above, taken_passes _ _ take'));
  }

  taken-visit_range :
      (lower : Option IndexKey) (li : Bool) (upper : Option IndexKey) (ui : Bool)
      (entries : Entries IndexKey)
      → taken (visit_range fl lower li upper ui) entries
        ≡ rows_where (in_range lower li upper ui) entries
  unfolding taken visit_range rows_where
  taken-visit_range lower li upper ui [] = refl
  taken-visit_range lower li upper ui ((key, rows) ∷ entries) =
      visit-taken (in_range lower li upper ui key) (is_beyond fl upper key) rows _
      ∙ ap (λ r. if in_range lower li upper ui key then rows ++ r else r)
          (taken-visit_range lower li upper ui entries)

  -- On a well-formed index `find_range`, which stops a node at a key beyond the upper bound,
  -- gives the rows of exactly the entries whose keys pass both bounds, in the order of the keys;
  -- a bound is absent or a key of the index's column types.
  pub find_range-rows_where :
      (lower : Option IndexKey) (li : Bool) (upper : Option IndexKey) (ui : Bool) (root : Root)
      → IsBound lower
      → IsBound upper
      → IsIndex fl (t ∷ ts) root
      → find_range fl lower li upper ui root
        ≡ rows_where (in_range lower li upper ui) (contents root)
  unfolding find_range rows_where
  find_range-rows_where lower li upper ui none bl bu i = refl
  find_range-rows_where lower li upper ui (some n) bl bu i =
      scan-taken (key-IsOrder fl (t ∷ ts)) (visit_range-IsMonotone lower li upper ui bu) i.0.0 n
        i.0.1 i.1
      ∙ taken-visit_range lower li upper ui (flatten n)
