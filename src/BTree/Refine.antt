-- ===== src/BTree/Refine.antt =====
-- `BTreeIndex::insert` and `find_equal` of core/btree_index.cc refine a sorted list of entries: the
-- state of an index is none, or a tree of some height whose entries are sorted.
use mathlib.Core.Option
use custom_sql_database.Prelude.{
  ℕ, zero, suc, ◌<◌, ◌≡◌, refl, ap, ◌∙◌, false, Option, none, some, List, [], ◌∷◌, ◌==◌, ==_iff,
  arith, Bool-cases, inl, inr,
}
use custom_sql_database.Types.Value.{DataType}
use custom_sql_database.Types.Compare.{Floats}
use custom_sql_database.IndexKey.{IndexKey, key_eq, key_less}
use custom_sql_database.BTree.Node.{
  Node, node, nil, cons, size, max_keys, split_child, split_at, insert_non_full,
}
use custom_sql_database.BTree.Search.{height}
use custom_sql_database.BTree.Entries.{Entries, upsert, upsert-IsSorted, upsert-AllKeys}
use custom_sql_database.BTree.Layout.{weave, flatten, IsTree}
use custom_sql_database.BTree.Split.{split_child-Splits}
use custom_sql_database.BTree.Insert.{IsGood, Inserted, insert_non_full-Inserted, size-le}
use custom_sql_database.BTree.Index.{Root, new_node, insert}
use custom_sql_database.BTree.Keys.{HasShape, key-IsOrder, is_skipped-HasShape}

IsTree-height : {K : Type 0} (h : ℕ) (n : Node K) → IsTree h n → h < height n
unfolding IsTree height
IsTree-height zero (node leaf entries children) t = omega arith
IsTree-height (suc h) (node leaf entries nil) t = absurd (omega (arith, t.2))
IsTree-height (suc h) (node leaf entries (cons c cs)) t = omega (arith, IsTree-height h c t.3.0)

abbrev pub contents : Root → Entries IndexKey
contents none = []
contents (some n) = flatten n

module _ (fl : Floats) (types : List DataType) where
  -- The index of columns of these types is well formed.
  abbrev pub IsIndex : Root → Type 0
  IsIndex none = Unit
  IsIndex (some n) =
      ((h : ℕ) × IsTree h n) × IsGood (HasShape types) (key_less fl) (key_eq fl) (flatten n)

module _ (fl : Floats) (t : DataType) (ts : List DataType) where
  -- The insertion below a root that is not full.
  insert_below-Inserted :
      (h : ℕ) (key : IndexKey) (row : ℕ) (n : Node IndexKey)
      → HasShape (t ∷ ts) key
      → IsTree h n
      → size n < 31
      → IsGood (HasShape (t ∷ ts)) (key_less fl) (key_eq fl) (flatten n)
      → Inserted
          (HasShape (t ∷ ts))
          (key_less fl)
          (key_eq fl)
          h
          key
          row
          (flatten n)
          (insert_non_full (key_less fl) (key_eq fl) (suc (height n)) key row n)
  insert_below-Inserted h key row n pk tree room g =
      insert_non_full-Inserted (key-IsOrder fl (t ∷ ts)) (suc (height n)) h key row n pk
        (omega (arith, IsTree-height h n tree)) tree room g

  Inserted-IsIndex :
      (h : ℕ) (key : IndexKey) (row : ℕ) (entries : Entries IndexKey) (n : Node IndexKey)
      → HasShape (t ∷ ts) key
      → IsGood (HasShape (t ∷ ts)) (key_less fl) (key_eq fl) entries
      → IsTree h n
      → flatten n ≡ upsert (key_less fl) (key_eq fl) key row entries
      → IsIndex fl (t ∷ ts) (some n)
  Inserted-IsIndex h key row entries n pk g tree same = (
    (h, tree),
    rw same (record {
      keys = upsert-AllKeys (key-IsOrder fl (t ∷ ts)) key row entries pk g.keys;
      sorted = upsert-IsSorted (key-IsOrder fl (t ∷ ts)) key row entries pk g.keys g.sorted;
    }),
  )

  -- The call ended, with a well-formed index that has one more row for the key.
  abbrev pub Refines : IndexKey → ℕ → Entries IndexKey → Option Root → Type 0
  Refines key row entries result =
      (root' : Root) × (result ≡ some root')
      × IsIndex fl (t ∷ ts) root'
      × (contents root' ≡ upsert (key_less fl) (key_eq fl) key row entries)

  below-Refines :
      (h : ℕ) (key : IndexKey) (row : ℕ) (entries : Entries IndexKey) (n : Node IndexKey)
      → HasShape (t ∷ ts) key
      → IsTree h n
      → size n < 31
      → flatten n ≡ entries
      → IsGood (HasShape (t ∷ ts)) (key_less fl) (key_eq fl) entries
      → Refines key row entries
          (Option.map some (insert_non_full (key_less fl) (key_eq fl) (suc (height n)) key row n))
  below-Refines h key row entries n pk tree room here g =
      let (n', ok, tree', same) = insert_below-Inserted h key row n pk tree room (rw here g) in
      let same' = same ∙ ap (upsert (key_less fl) (key_eq fl) key row) here in
      (
        some n',
        ap (Option.map some) ok,
        Inserted-IsIndex h key row entries n' pk g tree' same',
        same',
      )

  -- A full root is split below a new one.
  full-Refines :
      (h : ℕ) (key : IndexKey) (row : ℕ) (n : Node IndexKey)
      → HasShape (t ∷ ts) key
      → IsTree h n
      → size n ≡ 31
      → IsGood (HasShape (t ∷ ts)) (key_less fl) (key_eq fl) (flatten n)
      → Refines key row (flatten n) (
          Option.map some (elim (split_child 0 (node false [] (cons n nil))) [
            | none ↦ none
            | some root' ↦
                insert_non_full (key_less fl) (key_eq fl) (suc (height root')) key row root'
          ]))
  unfolding flatten weave IsTree
  full-Refines h key row n pk tree full g =
      let (mid, s) =
        split_child-Splits h 0 false [] (cons n nil) n (omega arith) refl full tree refl
          (tree, tt) in
      rw s.split (
        below-Refines (suc h) key row (flatten n) (split_at 0 n mid false [] (cons n nil)) pk
          (refl, omega arith, s.counts, s.trees) (omega arith) s.same g)

  empty-Refines :
      (key : IndexKey) (row : ℕ)
      → HasShape (t ∷ ts) key
      → Refines key row [] (
          Option.map some
            (insert_non_full (key_less fl) (key_eq fl) (suc (height new_node)) key row new_node))
  unfolding flatten weave IsTree
  empty-Refines key row pk =
      below-Refines 0 key row [] new_node pk (refl, omega arith, tt) (omega arith) refl
        (record { keys = tt; sorted = tt })

  -- Inserting a row under a key of the index's column types into a well-formed index (none, or a
  -- tree of some height with every leaf at that depth, at most 31 keys per node, one more child
  -- than keys, and sorted entries) succeeds, splitting full nodes on the way; the result is well
  -- formed, and its entries are the old ones with one more row for the key, in the order of the
  -- keys.
  pub insert-upsert :
      (key : IndexKey) (row : ℕ) (root : Root)
      → HasShape (t ∷ ts) key
      → IsIndex fl (t ∷ ts) root
      → Refines key row (contents root) (insert fl key row root)
  unfolding insert
  insert-upsert key row none pk i = rw (is_skipped-HasShape t ts key pk) (empty-Refines key row pk)
  insert-upsert key row (some root) pk i = elim (Bool-cases (size root == max_keys)) [
    | inl full ↦
        rw (is_skipped-HasShape t ts key pk, full)
          (full-Refines i.0.0 key row root pk i.0.1 ((==_iff (size root) 31).0 full) i.1)
    | inr room ↦
        rw (is_skipped-HasShape t ts key pk, room)
          (below-Refines i.0.0 key row (flatten root) root pk i.0.1
            (ground (arith, room, size-le (key-IsOrder fl (t ∷ ts)) i.0.0 root i.0.1)) refl i.1)
  ]
