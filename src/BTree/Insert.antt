-- ===== src/BTree/Insert.antt =====
-- `insert_non_full` of core/btree_index.cc: on a sorted tree it ends, keeps the tree, and does to the
-- entries what `upsert` does.
use custom_sql_database.Prelude.{
  All-append_left, All-append_right, ℕ, zero, suc, ◌+◌, ◌≤◌, ◌<◌, ◌≡◌, refl, ◌∙◌, Bool, true, false,
  Option, some, List, [], ◌∷◌, ◌==◌, ==_iff, arith, length, Bool-cases, inl, inr,
}
use custom_sql_database.BTree.Node.{
  Node, Nodes, node, nil, cons, child_at, set_child, insert_child, insert_at, push_row, lower_bound,
  is_at, size, max_keys, left_half, right_half, split_at, into_child, after_split, is_full_at,
  insert_non_full,
}
use custom_sql_database.BTree.Entries.{Entries, IsSorted, AllKeys, upsert}
use custom_sql_database.Types.Order.{IsOrder}
use custom_sql_database.BTree.Layout.{
  weave, flatten, flatten_all, count, AllNodes, IsTree, AllNodes-set, count-set, child_at-some,
  IsSorted-left, IsSorted-right,
}
use custom_sql_database.BTree.Split.{Splits, split_child-Splits, length-insert_at}
use custom_sql_database.BTree.Walk.{
  lower_bound-le, lower_bound-insert_at, is_at-insert_self, is_at-insert_suc, get_elem?-insert_self,
  length-push_row, weave-push, weave-leaf, weave-into,
}

module _ {K : Type 0} (P : K → Type 0) (less eq : K → K → Bool) where
  -- The entries are ordered keys with `P`.
  pub record IsGood (entries : Entries K) : Type 0 where
    pub keys : AllKeys P entries
    pub sorted : IsSorted less eq entries

  -- The insertion ended, with a tree of the same height.
  abbrev pub Inserted : ℕ → K → ℕ → Entries K → Option (Node K) → Type 0
  Inserted h key row entries r =
      (n : Node K) × (r ≡ some n) × IsTree h n × (flatten n ≡ upsert less eq key row entries)

  child-IsGood :
      (i : ℕ) (entries : Entries K) (children : Nodes K) (c : Node K)
      → count children ≡ length entries + 1
      → child_at i children ≡ some c
      → IsGood (weave entries (flatten_all children))
      → IsGood (flatten c)
  unfolding weave flatten
  child-IsGood i entries nil c l at g = absurd (omega (arith, l))
  child-IsGood zero [] (cons d cs) c l at g = let same : d ≡ c = ground (arith, at) in rw (← same) g
  child-IsGood (suc i) [] (cons d nil) c l at g = absurd (ground (arith, at))
  child-IsGood (suc i) [] (cons d (cons d' cs)) c l at g = absurd (omega (arith, l))
  child-IsGood zero (e ∷ entries) (cons d cs) c l at g =
      let same : d ≡ c = ground (arith, at) in
      rw (← same) (record {
        keys = All-append_left (λ x. P x.0) (flatten d) _ g.keys;
        sorted = IsSorted-left less eq (flatten d) _ g.sorted;
      })
  child-IsGood (suc i) (e ∷ entries) (cons d cs) c l at g =
      child-IsGood i entries cs c (omega (arith, l)) at (record {
        keys =
            (All-append_right (λ x. P x.0) (flatten d) (e ∷ weave entries (flatten_all cs))
              g.keys).1;
        sorted =
            (IsSorted-right less eq (flatten d) (e ∷ weave entries (flatten_all cs)) g.sorted).1;
      })

  -- What a call on a child with less than 31 keys does.
  abbrev pub Inserts : ℕ → K → ℕ → (Node K → Option (Node K)) → Type 0
  Inserts h key row rec =
      (c : Node K)
      → IsTree h c
      → size c < 31
      → IsGood (flatten c)
      → Inserted h key row (flatten c) (rec c)

module _ {K : Type 0} {P : K → Type 0} {less eq : K → K → Bool} (o : IsOrder P less eq) where
  -- A node above trees of height `h`.
  record IsBranch (h : ℕ) (entries : Entries K) (children : Nodes K) : Type 0 where
    few : length entries ≤ 31
    counts : count children ≡ length entries + 1
    trees : AllNodes (IsTree h) children
    good : IsGood P less eq (weave entries (flatten_all children))

  pub size-le : (h : ℕ) (c : Node K) → IsTree h c → size c ≤ 31
  unfolding IsTree
  size-le zero (node leaf entries children) t = t.1
  size-le (suc h) (node leaf entries children) t = t.1

  push-Inserted :
      (h : ℕ) (key : K) (row : ℕ) (entries : Entries K) (children : Nodes K)
      → P key
      → IsBranch h entries children
      → is_at less eq (lower_bound less eq key entries) key entries ≡ true
      → Inserted P less eq
          (suc h)
          key
          row
          (weave entries (flatten_all children))
          (some (node false (push_row (lower_bound less eq key entries) row entries) children))
  unfolding IsTree flatten
  push-Inserted h key row entries children pk b at =
      let i = lower_bound less eq key entries in
      let l = length-push_row i row entries in
      (
        node false (push_row i row entries) children,
        refl,
        (refl, rw l b.few, rw l b.counts, b.trees),
        weave-push o key row entries (flatten_all children) pk b.good.keys b.good.sorted at,
      )

  into-Inserted :
      (h : ℕ) (key : K) (row : ℕ) (entries : Entries K) (children : Nodes K) (i : ℕ) (c : Node K)
      (rec : Node K → Option (Node K))
      → P key
      → Inserts P less eq h key row rec
      → IsBranch h entries children
      → lower_bound less eq key entries ≡ i
      → is_at less eq i key entries ≡ false
      → child_at i children ≡ some c
      → IsTree h c
      → size c < 31
      → Inserted P less eq
          (suc h)
          key
          row
          (weave entries (flatten_all children))
          (into_child less eq rec i false entries children)
  unfolding IsTree flatten
  into-Inserted h key row entries children i c rec pk ih b e at here t room =
      let (c', r, t', new) =
        ih c t room (child-IsGood P less eq i entries children c b.counts here b.good) in
      (
        node false entries (set_child i c' children),
        rw (here, into_child, r) refl,
        (
          refl,
          b.few,
          count-set i c' children ∙ b.counts,
          AllNodes-set (IsTree h) i c' children t' b.trees,
        ),
        rw (← e) (
            weave-into o key row entries children c c' pk b.good.keys b.good.sorted (rw e at)
              b.counts (rw e here) new),
      )

  child_at-set_insert :
      (i : ℕ) (children : Nodes K) (c l r : Node K)
      → child_at i children ≡ some c
      → (child_at i (insert_child (suc i) r (set_child i l children)) ≡ some l)
        × (child_at (suc i) (insert_child (suc i) r (set_child i l children)) ≡ some r)
  child_at-set_insert i nil c l r at = absurd (ground (arith, at))
  child_at-set_insert zero (cons d cs) c l r at = (refl, refl)
  child_at-set_insert (suc i) (cons d cs) c l r at = child_at-set_insert i cs c l r at

  split-IsBranch :
      (h i : ℕ) (entries : Entries K) (children : Nodes K) (c : Node K) (mid : K × List ℕ)
      → length entries < 31
      → i ≤ length entries
      → IsBranch h entries children
      → Splits h i false entries children c mid
      → IsBranch h
          (insert_at i mid entries)
          (insert_child (suc i) (right_half c) (set_child i (left_half c) children))
  split-IsBranch h i entries children c mid room below b s =
      let l = length-insert_at i mid entries below in
      record {
        few = omega (arith, l);
        counts = omega (arith, l, s.counts, b.counts);
        trees = s.trees;
        good = rw s.same b.good;
      }

  after_split-Inserted :
      (h : ℕ) (key : K) (row : ℕ) (entries : Entries K) (children : Nodes K) (c : Node K)
      (mid : K × List ℕ) (rec : Node K → Option (Node K))
      → P key
      → Inserts P less eq h key row rec
      → length entries < 31
      → IsBranch h entries children
      → is_at less eq (lower_bound less eq key entries) key entries ≡ false
      → child_at (lower_bound less eq key entries) children ≡ some c
      → Splits h (lower_bound less eq key entries) false entries children c mid
      → Inserted P less eq (suc h) key row (weave entries (flatten_all children)) (
          after_split less eq rec
            (lower_bound less eq key entries)
            key
            row
            (split_at (lower_bound less eq key entries) c mid false entries children))
  after_split-Inserted h key row entries children c mid rec pk ih room b at here s =
      let i = lower_bound less eq key entries in
      let below = lower_bound-le less eq key entries in
      let b' = split-IsBranch h i entries children c mid room below b s in
      let found = get_elem?-insert_self i mid entries below in
      let moved = lower_bound-insert_at less eq key entries mid in
      let self = is_at-insert_self less eq i key entries mid below in
      let kids = child_at-set_insert i children c (left_half c) (right_half c) here in
      rw (← s.same) (elim (Bool-cases (less mid.0 key)) [
        | inl l ↦
            rw (found, after_split, l)
              (into-Inserted h key row _ _ (suc i) (right_half c) rec pk ih b' (rw l at moved)
                (is_at-insert_suc less eq i key entries mid below ∙ at) kids.1 s.right.0
                (omega (arith, s.right.1)))
        | inr nl ↦
            let stays : lower_bound less eq key (insert_at i mid entries) ≡ i = rw nl at moved in
            elim (Bool-cases (eq mid.0 key)) [
              | inl e ↦
                  let done =
                    push-Inserted h key row (insert_at i mid entries) _ pk b'
                      (rw stays (self ∙ e)) in
                  rw (found, after_split, nl, e) (rw stays at done)
              | inr ne ↦
                  rw (found, after_split, nl, ne)
                    (into-Inserted h key row _ _ i (left_half c) rec pk ih b' stays (self ∙ ne)
                      kids.0 s.left.0 (omega (arith, s.left.1)))
            ]
      ])

  leaf-Inserted :
      (fuel : ℕ) (key : K) (row : ℕ) (entries : Entries K)
      → P key
      → length entries < 31
      → IsGood P less eq (weave entries [])
      → Inserted P less eq 0 key row
          (weave entries [])
          (insert_non_full less eq (suc fuel) key row (node true entries nil))
  unfolding insert_non_full IsTree flatten
  leaf-Inserted fuel key row entries pk room g =
      let i = lower_bound less eq key entries in
      let below = lower_bound-le less eq key entries in
      elim (Bool-cases (is_at less eq i key entries)) [
        | inl at ↦ rw at (
          node true (push_row i row entries) nil,
          refl,
          (refl, omega (arith, length-push_row i row entries), tt),
          weave-push o key row entries [] pk g.keys g.sorted at,
        )
        | inr at ↦ rw at (
          node true (insert_at i (key, row ∷ []) entries) nil,
          refl,
          (refl, omega (arith, length-insert_at i (key, row ∷ []) entries below), tt),
          weave-leaf o key row entries at,
        )
      ]

  branch-Inserted :
      (fuel h : ℕ) (key : K) (row : ℕ) (entries : Entries K) (children : Nodes K)
      → P key
      → Inserts P less eq h key row (insert_non_full less eq fuel key row)
      → length entries < 31
      → IsBranch h entries children
      → Inserted P less eq
          (suc h)
          key
          row
          (weave entries (flatten_all children))
          (insert_non_full less eq (suc fuel) key row (node false entries children))
  unfolding insert_non_full
  branch-Inserted fuel h key row entries children pk ih room b =
      let i = lower_bound less eq key entries in
      let below = lower_bound-le less eq key entries in
      let (c, here, t) =
        child_at-some (IsTree h) i children (omega (arith, b.counts, below)) b.trees in
      elim (Bool-cases (is_at less eq i key entries)) [
        | inl at ↦ rw at (push-Inserted h key row entries children pk b at)
        | inr at ↦ elim (Bool-cases (size c == max_keys)) [
          | inl full ↦
              let (mid, s) =
                split_child-Splits h i false entries children c below here
                  ((==_iff (size c) 31).0 full) t b.counts b.trees in
              rw (at, is_full_at, here, full, s.split)
                (after_split-Inserted h key row entries children c mid _ pk ih room b at here s)
          | inr open' ↦
              rw (at, is_full_at, here, open')
                (into-Inserted h key row entries children i c _ pk ih b refl at here t
                  (ground (arith, open', size-le h c t)))
        ]
      ]

  -- With fuel above the height, an insertion below a node that is not full ends, keeps the tree and
  -- its height, and does to the entries what `upsert` does.
  pub insert_non_full-Inserted :
      (fuel h : ℕ) (key : K) (row : ℕ) (n : Node K)
      → P key
      → h < fuel
      → IsTree h n
      → size n < 31
      → IsGood P less eq (flatten n)
      → Inserted P less eq h key row (flatten n) (insert_non_full less eq fuel key row n)
  unfolding flatten IsTree
  insert_non_full-Inserted zero h key row n pk l t room g = absurd (omega (arith, l))
  insert_non_full-Inserted (suc fuel) zero key row (node true entries nil) pk l t room g =
      leaf-Inserted fuel key row entries pk room g
  insert_non_full-Inserted (suc fuel) zero key row (node true entries (cons c cs)) pk l t room g =
      absurd t.2
  insert_non_full-Inserted (suc fuel) zero key row (node false entries children) pk l t room g =
      absurd (ground (arith, t.0))
  insert_non_full-Inserted (suc fuel) (suc h) key row (node true entries children) pk l t room g =
      absurd (ground (arith, t.0))
  insert_non_full-Inserted (suc fuel) (suc h) key row (node false entries children) pk l t room g =
      branch-Inserted fuel h key row entries children pk
        (λ c tc rc gc. insert_non_full-Inserted fuel h key row c pk (omega (arith, l)) tc rc gc)
        room (record { few = t.1; counts = t.2; trees = t.3; good = g })
