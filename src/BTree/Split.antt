-- ===== src/BTree/Split.antt =====
-- `split_child` of core/btree_index.cc: the tree keeps its shape and its entries.
use mathlib.Core.List.{append_assoc}
use custom_sql_database.Prelude.{
  ℕ, zero, suc, ◌+◌, ◌≤◌, ◌<◌, ◌≡◌, refl, sym, ap, ◌∙◌, Bool, true, false, some, List, [], ◌∷◌,
  ◌++◌, arith, length, length-take, length-drop, take, drop, get_elem?, inl, inr,
}
use custom_sql_database.BTree.Node.{
  Node, Nodes, node, nil, cons, child_at, set_child, insert_child, take_nodes, drop_nodes, size,
  insert_at, left_half, right_half, middle, split_at, split_child,
}
use custom_sql_database.BTree.Entries.{Entries}
use custom_sql_database.BTree.Layout.{
  weave, weave-nil, flatten, flatten_all, count, AllNodes, IsTree, AllNodes-set, AllNodes-insert,
  AllNodes-take, AllNodes-drop, count-set, count-insert, count-take, count-drop,
}

pub length-insert_at :
    {A : Type 0} (i : ℕ) (x : A) (xs : List A)
    → i ≤ length xs
    → length (insert_at i x xs) ≡ length xs + 1
length-insert_at zero x xs l = omega arith
length-insert_at (suc i) x [] l = absurd (omega (arith, l))
length-insert_at (suc i) x (y ∷ xs) l = omega (arith, length-insert_at i x xs (omega (arith, l)))

get_elem?-some :
    {A : Type 0} (i : ℕ) (xs : List A) → i < length xs → (x : A) × (get_elem? xs i ≡ some x)
get_elem?-some i [] l = absurd (omega (arith, l))
get_elem?-some zero (x ∷ xs) l = (x, refl)
get_elem?-some (suc i) (x ∷ xs) l = get_elem?-some i xs (omega (arith, l))

module _ {K : Type 0} where
  entries-halves :
      (m : ℕ) (entries : Entries K) (mid : K × List ℕ)
      → get_elem? entries m ≡ some mid
      → take m entries ++ mid ∷ drop (suc m) entries ≡ entries
  entries-halves m [] mid h = absurd (ground (arith, h))
  entries-halves zero (e ∷ entries) mid h = ground (arith, h)
  entries-halves (suc m) (e ∷ entries) mid h = ap (◌∷◌ e) (entries-halves m entries mid h)

  weave-halves :
      (m : ℕ) (entries : Entries K) (children : Nodes K) (mid : K × List ℕ)
      → get_elem? entries m ≡ some mid
      → count children ≡ length entries + 1
      → weave (take m entries) (flatten_all (take_nodes (suc m) children))
          ++ mid ∷ weave (drop (suc m) entries) (flatten_all (drop_nodes (suc m) children))
        ≡ weave entries (flatten_all children)
  unfolding weave flatten
  weave-halves m [] children mid h l = absurd (ground (arith, h))
  weave-halves m (e ∷ entries) nil mid h l = absurd (omega (arith, l))
  weave-halves zero (e ∷ entries) (cons c cs) mid h l = ground (arith, h)
  weave-halves (suc m) (e ∷ entries) (cons c cs) mid h l =
      append_assoc (flatten c) _ _
      ∙ ap (λ rest. flatten c ++ e ∷ rest) (weave-halves m entries cs mid h (omega (arith, l)))

  -- The entries of a full child are those of its halves, with the middle one between them.
  flatten-halves :
      (h : ℕ) (c : Node K) (mid : K × List ℕ)
      → IsTree h c
      → middle c ≡ some mid
      → flatten (left_half c) ++ mid ∷ flatten (right_half c) ≡ flatten c
  unfolding IsTree flatten
  flatten-halves zero (node true entries nil) mid t m =
      rw (weave-nil, weave-nil, weave-nil) (entries-halves 15 entries mid m)
  flatten-halves zero (node true entries (cons c cs)) mid t m = absurd t.2
  flatten-halves zero (node false entries children) mid t m = absurd (ground (arith, t.0))
  flatten-halves (suc h) (node true entries children) mid t m = absurd (ground (arith, t.0))
  flatten-halves (suc h) (node false entries children) mid t m =
      weave-halves 15 entries children mid m t.2

  weave-split :
      (i : ℕ) (entries : Entries K) (children : Nodes K) (c left right : Node K) (mid : K × List ℕ)
      → child_at i children ≡ some c
      → flatten left ++ mid ∷ flatten right ≡ flatten c
      → count children ≡ length entries + 1
      → weave
          (insert_at i mid entries)
          (flatten_all (insert_child (suc i) right (set_child i left children)))
        ≡ weave entries (flatten_all children)
  unfolding weave flatten
  weave-split i entries nil c left right mid at halves l = absurd (omega (arith, l))
  weave-split zero [] (cons d nil) c left right mid at halves l =
      ground (arith, at, halves, λ (e : d ≡ c). ap flatten e)
  weave-split zero [] (cons d (cons d' cs)) c left right mid at halves l = absurd (omega (arith, l))
  weave-split zero (e ∷ entries) (cons d cs) c left right mid at halves l =
      let same : d ≡ c = ground (arith, at) in
      sym (append_assoc (flatten left) (mid ∷ flatten right) (e ∷ weave entries (flatten_all cs)))
      ∙ ap (λ f. f ++ e ∷ weave entries (flatten_all cs)) (halves ∙ ap flatten (sym same))
  weave-split (suc i) [] (cons d nil) c left right mid at halves l = absurd (ground (arith, at))
  weave-split (suc i) [] (cons d (cons d' cs)) c left right mid at halves l =
      absurd (omega (arith, l))
  weave-split (suc i) (e ∷ entries) (cons d cs) c left right mid at halves l =
      ap (λ rest. flatten d ++ e ∷ rest)
        (weave-split i entries cs c left right mid at halves (omega (arith, l)))

  -- The halves of a full tree are trees with 15 keys each.
  left_half-IsTree :
      (h : ℕ) (c : Node K)
      → IsTree h c
      → size c ≡ 31
      → IsTree h (left_half c) × (size (left_half c) ≡ 15)
  unfolding IsTree
  left_half-IsTree zero (node true entries children) t full =
      let l : length (take 15 entries) ≡ 15 = omega (arith, length-take 15 entries, full) in
      ((refl, omega (arith, l), t.2), l)
  left_half-IsTree zero (node false entries children) t full = absurd (ground (arith, t.0))
  left_half-IsTree (suc h) (node true entries children) t full = absurd (ground (arith, t.0))
  left_half-IsTree (suc h) (node false entries children) t full =
      let l : length (take 15 entries) ≡ 15 = omega (arith, length-take 15 entries, full) in
      (
        (
          refl,
          omega (arith, l),
          omega (arith, l, count-take 16 children (omega (arith, t.2, full))),
          AllNodes-take (IsTree h) 16 children t.3,
        ),
        l,
      )

  right_half-IsTree :
      (h : ℕ) (c : Node K)
      → IsTree h c
      → size c ≡ 31
      → IsTree h (right_half c) × (size (right_half c) ≡ 15)
  unfolding IsTree
  right_half-IsTree zero (node true entries children) t full =
      let l : length (drop 16 entries) ≡ 15 = omega (arith, length-drop 16 entries, full) in
      ((refl, omega (arith, l), tt), l)
  right_half-IsTree zero (node false entries children) t full = absurd (ground (arith, t.0))
  right_half-IsTree (suc h) (node true entries children) t full = absurd (ground (arith, t.0))
  right_half-IsTree (suc h) (node false entries children) t full =
      let l : length (drop 16 entries) ≡ 15 = omega (arith, length-drop 16 entries, full) in
      (
        (
          refl,
          omega (arith, l),
          elim (count-drop 16 children) [
            | inl e ↦ omega (arith, l, e, t.2, full)
            | inr few ↦ absurd (omega (arith, few, t.2, full))
          ],
          AllNodes-drop (IsTree h) 16 children t.3,
        ),
        l,
      )

  middle-some : (c : Node K) → size c ≡ 31 → (mid : K × List ℕ) × (middle c ≡ some mid)
  middle-some (node leaf entries children) full = get_elem?-some 15 entries (omega (arith, full))

-- What a split of children[i] leaves.
pub record Splits {K : Type 0} (h i : ℕ) (leaf : Bool) (entries : Entries K) (children : Nodes K)
    (c : Node K) (mid : K × List ℕ) : Type 0 where
  pub split :
      split_child i (node leaf entries children) ≡ some (split_at i c mid leaf entries children)
  pub left : IsTree h (left_half c) × (size (left_half c) ≡ 15)
  pub right : IsTree h (right_half c) × (size (right_half c) ≡ 15)
  pub counts :
      count (insert_child (suc i) (right_half c) (set_child i (left_half c) children))
      ≡ count children + 1
  pub trees :
      AllNodes (IsTree h) (insert_child (suc i) (right_half c) (set_child i (left_half c) children))
  pub same :
      weave
        (insert_at i mid entries)
        (flatten_all (insert_child (suc i) (right_half c) (set_child i (left_half c) children)))
      ≡ weave entries (flatten_all children)

pub split_child-Splits :
    {K : Type 0} (h i : ℕ) (leaf : Bool) (entries : Entries K) (children : Nodes K) (c : Node K)
    → i ≤ length entries
    → child_at i children ≡ some c
    → size c ≡ 31
    → IsTree h c
    → count children ≡ length entries + 1
    → AllNodes (IsTree h) children
    → (mid : K × List ℕ) × Splits h i leaf entries children c mid
unfolding split_child
split_child-Splits h i leaf entries children c below at full t l trees =
    let (mid, m) = middle-some c full in
    let left = left_half-IsTree h c t full in
    let right = right_half-IsTree h c t full in
    (
      mid,
      record {
        split = rw (at, split_child, m) refl;
        left = left;
        right = right;
        counts =
            count-insert (suc i) (right_half c) (set_child i (left_half c) children)
              (omega (arith, l, count-set i (left_half c) children))
            ∙ ap (λ n. n + 1) (count-set i (left_half c) children);
        trees =
            AllNodes-insert (IsTree h) (suc i) (right_half c) (set_child i (left_half c) children)
              right.0 (AllNodes-set (IsTree h) i (left_half c) children left.0 trees);
        same =
            weave-split i entries children c (left_half c) (right_half c) mid at
              (flatten-halves h c mid t m) l;
      },
    )
