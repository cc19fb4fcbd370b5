-- ===== src/BTree/Find.antt =====
-- The searches of core/btree_index.cc on a sorted tree: a lookup reads the rows of the key, and a
-- scan reads the rows of the keys that it takes, in order.
use custom_sql_database.Prelude.{
  All-append_left, All-append_right, ℕ, zero, suc, ◌+◌, ◌≡◌, refl, sym, ap, ◌∙◌, Bool, true, false,
  List, [], ◌∷◌, ◌++◌, arith, length, get_elem?, if◌then◌else◌, All, Bool-cases, inl, inr,
}
use custom_sql_database.BTree.Node.{Node, Nodes, node, nil, cons, lower_bound, is_at}
use custom_sql_database.BTree.Search.{collect_equal, collect_equal_all, rows_at, or_nothing}
use custom_sql_database.BTree.Entries.{
  Entries, AllKeys, AllAbove, AllBelow, rows_of, rows_of-above, below_trans, above_trans,
}
use custom_sql_database.Types.Order.{IsOrder}
use custom_sql_database.BTree.Layout.{
  weave, weave-nil, flatten, flatten_all, count, AllNodes, IsTree, IsSorted-left, IsSorted-right,
  IsSorted-below,
}
use custom_sql_database.BTree.Insert.{IsGood}

module _ {K : Type 0} (P : K → Type 0) (less eq : K → K → Bool) where
  -- The parts of good entries around one of them.
  pub record IsParted (k : K) (f rest : Entries K) : Type 0 where
    pub left : IsGood P less eq f
    pub right : IsGood P less eq rest
    pub here : P k
    pub below : AllBelow less eq k f
    pub above : AllAbove less eq k rest

  pub good-IsParted :
      (k : K) (rows : List ℕ) (f rest : Entries K)
      → IsGood P less eq (f ++ (k, rows) ∷ rest)
      → IsParted k f rest
  good-IsParted k rows f rest g =
      let ks = All-append_right (λ e. P e.0) f ((k, rows) ∷ rest) g.keys in
      let ss = IsSorted-right less eq f ((k, rows) ∷ rest) g.sorted in
      record {
        left = record {
          keys = All-append_left (λ e. P e.0) f ((k, rows) ∷ rest) g.keys;
          sorted = IsSorted-left less eq f ((k, rows) ∷ rest) g.sorted;
        };
        right = record { keys = ks.1; sorted = ss.1 };
        here = ks.0;
        below = IsSorted-below less eq f rest (k, rows) g.sorted;
        above = ss.0;
      }

-- The lists of entries behind the children.
abbrev pub AllGood :
    {K : Type 0} → (K → Type 0) → (K → K → Bool) → (K → K → Bool) → List (Entries K) → Type 0
AllGood P less eq fs = All (IsGood P less eq) fs

module _ {K : Type 0} {P : K → Type 0} {less eq : K → K → Bool} (o : IsOrder P less eq) where
  rows_of-behind :
      (key : K) (f ys : Entries K)
      → P key
      → AllKeys P f
      → AllBelow less eq key f
      → rows_of less eq key (f ++ ys) ≡ rows_of less eq key ys
  unfolding rows_of
  rows_of-behind key [] ys pk ps h = refl
  rows_of-behind key ((c, rows) ∷ f) ys pk ps h = ground (
    arith,
    rows_of-behind key f ys pk ps.1 h.1,
    h,
    o.eq_iff c key ps.0 pk,
    o.less_irrefl key pk,
    λ (e : c ≡ key). ap (λ k. less k key) e,
  )

  rows_of-before :
      (key : K) (f ys : Entries K)
      → rows_of less eq key ys ≡ []
      → rows_of less eq key (f ++ ys) ≡ rows_of less eq key f
  unfolding rows_of
  rows_of-before key [] ys h = h
  rows_of-before key ((c, rows) ∷ f) ys h = ground (arith, rows_of-before key f ys h)

  -- The rows behind one step of the walk.
  rows_of-less :
      (key k : K) (rows : List ℕ) (f rest : Entries K)
      → P key
      → IsParted P less eq k f rest
      → less k key ≡ true
      → rows_of less eq key (f ++ (k, rows) ∷ rest) ≡ rows_of less eq key rest
  unfolding rows_of
  rows_of-less key k rows f rest pk p l =
      rows_of-behind key f ((k, rows) ∷ rest) pk p.left.keys
        (below_trans o k key f p.here pk p.left.keys l p.below)
      ∙ ground (
        arith,
        l,
        o.eq_iff k key p.here pk,
        o.less_irrefl key pk,
        λ (e : k ≡ key). ap (λ c. less c key) e,
      )

  rows_of-equal :
      (key k : K) (rows : List ℕ) (f rest : Entries K)
      → P key
      → IsParted P less eq k f rest
      → eq k key ≡ true
      → rows_of less eq key (f ++ (k, rows) ∷ rest) ≡ rows
  unfolding rows_of
  rows_of-equal key k rows f rest pk p e =
      let same : k ≡ key = (o.eq_iff k key p.here pk).0 e in
      rows_of-behind key f ((k, rows) ∷ rest) pk p.left.keys (rw (← same) p.below) ∙ rw e refl

  rows_of-greater :
      (key k : K) (rows : List ℕ) (f rest : Entries K)
      → P key
      → IsParted P less eq k f rest
      → less k key ≡ false
      → eq k key ≡ false
      → rows_of less eq key (f ++ (k, rows) ∷ rest) ≡ rows_of less eq key f
  rows_of-greater key k rows f rest pk p nl ne =
      let up = o.less_total k key p.here pk nl ne in
      rows_of-before key f ((k, rows) ∷ rest) (
        rows_of-above o key ((k, rows) ∷ rest) pk (p.here, p.right.keys)
          (up, above_trans o key k rest pk p.here p.right.keys up p.above))

  -- What the lookup reads in one node, by the rows of the children.
  abbrev read_node : K → Entries K → List (List ℕ) → List ℕ
  read_node key entries below =
      if is_at less eq (lower_bound less eq key entries) key entries
      then rows_at (lower_bound less eq key entries) entries
      else or_nothing (get_elem? below (lower_bound less eq key entries))

  abbrev all_rows : K → List (Entries K) → List (List ℕ)
  all_rows key [] = []
  all_rows key (f ∷ fs) = rows_of less eq key f ∷ all_rows key fs

  read_node-weave :
      (key : K) (entries : Entries K) (fs : List (Entries K))
      → P key
      → length fs ≡ length entries + 1
      → IsGood P less eq (weave entries fs)
      → read_node key entries (all_rows key fs) ≡ rows_of less eq key (weave entries fs)
  unfolding weave lower_bound
  read_node-weave key [] [] pk l g = absurd (omega (arith, l))
  read_node-weave key [] (f ∷ fs) pk l g = refl
  read_node-weave key (e ∷ entries) [] pk l g = absurd (omega (arith, l))
  read_node-weave key ((k, rows) ∷ entries) (f ∷ fs) pk l g =
      let p = good-IsParted P less eq k rows f (weave entries fs) g in
      elim (Bool-cases (less k key)) [
        | inl b ↦ rw b (
            read_node-weave key entries fs pk (omega (arith, l)) p.right
            ∙ sym (rows_of-less key k rows f (weave entries fs) pk p b))
        | inr nb ↦ elim (Bool-cases (eq k key)) [
          | inl e ↦ rw (nb, e) (sym (rows_of-equal key k rows f (weave entries fs) pk p e))
          | inr ne ↦ rw (nb, ne) (sym (rows_of-greater key k rows f (weave entries fs) pk p nb ne))
        ]
      ]

  read_leaf :
      (key : K) (entries : Entries K)
      → P key
      → IsGood P less eq entries
      → (if is_at less eq (lower_bound less eq key entries) key entries
          then rows_at (lower_bound less eq key entries) entries
          else [])
        ≡ rows_of less eq key entries
  unfolding lower_bound rows_of
  read_leaf key [] pk g = refl
  read_leaf key ((k, rows) ∷ entries) pk g =
      let p = good-IsParted P less eq k rows [] entries g in
      elim (Bool-cases (less k key)) [
        | inl b ↦
            rw b
              (read_leaf key entries pk p.right ∙ sym (rows_of-less key k rows [] entries pk p b))
        | inr nb ↦ elim (Bool-cases (eq k key)) [
          | inl e ↦ rw (nb, e) refl
          | inr ne ↦
              let up = o.less_total k key p.here pk nb ne in
              rw (nb, ne)
                (sym (
                  rows_of-above o key entries pk p.right.keys
                    (above_trans o key k entries pk p.here p.right.keys up p.above)))
        ]
      ]

  pub children-AllGood :
      (entries : Entries K) (fs : List (Entries K))
      → length fs ≡ length entries + 1
      → IsGood P less eq (weave entries fs)
      → AllGood P less eq fs
  unfolding weave
  children-AllGood [] [] l g = tt
  children-AllGood [] (f ∷ []) l g = (g, tt)
  children-AllGood [] (f ∷ f' ∷ fs) l g = absurd (omega (arith, l))
  children-AllGood (e ∷ entries) [] l g = tt
  children-AllGood ((k, rows) ∷ entries) (f ∷ fs) l g =
      let p = good-IsParted P less eq k rows f (weave entries fs) g in
      (p.left, children-AllGood entries fs (omega (arith, l)) p.right)

pub length-flatten_all :
    {K : Type 0} (children : Nodes K) → length (flatten_all children) ≡ count children
unfolding flatten
length-flatten_all nil = refl
length-flatten_all (cons c cs) = ap suc (length-flatten_all cs)

module _ {K : Type 0} {P : K → Type 0} {less eq : K → K → Bool} (o : IsOrder P less eq) where
  -- A lemma on the trees of a height serves all the children.
  all_children :
      (h : ℕ) (key : K) (children : Nodes K)
      → ((c : Node K)
          → IsTree h c
          → IsGood P less eq (flatten c)
          → collect_equal less eq key c ≡ rows_of less eq key (flatten c))
      → AllNodes (IsTree h) children
      → AllGood P less eq (flatten_all children)
      → collect_equal_all less eq key children ≡ all_rows o key (flatten_all children)
  unfolding collect_equal flatten
  all_children h key nil ih t g = refl
  all_children h key (cons c cs) ih t g = rw (ih c t.0 g.0, all_children h key cs ih t.1 g.1) refl

  -- On a sorted tree the lookup reads the rows of the key.
  pub collect_equal-rows_of :
      (h : ℕ) (key : K) (n : Node K)
      → P key
      → IsTree h n
      → IsGood P less eq (flatten n)
      → collect_equal less eq key n ≡ rows_of less eq key (flatten n)
  unfolding collect_equal flatten IsTree
  collect_equal-rows_of zero key (node true entries nil) pk t g =
      rw (weave-nil entries) (read_leaf o key entries pk (rw (weave-nil entries) at g))
  collect_equal-rows_of zero key (node true entries (cons c cs)) pk t g = absurd t.2
  collect_equal-rows_of zero key (node false entries children) pk t g = absurd (ground (arith, t.0))
  collect_equal-rows_of (suc h) key (node true entries children) pk t g =
      absurd (ground (arith, t.0))
  collect_equal-rows_of (suc h) key (node false entries children) pk t g =
      let l : length (flatten_all children) ≡ length entries + 1 =
        length-flatten_all children ∙ t.2 in
      rw
        (all_children h key children (λ c tc gc. collect_equal-rows_of h key c pk tc gc) t.3
          (children-AllGood o entries (flatten_all children) l g))
        (read_node-weave o key entries (flatten_all children) pk l g)
