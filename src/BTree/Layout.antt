-- ===== src/BTree/Layout.antt =====
-- The shape of the trees of core/btree_index.cc, and the entries of a tree in order.
use custom_sql_database.Prelude.{
  All-append_left, All-append_right, ℕ, zero, suc, ◌+◌, ◌≤◌, ◌<◌, ◌≡◌, refl, ap, Bool, true, false,
  some, List, [], ◌∷◌, ◌++◌, arith, length, inl, inr, ◌⊎◌,
}
use custom_sql_database.BTree.Node.{
  Node, Nodes, node, nil, cons, child_at, set_child, insert_child, take_nodes, drop_nodes,
}
use custom_sql_database.BTree.Entries.{Entries, IsSorted, AllBelow}

-- The entries of a node between those of its children.
unfoldable pub weave : {K : Type 0} → Entries K → List (Entries K) → Entries K
weave [] [] = []
weave [] (f ∷ fs) = f
weave (e ∷ entries) [] = e ∷ weave entries []
weave (e ∷ entries) (f ∷ fs) = f ++ e ∷ weave entries fs

unfoldable mutual
  pub flatten : {K : Type 0} → Node K → Entries K
  flatten (node leaf entries children) = weave entries (flatten_all children)

  pub flatten_all : {K : Type 0} → Nodes K → List (Entries K)
  flatten_all nil = []
  flatten_all (cons c cs) = flatten c ∷ flatten_all cs

abbrev pub count : {K : Type 0} → Nodes K → ℕ
count nil = 0
count (cons c cs) = suc (count cs)

abbrev pub AllNodes : {K : Type 0} → (Node K → Type 0) → Nodes K → Type 0
AllNodes P nil = Unit
AllNodes P (cons c cs) = P c × AllNodes P cs

abbrev pub IsNil : {K : Type 0} → Nodes K → Type 0
IsNil nil = Unit
IsNil (cons c cs) = ⊥

-- A tree of `h` levels above the leaves: every leaf is at the same depth, a node has at most 31
-- keys, and one more child than keys unless it is a leaf.
unfoldable pub IsTree : {K : Type 0} → ℕ → Node K → Type 0
IsTree zero (node leaf entries children) = (leaf ≡ true) × (length entries ≤ 31) × IsNil children
IsTree (suc h) (node leaf entries children) =
    (leaf ≡ false)
    × (length entries ≤ 31)
    × (count children ≡ length entries + 1)
    × AllNodes (IsTree h) children

pub weave-nil : {K : Type 0} (entries : Entries K) → weave entries [] ≡ entries
unfolding weave
weave-nil [] = refl
weave-nil (e ∷ entries) = ap (◌∷◌ e) (weave-nil entries)

module _ {K : Type 0} (less eq : K → K → Bool) where
  pub IsSorted-right : (xs ys : Entries K) → IsSorted less eq (xs ++ ys) → IsSorted less eq ys
  IsSorted-right [] ys s = s
  IsSorted-right (x ∷ xs) ys s = IsSorted-right xs ys s.1

  pub IsSorted-left : (xs ys : Entries K) → IsSorted less eq (xs ++ ys) → IsSorted less eq xs
  IsSorted-left [] ys s = tt
  IsSorted-left (x ∷ xs) ys s =
      (All-append_left (λ e. less x.0 e.0 ≡ true) xs ys s.0, IsSorted-left xs ys s.1)

  -- What stands before an entry is below it.
  pub IsSorted-below :
      (xs ys : Entries K) (e : K × List ℕ)
      → IsSorted less eq (xs ++ e ∷ ys)
      → AllBelow less eq e.0 xs
  IsSorted-below [] ys e s = tt
  IsSorted-below (x ∷ xs) ys e s =
      ((All-append_right (λ d. less x.0 d.0 ≡ true) xs (e ∷ ys) s.0).0, IsSorted-below xs ys e s.1)

-- Children: those of a tree are trees, also behind the changes of the vectors.
module _ {K : Type 0} (P : Node K → Type 0) where
  pub AllNodes-set :
      (i : ℕ) (c : Node K) (cs : Nodes K) → P c → AllNodes P cs → AllNodes P (set_child i c cs)
  AllNodes-set i c nil p h = tt
  AllNodes-set zero c (cons d cs) p h = (p, h.1)
  AllNodes-set (suc i) c (cons d cs) p h = (h.0, AllNodes-set i c cs p h.1)

  pub AllNodes-insert :
      (i : ℕ) (c : Node K) (cs : Nodes K) → P c → AllNodes P cs → AllNodes P (insert_child i c cs)
  AllNodes-insert zero c cs p h = (p, h)
  AllNodes-insert (suc i) c nil p h = tt
  AllNodes-insert (suc i) c (cons d cs) p h = (h.0, AllNodes-insert i c cs p h.1)

  pub AllNodes-take : (n : ℕ) (cs : Nodes K) → AllNodes P cs → AllNodes P (take_nodes n cs)
  AllNodes-take zero cs h = tt
  AllNodes-take (suc n) nil h = tt
  AllNodes-take (suc n) (cons c cs) h = (h.0, AllNodes-take n cs h.1)

  pub AllNodes-drop : (n : ℕ) (cs : Nodes K) → AllNodes P cs → AllNodes P (drop_nodes n cs)
  AllNodes-drop zero cs h = h
  AllNodes-drop (suc n) nil h = tt
  AllNodes-drop (suc n) (cons c cs) h = AllNodes-drop n cs h.1

  -- An index below the number of children has a child.
  pub child_at-some :
      (i : ℕ) (cs : Nodes K)
      → i < count cs
      → AllNodes P cs
      → (c : Node K) × (child_at i cs ≡ some c) × P c
  child_at-some i nil l h = absurd (omega (arith, l))
  child_at-some zero (cons c cs) l h = (c, refl, h.0)
  child_at-some (suc i) (cons c cs) l h = child_at-some i cs (omega (arith, l)) h.1

module _ {K : Type 0} where
  pub count-set : (i : ℕ) (c : Node K) (cs : Nodes K) → count (set_child i c cs) ≡ count cs
  count-set i c nil = refl
  count-set zero c (cons d cs) = refl
  count-set (suc i) c (cons d cs) = ap suc (count-set i c cs)

  pub count-insert :
      (i : ℕ) (c : Node K) (cs : Nodes K)
      → i ≤ count cs
      → count (insert_child i c cs) ≡ count cs + 1
  count-insert zero c cs l = omega arith
  count-insert (suc i) c nil l = absurd (omega (arith, l))
  count-insert (suc i) c (cons d cs) l = omega (arith, count-insert i c cs (omega (arith, l)))

  pub count-take : (n : ℕ) (cs : Nodes K) → n ≤ count cs → count (take_nodes n cs) ≡ n
  count-take zero cs l = refl
  count-take (suc n) nil l = absurd (omega (arith, l))
  count-take (suc n) (cons c cs) l = omega (arith, count-take n cs (omega (arith, l)))

  pub count-drop :
      (n : ℕ) (cs : Nodes K) → (count (drop_nodes n cs) + n ≡ count cs) ⊎ (count cs < n)
  count-drop zero cs = inl (omega arith)
  count-drop (suc n) nil = inr (omega arith)
  count-drop (suc n) (cons c cs) = elim (count-drop n cs) [
    | inl e ↦ inl (omega (arith, e))
    | inr l ↦ inr (omega (arith, l))
  ]
