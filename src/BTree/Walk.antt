-- ===== src/BTree/Walk.antt =====
-- The walk of core/btree_index.cc through one node: at the lower bound of a key, a change of the
-- node is the `upsert` of the key in the entries of the tree.
use custom_sql_database.Prelude.{
  All-append_left, All-append_right, ℕ, zero, suc, ◌+◌, ◌≤◌, ◌≡◌, refl, sym, ap, ◌∙◌, Bool, true,
  false, some, List, [], ◌∷◌, ◌++◌, arith, length, get_elem?, if◌then◌else◌, Bool-cases, inl, inr,
}
use custom_sql_database.BTree.Node.{
  Node, Nodes, nil, cons, child_at, set_child, insert_at, push_row, lower_bound, is_at,
}
use custom_sql_database.BTree.Entries.{
  Entries, IsSorted, AllKeys, AllBelow, upsert, upsert-behind, upsert-before, below_trans,
}
use custom_sql_database.Types.Order.{IsOrder}
use custom_sql_database.BTree.Layout.{
  weave, flatten, flatten_all, count, IsSorted-right, IsSorted-below,
}

module _ {K : Type 0} (less eq : K → K → Bool) where
  pub lower_bound-le :
      (key : K) (entries : Entries K) → lower_bound less eq key entries ≤ length entries
  unfolding lower_bound
  lower_bound-le key [] = omega arith
  lower_bound-le key ((k, rows) ∷ entries) = ground (arith, lower_bound-le key entries)

  -- An entry put at the lower bound, and the search after that.
  pub lower_bound-insert_at :
      (key : K) (entries : Entries K) (mid : K × List ℕ)
      → let i = lower_bound less eq key entries in
        lower_bound less eq key (insert_at i mid entries) ≡ (if less mid.0 key then suc i else i)
  unfolding lower_bound
  lower_bound-insert_at key [] mid = ground arith
  lower_bound-insert_at key ((k, rows) ∷ entries) mid =
      ground (arith, lower_bound-insert_at key entries mid)

  pub is_at-insert_self :
      (i : ℕ) (key : K) (entries : Entries K) (mid : K × List ℕ)
      → i ≤ length entries
      → is_at less eq i key (insert_at i mid entries) ≡ eq mid.0 key
  is_at-insert_self zero key entries mid l = refl
  is_at-insert_self (suc i) key [] mid l = absurd (omega (arith, l))
  is_at-insert_self (suc i) key (e ∷ entries) mid l =
      is_at-insert_self i key entries mid (omega (arith, l))

  pub is_at-insert_suc :
      (i : ℕ) (key : K) (entries : Entries K) (mid : K × List ℕ)
      → i ≤ length entries
      → is_at less eq (suc i) key (insert_at i mid entries) ≡ is_at less eq i key entries
  is_at-insert_suc zero key entries mid l = refl
  is_at-insert_suc (suc i) key [] mid l = absurd (omega (arith, l))
  is_at-insert_suc (suc i) key (e ∷ entries) mid l =
      is_at-insert_suc i key entries mid (omega (arith, l))

pub get_elem?-insert_self :
    {A : Type 0} (i : ℕ) (x : A) (xs : List A)
    → i ≤ length xs
    → get_elem? (insert_at i x xs) i ≡ some x
get_elem?-insert_self zero x xs l = refl
get_elem?-insert_self (suc i) x [] l = absurd (omega (arith, l))
get_elem?-insert_self (suc i) x (y ∷ xs) l = get_elem?-insert_self i x xs (omega (arith, l))

pub length-push_row :
    {K : Type 0} (i row : ℕ) (entries : Entries K)
    → length (push_row i row entries) ≡ length entries
length-push_row i row [] = refl
length-push_row zero row ((k, rows) ∷ entries) = refl
length-push_row (suc i) row (e ∷ entries) = ap suc (length-push_row i row entries)

module _ {K : Type 0} {P : K → Type 0} {less eq : K → K → Bool} (o : IsOrder P less eq) where
  -- What stands before an entry below the key, or equal to it, is below the key.
  before-below :
      (key k : K) (rows : List ℕ) (f rest : Entries K)
      → P key
      → AllKeys P (f ++ (k, rows) ∷ rest)
      → IsSorted less eq (f ++ (k, rows) ∷ rest)
      → less k key ≡ true
      → AllBelow less eq key f
  before-below key k rows f rest pk ps s l =
      let pk' = (All-append_right (λ e. P e.0) f ((k, rows) ∷ rest) ps).0 in
      below_trans o k key f pk' pk (All-append_left (λ e. P e.0) f ((k, rows) ∷ rest) ps) l
        (IsSorted-below less eq f rest (k, rows) s)

  -- Behind an entry below the key.
  walk-on :
      (key k : K) (row : ℕ) (rows : List ℕ) (f rest : Entries K)
      → P key
      → AllKeys P (f ++ (k, rows) ∷ rest)
      → IsSorted less eq (f ++ (k, rows) ∷ rest)
      → less k key ≡ true
      → upsert less eq key row (f ++ (k, rows) ∷ rest)
        ≡ f ++ (k, rows) ∷ upsert less eq key row rest
  unfolding upsert
  walk-on key k row rows f rest pk ps s l =
      upsert-behind o key row f ((k, rows) ∷ rest) (before-below key k rows f rest pk ps s l)
      ∙ ap (λ r. f ++ r) (rw l refl)

  pub weave-push :
      (key : K) (row : ℕ) (entries : Entries K) (fs : List (Entries K))
      → P key
      → AllKeys P (weave entries fs)
      → IsSorted less eq (weave entries fs)
      → is_at less eq (lower_bound less eq key entries) key entries ≡ true
      → weave (push_row (lower_bound less eq key entries) row entries) fs
        ≡ upsert less eq key row (weave entries fs)
  unfolding weave lower_bound upsert
  weave-push key row [] fs pk ps s at = absurd (ground (arith, at))
  weave-push key row ((k, rows) ∷ entries) [] pk ps s at = elim (Bool-cases (less k key)) [
    | inl l ↦ rw l (ap (◌∷◌ (k, rows)) (weave-push key row entries [] pk ps.1 s.1 (rw l at at)))
    | inr nl ↦ let e : eq k key ≡ true = rw nl at at in rw (nl, e) refl
  ]
  weave-push key row ((k, rows) ∷ entries) (f ∷ fs) pk ps s at = elim (Bool-cases (less k key)) [
    | inl l ↦
        let ps' = (All-append_right (λ e. P e.0) f ((k, rows) ∷ weave entries fs) ps).1 in
        let s' = (IsSorted-right less eq f ((k, rows) ∷ weave entries fs) s).1 in
        rw l (
          ap (λ r. f ++ (k, rows) ∷ r) (weave-push key row entries fs pk ps' s' (rw l at at))
          ∙ sym (walk-on key k row rows f (weave entries fs) pk ps s l))
    | inr nl ↦
        let e : eq k key ≡ true = rw nl at at in
        let pk' = (All-append_right (λ d. P d.0) f ((k, rows) ∷ weave entries fs) ps).0 in
        let same : k ≡ key = (o.eq_iff k key pk' pk).0 e in
        let below : AllBelow less eq key f =
          rw (← same) (IsSorted-below less eq f (weave entries fs) (k, rows) s) in
        rw nl (
          sym (
            upsert-behind o key row f ((k, rows) ∷ weave entries fs) below
            ∙ ap (λ r. f ++ r) (rw (nl, e) refl)))
  ]

  pub weave-leaf :
      (key : K) (row : ℕ) (entries : Entries K)
      → is_at less eq (lower_bound less eq key entries) key entries ≡ false
      → weave (insert_at (lower_bound less eq key entries) (key, row ∷ []) entries) []
        ≡ upsert less eq key row (weave entries [])
  unfolding weave lower_bound upsert
  weave-leaf key row [] at = refl
  weave-leaf key row ((k, rows) ∷ entries) at = elim (Bool-cases (less k key)) [
    | inl l ↦ rw l (ap (◌∷◌ (k, rows)) (weave-leaf key row entries (rw l at at)))
    | inr nl ↦ let ne : eq k key ≡ false = rw nl at at in rw (nl, ne) refl
  ]

  pub weave-into :
      (key : K) (row : ℕ) (entries : Entries K) (children : Nodes K) (c c' : Node K)
      → P key
      → AllKeys P (weave entries (flatten_all children))
      → IsSorted less eq (weave entries (flatten_all children))
      → is_at less eq (lower_bound less eq key entries) key entries ≡ false
      → count children ≡ length entries + 1
      → child_at (lower_bound less eq key entries) children ≡ some c
      → flatten c' ≡ upsert less eq key row (flatten c)
      → weave entries (flatten_all (set_child (lower_bound less eq key entries) c' children))
        ≡ upsert less eq key row (weave entries (flatten_all children))
  unfolding weave lower_bound flatten
  weave-into key row [] nil c c' pk ps s at l here new = absurd (omega (arith, l))
  weave-into key row [] (cons d nil) c c' pk ps s at l here new =
      let same : c ≡ d = ground (arith, here) in
      new ∙ ap (λ n. upsert less eq key row (flatten n)) same
  weave-into key row [] (cons d (cons d' cs)) c c' pk ps s at l here new = absurd (omega (arith, l))
  weave-into key row (e ∷ entries) nil c c' pk ps s at l here new = absurd (omega (arith, l))
  weave-into key row ((k, rows) ∷ entries) (cons d cs) c c' pk ps s at l here new =
      let rest = weave entries (flatten_all cs) in
      elim (Bool-cases (less k key)) [
        | inl b ↦
            let ps' = (All-append_right (λ e. P e.0) (flatten d) ((k, rows) ∷ rest) ps).1 in
            let s' = (IsSorted-right less eq (flatten d) ((k, rows) ∷ rest) s).1 in
            rw b (
              ap (λ r. flatten d ++ (k, rows) ∷ r)
                (weave-into key row entries cs c c' pk ps' s' (rw b at at) (omega (arith, l))
                  (rw b at here) new)
              ∙ sym (walk-on key k row rows (flatten d) rest pk ps s b))
        | inr nb ↦
            let ne : eq k key ≡ false = rw nb at at in
            let same : d ≡ c = ground (arith, rw nb at here) in
            rw nb (
              ap (λ f. f ++ (k, rows) ∷ rest)
                (new ∙ ap (λ n. upsert less eq key row (flatten n)) (sym same))
              ∙ sym (upsert-before o key row (flatten d) rest (k, rows) nb ne))
      ]
