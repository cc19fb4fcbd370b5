-- ===== src/BTree/Scan.antt =====
-- The scans of core/btree_index.cc on a sorted tree: they read the rows of the keys that they take,
-- in order.
use mathlib.Core.List.{append_assoc}
use custom_sql_database.Prelude.{
  ℕ, zero, suc, ◌+◌, ◌≡◌, refl, sym, ap, ◌∙◌, Bool, true, false, List, [], ◌∷◌, ◌++◌, arith, length,
  inl, inr, ◌⊎◌,
}
use custom_sql_database.BTree.Node.{Node, Nodes, node, nil, cons}
use custom_sql_database.BTree.Search.{
  Visit, takes, passes_over, stops, rest_of, scan_keys, scan, scan_all,
}
use custom_sql_database.BTree.Entries.{Entries, AllKeys, AllAbove}
use custom_sql_database.Types.Order.{IsOrder}
use custom_sql_database.BTree.Layout.{weave, weave-nil, flatten, flatten_all, AllNodes, IsTree}
use custom_sql_database.BTree.Insert.{IsGood}
use custom_sql_database.BTree.Find.{good-IsParted, AllGood, children-AllGood, length-flatten_all}

abbrev pub take_rows : Visit → List ℕ → List ℕ → List ℕ
take_rows takes rows rest = rows ++ rest
take_rows passes_over rows rest = rest
take_rows stops rows rest = rest

-- The rows of the entries that a scan takes.
unfoldable pub taken : {K : Type 0} → (K → Visit) → Entries K → List ℕ
taken visit [] = []
taken visit ((key, rows) ∷ entries) =
    let rest = taken visit entries in take_rows (visit key) rows rest

module _ {K : Type 0} (P : K → Type 0) (less eq : K → K → Bool) where
  -- Behind a key at which the scan stops it would take nothing.
  pub record IsMonotone (visit : K → Visit) : Type 0 where
    pub stopped : (a b : K) → P a → P b → less a b ≡ true → visit a ≡ stops → visit b ≡ takes → ⊥

take_rows-append :
    (v : Visit) (rows xs ys : List ℕ) → take_rows v rows (xs ++ ys) ≡ take_rows v rows xs ++ ys
take_rows-append takes rows xs ys = sym (append_assoc rows xs ys)
take_rows-append passes_over rows xs ys = refl
take_rows-append stops rows xs ys = refl

taken-append :
    {K : Type 0} (visit : K → Visit) (xs ys : Entries K)
    → taken visit (xs ++ ys) ≡ taken visit xs ++ taken visit ys
unfolding taken
taken-append visit [] ys = refl
taken-append visit ((k, rows) ∷ xs) ys =
    ap (take_rows (visit k) rows) (taken-append visit xs ys)
    ∙ take_rows-append (visit k) rows (taken visit xs) (taken visit ys)

abbrev all_taken : {K : Type 0} → (K → Visit) → List (Entries K) → List (List ℕ)
all_taken visit [] = []
all_taken visit (f ∷ fs) = taken visit f ∷ all_taken visit fs

Visit-cases : (v : Visit) → (v ≡ takes) ⊎ (v ≡ passes_over) ⊎ (v ≡ stops)
Visit-cases takes = inl refl
Visit-cases passes_over = inr (inl refl)
Visit-cases stops = inr (inr refl)

module _ {K : Type 0} {P : K → Type 0} {less eq : K → K → Bool} {visit : K → Visit}
    (o : IsOrder P less eq) (mono : IsMonotone P less eq visit) where
  -- Behind a stop nothing is taken.
  taken-stopped :
      (k : K) (entries : Entries K)
      → P k
      → AllKeys P entries
      → AllAbove less eq k entries
      → visit k ≡ stops
      → taken visit entries ≡ []
  unfolding taken
  taken-stopped k [] pk ps h stop = refl
  taken-stopped k ((c, rows) ∷ entries) pk ps h stop = elim (Visit-cases (visit c)) [
    | inl take' ↦ absurd (mono.stopped k c pk ps.0 h.0 stop take')
    | inr (inl pass) ↦ rw (pass, taken) (taken-stopped k entries pk ps.1 h.1 stop)
    | inr (inr stop') ↦ rw (stop', taken) (taken-stopped k entries pk ps.1 h.1 stop)
  ]

  scan_keys-branch :
      (entries : Entries K) (fs : List (Entries K))
      → length fs ≡ length entries + 1
      → IsGood P less eq (weave entries fs)
      → scan_keys visit false entries (all_taken visit fs) ≡ taken visit (weave entries fs)
  unfolding weave scan_keys taken
  scan_keys-branch [] [] l g = absurd (omega (arith, l))
  scan_keys-branch [] (f ∷ []) l g = refl
  scan_keys-branch [] (f ∷ f' ∷ fs) l g = absurd (omega (arith, l))
  scan_keys-branch (e ∷ entries) [] l g = absurd (omega (arith, l))
  scan_keys-branch ((k, rows) ∷ entries) (f ∷ fs) l g =
      let p = good-IsParted P less eq k rows f (weave entries fs) g in
      let ih = scan_keys-branch entries fs (omega (arith, l)) p.right in
      sym (
        taken-append visit f ((k, rows) ∷ weave entries fs)
        ∙ ap (λ r. taken visit f ++ r)
            (elim (Visit-cases (visit k)) [
              | inl t ↦ rw (t, taken, scan_keys) (ap (λ r. rows ++ r) (sym ih))
              | inr (inl t) ↦ rw (t, taken, scan_keys) (sym ih)
              | inr (inr t) ↦
                  rw (t, taken, scan_keys)
                    (taken-stopped k (weave entries fs) p.here p.right.keys p.above t)
            ]))

  scan_keys-leaf :
      (entries : Entries K) (below : List (List ℕ))
      → IsGood P less eq entries
      → scan_keys visit true entries below ≡ taken visit entries
  unfolding scan_keys taken
  scan_keys-leaf [] below g = refl
  scan_keys-leaf ((k, rows) ∷ entries) below g =
      let p = good-IsParted P less eq k rows [] entries g in
      let ih = scan_keys-leaf entries (rest_of below) p.right in
      elim (Visit-cases (visit k)) [
        | inl t ↦ rw (t, taken, scan_keys) (ap (λ r. rows ++ r) ih)
        | inr (inl t) ↦ rw t ih
        | inr (inr t) ↦
            rw (t, taken, scan_keys) (sym (taken-stopped k entries p.here p.right.keys p.above t))
      ]

  all_scans :
      (h : ℕ) (children : Nodes K)
      → ((c : Node K)
          → IsTree h c
          → IsGood P less eq (flatten c)
          → scan visit c ≡ taken visit (flatten c))
      → AllNodes (IsTree h) children
      → AllGood P less eq (flatten_all children)
      → scan_all visit children ≡ all_taken visit (flatten_all children)
  unfolding scan flatten
  all_scans h nil ih t g = refl
  all_scans h (cons c cs) ih t g = rw (ih c t.0 g.0, all_scans h cs ih t.1 g.1) refl

  -- On a sorted tree a scan reads the rows of the keys that it takes, in order.
  pub scan-taken :
      (h : ℕ) (n : Node K)
      → IsTree h n
      → IsGood P less eq (flatten n)
      → scan visit n ≡ taken visit (flatten n)
  unfolding scan flatten IsTree
  scan-taken zero (node true entries nil) t g =
      rw (weave-nil entries) (scan_keys-leaf entries [] (rw (weave-nil entries) at g))
  scan-taken zero (node true entries (cons c cs)) t g = absurd t.2
  scan-taken zero (node false entries children) t g = absurd (ground (arith, t.0))
  scan-taken (suc h) (node true entries children) t g = absurd (ground (arith, t.0))
  scan-taken (suc h) (node false entries children) t g =
      let l : length (flatten_all children) ≡ length entries + 1 =
        length-flatten_all children ∙ t.2 in
      rw
        (all_scans h children (λ c tc gc. scan-taken h c tc gc) t.3
          (children-AllGood o entries (flatten_all children) l g))
        (scan_keys-branch entries (flatten_all children) l g)
