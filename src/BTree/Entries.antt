-- ===== src/BTree/Entries.antt =====
-- The abstract view of an index: the entries in the order of their keys. `upsert` is what an
-- insertion does to them.
use custom_sql_database.Prelude.{
  ℕ, ◌≡◌, refl, ap, Bool, true, false, List, [], ◌∷◌, ◌++◌, arith, if◌then◌else◌, All, Bool-cases,
  inl, inr,
}
use custom_sql_database.Types.Order.{IsOrder}

abbrev pub Entries : Type 0 → Type 0
Entries K = List (K × List ℕ)

module _ {K : Type 0} (less eq : K → K → Bool) where
  -- The rows of the key.
  unfoldable pub rows_of : K → Entries K → List ℕ
  rows_of key [] = []
  rows_of key ((k, rows) ∷ entries) =
      let rest = rows_of key entries in if eq k key then rows else rest

  -- One more row for the key, in the order of the keys.
  unfoldable pub upsert : K → ℕ → Entries K → Entries K
  upsert key row [] = (key, row ∷ []) ∷ []
  upsert key row ((k, rows) ∷ entries) =
      let later = (k, rows) ∷ upsert key row entries in
      if less k key
      then later
      else if eq k key
      then (k, rows ++ row ∷ []) ∷ entries
      else (key, row ∷ []) ∷ (k, rows) ∷ entries

  -- Every key is above `low`; every key is below `high`.
  abbrev pub AllAbove : K → Entries K → Type 0
  AllAbove low entries = All (λ e. less low e.0 ≡ true) entries

  abbrev pub AllBelow : K → Entries K → Type 0
  AllBelow high entries = All (λ e. less e.0 high ≡ true) entries

  abbrev pub IsSorted : Entries K → Type 0
  IsSorted [] = Unit
  IsSorted (e ∷ entries) = AllAbove e.0 entries × IsSorted entries

-- Every key satisfies `P`.
abbrev pub AllKeys : {K : Type 0} → (K → Type 0) → Entries K → Type 0
AllKeys P entries = All (λ e. P e.0) entries

module _ {K : Type 0} {P : K → Type 0} {less eq : K → K → Bool} (o : IsOrder P less eq) where
  -- Above a greater key is above.
  pub above_trans :
      (a b : K) (entries : Entries K)
      → P a
      → P b
      → AllKeys P entries
      → less a b ≡ true
      → AllAbove less eq b entries
      → AllAbove less eq a entries
  above_trans a b [] pa pb ps h k = tt
  above_trans a b ((c, rows) ∷ entries) pa pb ps h k =
      (o.less_trans a b c pa pb ps.0 h k.0, above_trans a b entries pa pb ps.1 h k.1)

  pub below_trans :
      (a b : K) (entries : Entries K)
      → P a
      → P b
      → AllKeys P entries
      → less a b ≡ true
      → AllBelow less eq a entries
      → AllBelow less eq b entries
  below_trans a b [] pa pb ps h k = tt
  below_trans a b ((c, rows) ∷ entries) pa pb ps h k =
      (o.less_trans c a b ps.0 pa pb k.0 h, below_trans a b entries pa pb ps.1 h k.1)

  upsert-AllAbove :
      (a key : K) (row : ℕ) (entries : Entries K)
      → less a key ≡ true
      → AllAbove less eq a entries
      → AllAbove less eq a (upsert less eq key row entries)
  unfolding upsert
  upsert-AllAbove a key row [] h k = (h, tt)
  upsert-AllAbove a key row ((c, rows) ∷ entries) h k = elim (Bool-cases (less c key)) [
    | inl l ↦ rw l (k.0, upsert-AllAbove a key row entries h k.1)
    | inr nl ↦ elim (Bool-cases (eq c key)) [ inl e ↦ rw (nl, e) k | inr ne ↦ rw (nl, ne) (h, k) ]
  ]

  pub upsert-AllKeys :
      (key : K) (row : ℕ) (entries : Entries K)
      → P key
      → AllKeys P entries
      → AllKeys P (upsert less eq key row entries)
  unfolding upsert
  upsert-AllKeys key row [] h k = (h, tt)
  upsert-AllKeys key row ((c, rows) ∷ entries) h k = elim (Bool-cases (less c key)) [
    | inl l ↦ rw l (k.0, upsert-AllKeys key row entries h k.1)
    | inr nl ↦ elim (Bool-cases (eq c key)) [ inl e ↦ rw (nl, e) k | inr ne ↦ rw (nl, ne) (h, k) ]
  ]

  pub upsert-IsSorted :
      (key : K) (row : ℕ) (entries : Entries K)
      → P key
      → AllKeys P entries
      → IsSorted less eq entries
      → IsSorted less eq (upsert less eq key row entries)
  unfolding upsert
  upsert-IsSorted key row [] pk ps s = (tt, tt)
  upsert-IsSorted key row ((c, rows) ∷ entries) pk ps s = elim (Bool-cases (less c key)) [
    | inl l ↦
        rw l (upsert-AllAbove c key row entries l s.0, upsert-IsSorted key row entries pk ps.1 s.1)
    | inr nl ↦ elim (Bool-cases (eq c key)) [
      | inl e ↦ rw (nl, e) s
      | inr ne ↦
          let up = o.less_total c key ps.0 pk nl ne in
          rw (nl, ne) ((up, above_trans key c entries pk ps.0 ps.1 up s.0), s)
    ]
  ]

  -- Below every key there are no rows of the key.
  pub rows_of-above :
      (key : K) (entries : Entries K)
      → P key
      → AllKeys P entries
      → AllAbove less eq key entries
      → rows_of less eq key entries ≡ []
  unfolding rows_of
  rows_of-above key [] pk ps h = refl
  rows_of-above key ((c, rows) ∷ entries) pk ps h = ground (
    arith,
    o.eq_iff c key ps.0 pk,
    o.less_irrefl c ps.0,
    h,
    λ (e : c ≡ key). ap (λ k. less key k) e,
    o.less_irrefl key pk,
    rows_of-above key entries pk ps.1 h.1,
  )

  -- What an index gives for a key after an insertion.
  pub rows_of-upsert :
      (key q : K) (row : ℕ) (entries : Entries K)
      → P key
      → P q
      → AllKeys P entries
      → IsSorted less eq entries
      → rows_of less eq q (upsert less eq key row entries)
        ≡ (if eq key q then rows_of less eq q entries ++ row ∷ [] else rows_of less eq q entries)
  unfolding rows_of upsert
  rows_of-upsert key q row [] pk pq ps s = ground arith
  rows_of-upsert key q row ((c, rows) ∷ entries) pk pq ps s = elim (Bool-cases (less c key)) [
    | inl l ↦ ground (
      arith,
      l,
      rows_of-upsert key q row entries pk pq ps.1 s.1,
      o.eq_iff c q ps.0 pq,
      o.eq_iff key q pk pq,
      λ (e : c ≡ key). ap (λ k. less k key) e,
      o.less_irrefl key pk,
    )
    | inr nl ↦ elim (Bool-cases (eq c key)) [
      | inl e ↦
          ground (arith, nl, e, o.eq_iff c key ps.0 pk, o.eq_iff c q ps.0 pq, o.eq_iff key q pk pq)
      | inr ne ↦
          let up = o.less_total c key ps.0 pk nl ne in
          ground (
            arith,
            nl,
            ne,
            o.eq_iff key q pk pq,
            rows_of-above key ((c, rows) ∷ entries) pk ps
                (up, above_trans key c entries pk ps.0 ps.1 up s.0),
            λ (e : key ≡ q). ap (λ k. rows_of less eq k ((c, rows) ∷ entries)) e,
          )
    ]
  ]

  -- An insertion behind entries below the key, and before one above it.
  pub upsert-behind :
      (key : K) (row : ℕ) (xs ys : Entries K)
      → AllBelow less eq key xs
      → upsert less eq key row (xs ++ ys) ≡ xs ++ upsert less eq key row ys
  unfolding upsert
  upsert-behind key row [] ys h = refl
  upsert-behind key row ((c, rows) ∷ xs) ys h =
      rw h.0 (ap (◌∷◌ (c, rows)) (upsert-behind key row xs ys h.1))

  pub upsert-before :
      (key : K) (row : ℕ) (xs ys : Entries K) (e : K × List ℕ)
      → less e.0 key ≡ false
      → eq e.0 key ≡ false
      → upsert less eq key row (xs ++ e ∷ ys) ≡ upsert less eq key row xs ++ e ∷ ys
  unfolding upsert
  upsert-before key row [] ys e nl ne = ground (arith, nl, ne)
  upsert-before key row ((c, rows) ∷ xs) ys e nl ne =
      ground (arith, upsert-before key row xs ys e nl ne)
