-- ===== src/Executor/SetOperation/Sets.antt =====
-- The set operations of executor/set_operation_operator.cc on rows without floats, where `==` of
-- values is equality.
use custom_sql_database.Prelude.{
  ◌≡◌, inl, inr, refl, ap, Bool, true, false, not, ◌&&◌, ◌||◌, List, [], ◌∷◌, ◌++◌, arith, All,
  Bool-cases,
}
use custom_sql_database.Types.Value.{Value}
use custom_sql_database.Types.Compare.{Floats}
use custom_sql_database.Executor.Result.{QueryResult}
use custom_sql_database.Executor.RowKey.{Hashes, hash_row, is_row_equal, NoFloat, is_row_equal_iff}
use custom_sql_database.Executor.SetOperation.{
  Rows, finds, emit, execute_union_distinct, execute_intersect, execute_except,
  build_success_result,
}

abbrev pub Plain : List Value → Type 0
Plain row = All NoFloat row

abbrev pub ArePlain : Rows → Type 0
ArePlain rows = All Plain rows

module _ (fl : Floats) (hs : Hashes) where
  -- The row is one of the rows.
  unfoldable pub has : List Value → Rows → Bool
  has row [] = false
  has row (r ∷ rows) = is_row_equal fl r row || has row rows

  -- No row stands twice.
  abbrev pub AreDistinct : Rows → Type 0
  AreDistinct [] = Unit
  AreDistinct (r ∷ rows) = (has r rows ≡ false) × AreDistinct rows

  -- On plain rows the hash set finds what is there.
  finds-has :
      (row : List Value) (rows : Rows)
      → Plain row
      → ArePlain rows
      → finds fl hs row rows ≡ has row rows
  unfolding finds has
  finds-has row [] p ps = refl
  finds-has row (r ∷ rows) p ps = ground (
    arith,
    is_row_equal_iff fl r row ps.0 p,
    finds-has row rows p ps.1,
    λ (e : r ≡ row). ap (hash_row hs) e,
  )

  emit-ArePlain :
      (test : List Value → Bool) (rows seen : Rows)
      → ArePlain rows
      → ArePlain seen
      → ArePlain (emit fl hs test rows seen).0 × ArePlain (emit fl hs test rows seen).1
  unfolding emit
  emit-ArePlain test [] seen p s = (tt, s)
  emit-ArePlain test (r ∷ rows) seen p s =
      let (pushed0, pushed1) = emit-ArePlain test rows (r ∷ seen) p.1 (p.0, s) in
      let (passed0, passed1) = emit-ArePlain test rows seen p.1 s in
      elim (Bool-cases (test r && not (finds fl hs r seen))) [
        | inl e ↦ rw e ((p.0, pushed0), pushed1)
        | inr e ↦ rw e (passed0, passed1)
      ]

  -- What is emitted: the rows of the source that pass the test and were not emitted before.
  has-emit :
      (x : List Value) (test : List Value → Bool) (rows seen : Rows)
      → Plain x
      → ArePlain rows
      → ArePlain seen
      → has x (emit fl hs test rows seen).0 ≡ (has x rows && (test x && not (has x seen)))
  unfolding emit has
  has-emit x test [] seen px p s = refl
  has-emit x test (r ∷ rows) seen px p s = ground (
    arith,
    is_row_equal_iff fl r x p.0 px,
    finds-has r seen p.0 s,
    has-emit x test rows (r ∷ seen) px p.1 (p.0, s),
    has-emit x test rows seen px p.1 s,
    λ (e : r ≡ x). ap test e,
    λ (e : r ≡ x). ap (λ k. has k seen) e,
  )

  has-emit_seen :
      (x : List Value) (test : List Value → Bool) (rows seen : Rows)
      → has x (emit fl hs test rows seen).1 ≡ (has x (emit fl hs test rows seen).0 || has x seen)
  unfolding emit has
  has-emit_seen x test [] seen = refl
  has-emit_seen x test (r ∷ rows) seen =
      ground (arith, has-emit_seen x test rows (r ∷ seen), has-emit_seen x test rows seen)

  emit-AreDistinct :
      (test : List Value → Bool) (rows seen : Rows)
      → ArePlain rows
      → ArePlain seen
      → AreDistinct (emit fl hs test rows seen).0
  unfolding emit has
  emit-AreDistinct test [] seen p s = tt
  emit-AreDistinct test (r ∷ rows) seen p s =
      elim (Bool-cases (test r && not (finds fl hs r seen))) [
        | inl e ↦ rw e (
          ground (
            arith,
            has-emit r test rows (r ∷ seen) p.0 p.1 (p.0, s),
            (is_row_equal_iff fl r r p.0 p.0).1 refl,
          ),
          emit-AreDistinct test rows (r ∷ seen) p.1 (p.0, s),
        )
        | inr e ↦ rw e (emit-AreDistinct test rows seen p.1 s)
      ]

  has-append : (x : List Value) (as' bs : Rows) → has x (as' ++ bs) ≡ (has x as' || has x bs)
  unfolding has
  has-append x [] bs = refl
  has-append x (a ∷ as') bs = ground (arith, has-append x as' bs)

  -- Two duplicate-free lists with no row in common.
  AreDistinct-append :
      (as' bs : Rows)
      → ArePlain as'
      → AreDistinct as'
      → AreDistinct bs
      → ((x : List Value) → Plain x → has x as' ≡ true → has x bs ≡ false)
      → AreDistinct (as' ++ bs)
  unfolding has
  AreDistinct-append [] bs p da db apart = db
  AreDistinct-append (a ∷ as') bs p da db apart = (
    ground
        (arith, has-append a as' bs, da.0, apart a p.0, (is_row_equal_iff fl a a p.0 p.0).1 refl),
    AreDistinct-append as' bs p.1 da.1 db (λ x px h. apart x px (ground arith)),
  )

  module _ (left right : QueryResult) (pl : ArePlain left.rows) (pr : ArePlain right.rows) where
    -- INTERSECT of results without floats gives exactly the rows that are in both, none twice.
    pub intersect-rows :
        (x : List Value)
        → Plain x
        → AreDistinct (execute_intersect fl hs left right).rows
          × (has x (execute_intersect fl hs left right).rows
              ≡ (has x left.rows && has x right.rows))
    unfolding execute_intersect build_success_result has
    intersect-rows x px = (
      emit-AreDistinct (λ row. finds fl hs row right.rows) left.rows [] pl tt,
      ground (
        arith,
        has-emit x (λ row. finds fl hs row right.rows) left.rows [] px pl tt,
        finds-has x right.rows px pr,
      ),
    )

    -- EXCEPT of results without floats gives exactly the rows of the left result that are not in
    -- the right one, none twice.
    pub except-rows :
        (x : List Value)
        → Plain x
        → AreDistinct (execute_except fl hs left right).rows
          × (has x (execute_except fl hs left right).rows
              ≡ (has x left.rows && not (has x right.rows)))
    unfolding execute_except build_success_result has
    except-rows x px = (
      emit-AreDistinct (λ row. not (finds fl hs row right.rows)) left.rows [] pl tt,
      ground (
        arith,
        has-emit x (λ row. not (finds fl hs row right.rows)) left.rows [] px pl tt,
        finds-has x right.rows px pr,
      ),
    )

    -- UNION of results without floats gives exactly the rows that are in one of them, none twice.
    pub union-rows :
        (x : List Value)
        → Plain x
        → AreDistinct (execute_union_distinct fl hs left right).rows
          × (has x (execute_union_distinct fl hs left right).rows
              ≡ (has x left.rows || has x right.rows))
    unfolding execute_union_distinct build_success_result
    union-rows x px =
        let always : List Value → Bool = λ row. true in
        let first = emit fl hs always left.rows [] in
        let second = emit fl hs always right.rows first.1 in
        let plain = emit-ArePlain always left.rows [] pl tt in
        let left_has = λ (y : List Value) (py : Plain y). has-emit y always left.rows [] py pl tt in
        let seen_has = λ (y : List Value). has-emit_seen y always left.rows [] in
        let right_has =
          λ (y : List Value) (py : Plain y). has-emit y always right.rows first.1 py pr plain.1 in
        (
          AreDistinct-append first.0 second.0 plain.0 (emit-AreDistinct always left.rows [] pl tt)
              (emit-AreDistinct always right.rows first.1 pr plain.1)
              (λ y py h. ground (arith, right_has y py, seen_has y)),
          unfold has in
              ground
                (arith, has-append x first.0 second.0, left_has x px, right_has x px, seen_has x),
        )
