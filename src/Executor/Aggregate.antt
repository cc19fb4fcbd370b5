-- ===== src/Executor/Aggregate.antt =====
-- `CountAggregate` and `MinMaxAggregate` of executor/aggregate_function.cc. The sums and averages compute
-- with doubles and are left out.
use mathlib.Core.Path.{subst}
use custom_sql_database.Prelude.{
  Among, ℕ, ◌+◌, ◌≡◌, refl, sym, ap, ◌∙◌, Bool, true, false, not, ◌&&◌, ◌||◌, List, [], ◌∷◌, arith,
  if◌then◌else◌, All, Bool-cases, inl, inr,
}
use custom_sql_database.Types.Value.{DataType, Value, null, int, is_null}
use custom_sql_database.Types.Compare.{Floats, value_less, value_le, value_greater}
use custom_sql_database.Types.Order.{
  OfType, OfType-is_null, value-IsOrder, value_trichotomy_of, le_trans, less_le,
}

pub record CountAggregate : Type 0 where
  pub count_star : Bool
  pub count : ℕ
  pub saw_row : Bool

abbrev pub new_count : Bool → CountAggregate
new_count count_star = record { count_star = count_star; count = 0; saw_row = false }

unfoldable pub accumulate_count : Value → CountAggregate → CountAggregate
accumulate_count value a = record {
  count_star = a.count_star;
  count = (if a.count_star || not (is_null value) then a.count + 1 else a.count);
  saw_row = true;
}

-- The count is an `int64_t`, which no result reaches the end of.
abbrev pub finalize_count : CountAggregate → Value
finalize_count a = if a.count_star && not a.saw_row then int 0 else int a.count

pub record MinMaxAggregate : Type 0 where
  pub is_min : Bool
  pub has_value : Bool
  pub current : Value

abbrev pub new_min_max : Bool → MinMaxAggregate
new_min_max is_min = record { is_min = is_min; has_value = false; current = null }

module _ (fl : Floats) where
  unfoldable pub accumulate_min_max : Value → MinMaxAggregate → MinMaxAggregate
  accumulate_min_max value a =
      let taken : MinMaxAggregate = record {
        is_min = a.is_min;
        has_value = true;
        current = value;
      } in
      if is_null value
      then a
      else if not a.has_value
      then taken
      else if (if a.is_min then value_less fl value a.current else value_greater fl value a.current)
      then taken
      else a

  unfoldable pub accumulate_all : List Value → MinMaxAggregate → MinMaxAggregate
  unfolding accumulate_min_max
  accumulate_all [] a = a
  accumulate_all (v ∷ vs) a = accumulate_all vs (accumulate_min_max v a)

abbrev pub finalize_min_max : MinMaxAggregate → Value
finalize_min_max a = if a.has_value then a.current else null

module _ (fl : Floats) (t : DataType) where
  -- The value is one of these, and at most each of them.
  abbrev pub IsLeast : Value → List Value → Type 0
  IsLeast m vs = Among m vs × All (λ v. value_le fl m v ≡ true) vs

  abbrev min_of : Value → MinMaxAggregate
  min_of c = record { is_min = true; has_value = true; current = c }

  value_le_refl : (v : Value) → OfType t v → value_le fl v v ≡ true
  unfolding value_le
  value_le_refl v h = let o = value-IsOrder fl t in ground (arith, (o.eq_iff v v h h).1 refl)

  not_less_le :
      (a b : Value) → OfType t a → OfType t b → value_less fl b a ≡ false → value_le fl a b ≡ true
  unfolding value_le
  not_less_le a b ha hb h = ground (arith, h, value_trichotomy_of fl t a b ha hb)

  accumulate_min :
      (v c : Value)
      → OfType t v
      → accumulate_min_max fl v (min_of c) ≡ (if value_less fl v c then min_of v else min_of c)
  unfolding accumulate_min_max
  accumulate_min v c hv = rw (accumulate_min_max, OfType-is_null t v hv) refl

  accumulate_all-IsLeast :
      (vs : List Value) (c : Value)
      → OfType t c
      → All (OfType t) vs
      → (m : Value) × (accumulate_all fl vs (min_of c) ≡ min_of m) × OfType t m × IsLeast m (c ∷ vs)
  unfolding accumulate_all
  accumulate_all-IsLeast [] c hc hs = (c, refl, hc, (inl refl, (value_le_refl c hc, tt)))
  accumulate_all-IsLeast (v ∷ vs) c hc hs = elim (Bool-cases (value_less fl v c)) [
    | inl l ↦
        let (m, e, hm, (am, al)) = accumulate_all-IsLeast vs v hs.0 hs.1 in
        (
          m,
          rw (accumulate_min v c hs.0, l) e,
          hm,
          (inr am, (le_trans fl t m v c hm hs.0 hc al.0 (less_le fl t v c l), al)),
        )
    | inr nl ↦
        let (m, e, hm, (am, al)) = accumulate_all-IsLeast vs c hc hs.1 in
        (
          m,
          rw (accumulate_min v c hs.0, nl) e,
          hm,
          (
            elim am [ inl here ↦ inl here | inr there ↦ inr (inr there) ],
            (al.0, (le_trans fl t m c v hm hc hs.0 al.0 (not_less_le c v hc hs.0 nl), al.1)),
          ),
        )
  ]

  accumulate_all-first :
      (v : Value) (vs : List Value)
      → OfType t v
      → accumulate_all fl (v ∷ vs) (new_min_max true) ≡ accumulate_all fl vs (min_of v)
  unfolding accumulate_all accumulate_min_max
  accumulate_all-first v vs hv =
      ap (accumulate_all fl vs) (rw (accumulate_min_max, OfType-is_null t v hv) refl)

  -- The minimum of values of one type is one of them, and at most each of them.
  pub finalize-IsLeast :
      (v : Value) (vs : List Value)
      → OfType t v
      → All (OfType t) vs
      → IsLeast (finalize_min_max (accumulate_all fl (v ∷ vs) (new_min_max true))) (v ∷ vs)
  finalize-IsLeast v vs hv hs =
      let (m, e, hm, least) = accumulate_all-IsLeast vs v hv hs in
      subst (λ x. IsLeast x (v ∷ vs)) (sym (ap finalize_min_max (accumulate_all-first v vs hv ∙ e)))
        least
