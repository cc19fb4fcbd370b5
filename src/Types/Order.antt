-- ===== src/Types/Order.antt =====
-- Orders, and the order of types/value.cc on the values of one column: its type is known, and none
-- of them is NULL or a float.
use custom_sql_database.Prelude.{
  ◌^◌, ◌<◌, ◌≡◌, ◌↔◌, refl, ap, Bool, true, false, ◌&&◌, ◌||◌, [], ◌∷◌, Bytes, arith,
}
use custom_sql_database.Types.Value.{
  DataType, int_type, string_type, boolean_type, Value, int, string, boolean, is_null,
}
use custom_sql_database.Types.Text.{bytes_less}
use custom_sql_database.Types.Compare.{
  Floats, value_eq, value_less, value_le, value_greater, to_string,
}
use custom_sql_database.Executor.RowKey.{NoFloat, value_eq_iff}
use custom_sql_database.IndexKey.{SameKind, value_trichotomy}

-- The keys with `P` are ordered by `less`, and `eq` decides their equality.
pub record IsOrder {K : Type 0} (P : K → Type 0) (less eq : K → K → Bool) : Type 0 where
  pub eq_iff : (a b : K) → P a → P b → (eq a b ≡ true) ↔ (a ≡ b)
  pub less_irrefl : (a : K) → P a → less a a ≡ false
  pub less_trans :
      (a b c : K) → P a → P b → P c → less a b ≡ true → less b c ≡ true → less a c ≡ true
  pub less_total : (a b : K) → P a → P b → less a b ≡ false → eq a b ≡ false → less b a ≡ true

-- What a column of the type holds in an index.
abbrev pub OfType : DataType → Value → Type 0
OfType int_type (int a) = a < 2 ^ 64
OfType string_type (string s) = Unit
OfType boolean_type (boolean b) = Unit
OfType _ _ = ⊥

pub OfType-SameKind : (t : DataType) (a b : Value) → OfType t a → OfType t b → SameKind a b
OfType-SameKind int_type (int a) (int b) h k = (h, k)
OfType-SameKind string_type (string a) (string b) h k = tt
OfType-SameKind boolean_type (boolean a) (boolean b) h k = tt
OfType-SameKind _ _ _ h k = ground arith

bytes_less_trans :
    (xs ys zs : Bytes) → bytes_less xs ys ≡ true → bytes_less ys zs ≡ true → bytes_less xs zs ≡ true
unfolding bytes_less
bytes_less_trans xs [] zs h k = absurd (ground (arith, h))
bytes_less_trans xs (y ∷ ys) [] h k = absurd (ground (arith, k))
bytes_less_trans [] (y ∷ ys) (z ∷ zs) h k = refl
bytes_less_trans (x ∷ xs) (y ∷ ys) (z ∷ zs) h k = ground (arith, bytes_less_trans xs ys zs)

OfType-NoFloat : (t : DataType) (a : Value) → OfType t a → NoFloat a
OfType-NoFloat int_type (int a) h = tt
OfType-NoFloat string_type (string a) h = tt
OfType-NoFloat boolean_type (boolean a) h = tt
OfType-NoFloat _ _ h = ground arith

pub OfType-is_null : (t : DataType) (v : Value) → OfType t v → is_null v ≡ false
OfType-is_null int_type (int a) h = refl
OfType-is_null string_type (string a) h = refl
OfType-is_null boolean_type (boolean a) h = refl
OfType-is_null _ _ h = ground arith

module _ (fl : Floats) where
  pub value_less_trans :
      (t : DataType) (a b c : Value)
      → OfType t a
      → OfType t b
      → OfType t c
      → value_less fl a b ≡ true
      → value_less fl b c ≡ true
      → value_less fl a c ≡ true
  unfolding value_less to_string bytes_less
  value_less_trans int_type (int a) (int b) (int c) ha hb hc h k = ground arith
  value_less_trans string_type (string a) (string b) (string c) ha hb hc h k =
      bytes_less_trans a b c h k
  value_less_trans boolean_type (boolean true) (boolean true) c ha hb hc h k =
      absurd (ground (arith, h))
  value_less_trans boolean_type (boolean true) (boolean false) c ha hb hc h k =
      absurd (ground (arith, h))
  value_less_trans boolean_type (boolean false) b (boolean true) ha hb hc h k = refl
  value_less_trans boolean_type (boolean false) (boolean true) (boolean false) ha hb hc h k =
      absurd (ground (arith, k))
  value_less_trans boolean_type (boolean false) (boolean false) (boolean false) ha hb hc h k =
      absurd (ground (arith, k))
  value_less_trans _ _ _ _ ha hb hc h k = ground arith

  pub value_trichotomy_of :
      (t : DataType) (a b : Value)
      → OfType t a
      → OfType t b
      → ((value_less fl a b || (value_eq fl a b || value_less fl b a)) ≡ true)
        × ((value_less fl a b && value_less fl b a) ≡ false)
        × ((value_eq fl a b && (value_less fl a b || value_less fl b a)) ≡ false)
  value_trichotomy_of t a b h k = value_trichotomy fl a b (OfType-SameKind t a b h k)

  pub value_eq_iff_of :
      (t : DataType) (a b : Value) → OfType t a → OfType t b → (value_eq fl a b ≡ true) ↔ (a ≡ b)
  value_eq_iff_of t a b h k = value_eq_iff fl a b (OfType-NoFloat t a h) (OfType-NoFloat t b k)

  -- Values of one type are ordered.
  pub value-IsOrder : (t : DataType) → IsOrder (OfType t) (value_less fl) (value_eq fl)
  value-IsOrder t = record {
    eq_iff = value_eq_iff_of t;
    less_irrefl = λ a h. let tri = value_trichotomy_of t a a h h in ground (arith, tri);
    less_trans = value_less_trans t;
    less_total = λ a b h k nl ne. ground (arith, (value_trichotomy_of t a b h k).0, nl, ne);
  }

  module _ (t : DataType) where
    pub le-less :
        (a b c : Value)
        → OfType t a
        → OfType t b
        → OfType t c
        → value_le fl a b ≡ true
        → value_less fl b c ≡ true
        → value_less fl a c ≡ true
    unfolding value_le
    le-less a b c ha hb hc h k =
        let o = value-IsOrder t in
        ground (
          arith,
          o.eq_iff a b ha hb,
          o.less_trans a b c ha hb hc,
          h,
          k,
          λ (e : a ≡ b). ap (λ v. value_less fl v c) e,
        )

    pub less-le :
        (a b c : Value)
        → OfType t a
        → OfType t b
        → OfType t c
        → value_less fl a b ≡ true
        → value_le fl b c ≡ true
        → value_less fl a c ≡ true
    unfolding value_le
    less-le a b c ha hb hc h k =
        let o = value-IsOrder t in
        ground (
          arith,
          o.eq_iff b c hb hc,
          o.less_trans a b c ha hb hc,
          h,
          k,
          λ (e : b ≡ c). ap (λ v. value_less fl a v) e,
        )

    pub less_le : (a b : Value) → value_less fl a b ≡ true → value_le fl a b ≡ true
    unfolding value_le
    less_le a b h = ground (arith, h)

    pub le_trans :
        (a b c : Value)
        → OfType t a
        → OfType t b
        → OfType t c
        → value_le fl a b ≡ true
        → value_le fl b c ≡ true
        → value_le fl a c ≡ true
    unfolding value_le
    le_trans a b c ha hb hc h k = ground (
      arith,
      h,
      k,
      (value-IsOrder t).eq_iff a b ha hb,
      less-le a b c ha hb hc,
      λ (e : a ≡ b). ap (λ v. value_le fl v c) e,
    )

    pub less-greater :
        (a b : Value)
        → OfType t a
        → OfType t b
        → value_less fl a b ≡ true
        → value_greater fl b a ≡ true
    unfolding value_greater value_le
    less-greater a b ha hb h =
        ground (arith, h, value_trichotomy_of t a b ha hb, value_trichotomy_of t b a hb ha)
