-- ===== src/BTree/Keys.antt =====
-- The order of core/index_key.cc on the keys of one index: its columns have types, and no component
-- is NULL or a float.
use custom_sql_database.Prelude.{◌≡◌, ◌↔◌, refl, ap, true, false, ◌||◌, List, [], ◌∷◌, arith}
use custom_sql_database.Types.Value.{
  DataType, int_type, string_type, boolean_type, int, string, boolean,
}
use custom_sql_database.Types.Compare.{Floats, value_less}
use custom_sql_database.IndexKey.{IndexKey, has_null, key_eq, key_less, SameKinds, key_trichotomy}
use custom_sql_database.Types.Order.{
  IsOrder, OfType, OfType-SameKind, value_less_trans, value_trichotomy_of, value_eq_iff_of,
}
use custom_sql_database.BTree.Index.{is_skipped}

abbrev pub HasShape : List DataType → IndexKey → Type 0
HasShape [] [] = Unit
HasShape (t ∷ ts) (v ∷ vs) = OfType t v × HasShape ts vs
HasShape _ _ = ⊥

HasShape-SameKinds :
    (ts : List DataType) (as' bs : IndexKey) → HasShape ts as' → HasShape ts bs → SameKinds as' bs
HasShape-SameKinds [] [] [] h k = tt
HasShape-SameKinds (t ∷ ts) (a ∷ as') (b ∷ bs) h k =
    (OfType-SameKind t a b h.0 k.0, HasShape-SameKinds ts as' bs h.1 k.1)
HasShape-SameKinds _ _ _ h k = ground arith

module _ (fl : Floats) where
  key_eq_iff :
      (ts : List DataType) (as' bs : IndexKey)
      → HasShape ts as'
      → HasShape ts bs
      → (key_eq fl as' bs ≡ true) ↔ (as' ≡ bs)
  unfolding key_eq
  key_eq_iff [] [] [] h k = (λ e. refl, λ e. refl)
  key_eq_iff (t ∷ ts) (a ∷ as') (b ∷ bs) h k =
      ground (arith, value_eq_iff_of fl t a b h.0 k.0, key_eq_iff ts as' bs h.1 k.1)
  key_eq_iff _ _ _ h k = ground arith

  key_less_trans :
      (ts : List DataType) (as' bs cs : IndexKey)
      → HasShape ts as'
      → HasShape ts bs
      → HasShape ts cs
      → key_less fl as' bs ≡ true
      → key_less fl bs cs ≡ true
      → key_less fl as' cs ≡ true
  unfolding key_less
  key_less_trans [] [] [] cs ha hb hc h k = absurd (ground (arith, h))
  key_less_trans (t ∷ ts) (a ∷ as') (b ∷ bs) (c ∷ cs) ha hb hc h k = ground (
    arith,
    key_less_trans ts as' bs cs ha.1 hb.1 hc.1,
    value_trichotomy_of fl t a b ha.0 hb.0,
    value_trichotomy_of fl t b c hb.0 hc.0,
    value_trichotomy_of fl t a c ha.0 hc.0,
    value_eq_iff_of fl t a b ha.0 hb.0,
    value_eq_iff_of fl t b c hb.0 hc.0,
    value_less_trans fl t a b c ha.0 hb.0 hc.0,
    λ (e : a ≡ b). ap (λ v. value_less fl v c) e,
    λ (e : a ≡ b). ap (λ v. value_less fl c v) e,
    λ (e : b ≡ c). ap (λ v. value_less fl a v) e,
    λ (e : b ≡ c). ap (λ v. value_less fl v a) e,
  )
  key_less_trans _ _ _ _ ha hb hc h k = ground arith

  -- The keys of one index are ordered.
  pub key-IsOrder : (ts : List DataType) → IsOrder (HasShape ts) (key_less fl) (key_eq fl)
  key-IsOrder ts = record {
    eq_iff = key_eq_iff ts;
    less_irrefl = λ a h.
        let tri = key_trichotomy fl a a (HasShape-SameKinds ts a a h h) in ground (arith, tri);
    less_trans = key_less_trans ts;
    less_total = λ a b h k nl ne.
        ground (arith, (key_trichotomy fl a b (HasShape-SameKinds ts a b h k)).0, nl, ne);
  }

HasShape-has_null :
    (ts : List DataType) (key : IndexKey) → HasShape ts key → (has_null key || false) ≡ false
unfolding has_null
HasShape-has_null [] [] h = refl
HasShape-has_null (int_type ∷ ts) (int a ∷ key) h = HasShape-has_null ts key h.1
HasShape-has_null (string_type ∷ ts) (string a ∷ key) h = HasShape-has_null ts key h.1
HasShape-has_null (boolean_type ∷ ts) (boolean a ∷ key) h = HasShape-has_null ts key h.1
HasShape-has_null _ _ h = ground arith

-- The index of at least one column holds every key of its columns.
pub is_skipped-HasShape :
    (t : DataType) (ts : List DataType) (key : IndexKey)
    → HasShape (t ∷ ts) key
    → is_skipped key ≡ false
unfolding is_skipped has_null
is_skipped-HasShape int_type ts (int a ∷ key) h = HasShape-has_null ts key h.1
is_skipped-HasShape string_type ts (string a ∷ key) h = HasShape-has_null ts key h.1
is_skipped-HasShape boolean_type ts (boolean a ∷ key) h = HasShape-has_null ts key h.1
is_skipped-HasShape _ ts _ h = ground arith
