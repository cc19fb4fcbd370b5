-- ===== src/IndexKey.antt =====
-- `IndexKey` of core/index_key.cc: the keys of the B-tree, and their order.
use custom_sql_database.Prelude.{
  ◌^◌, ◌<◌, ◌≡◌, ◌↔◌, refl, Bool, true, false, not, ◌&&◌, ◌||◌, List, [], ◌∷◌, ◌++◌, Bytes,
  bytes_beq, if◌then◌else◌, any, arith, All,
}
use custom_sql_database.Types.Value.{Value, null, int, float, string, boolean, is_null}
use custom_sql_database.Types.Text.{bytes_less}
use custom_sql_database.Types.Compare.{Floats, value_eq, value_less, to_string}
use custom_sql_database.Executor.RowKey.{NoFloat, value_eq_iff}

abbrev pub IndexKey : Type 0
IndexKey = List Value

unfoldable pub has_null : IndexKey → Bool
has_null key = any is_null key

module _ (fl : Floats) where
  unfoldable pub starts_with : IndexKey → IndexKey → Bool
  starts_with key [] = true
  starts_with [] (p ∷ prefix) = false
  starts_with (k ∷ key) (p ∷ prefix) = value_eq fl k p && starts_with key prefix

  unfoldable pub key_eq : IndexKey → IndexKey → Bool
  key_eq [] [] = true
  key_eq (a ∷ as') (b ∷ bs) = value_eq fl a b && key_eq as' bs
  key_eq _ _ = false

  unfoldable pub key_less : IndexKey → IndexKey → Bool
  key_less as' [] = false
  key_less [] (b ∷ bs) = true
  key_less (a ∷ as') (b ∷ bs) =
      let rest = key_less as' bs in
      if value_less fl a b then true else if value_less fl b a then false else rest

  unfoldable pub key_le : IndexKey → IndexKey → Bool
  key_le as' bs = not (key_less bs as')

-- Values of one column: the same type, not floats, or NULL.
abbrev pub SameKind : Value → Value → Type 0
SameKind null _ = Unit
SameKind _ null = Unit
SameKind (int a) (int b) = (a < 2 ^ 64) × (b < 2 ^ 64)
SameKind (string _) (string _) = Unit
SameKind (boolean _) (boolean _) = Unit
SameKind _ _ = ⊥

abbrev pub SameKinds : IndexKey → IndexKey → Type 0
SameKinds (a ∷ as') (b ∷ bs) = SameKind a b × SameKinds as' bs
SameKinds _ _ = Unit

bytes_trichotomy :
    (as' bs : Bytes)
    → ((bytes_less as' bs || (bytes_beq as' bs || bytes_less bs as')) ≡ true)
      × ((bytes_less as' bs && bytes_less bs as') ≡ false)
      × ((bytes_beq as' bs && (bytes_less as' bs || bytes_less bs as')) ≡ false)
unfolding bytes_less
bytes_trichotomy [] [] = ground arith
bytes_trichotomy [] (b ∷ bs) = ground arith
bytes_trichotomy (a ∷ as') [] = ground arith
bytes_trichotomy (a ∷ as') (b ∷ bs) = ground (arith, bytes_trichotomy as' bs)

module _ (fl : Floats) where
  -- Exactly one of "less", "equal" and "greater".
  pub value_trichotomy :
      (a b : Value)
      → SameKind a b
      → ((value_less fl a b || (value_eq fl a b || value_less fl b a)) ≡ true)
        × ((value_less fl a b && value_less fl b a) ≡ false)
        × ((value_eq fl a b && (value_less fl a b || value_less fl b a)) ≡ false)
  unfolding value_less value_eq to_string bytes_less
  value_trichotomy (int a) (int b) h = ground arith
  value_trichotomy (string a) (string b) h = bytes_trichotomy a b
  value_trichotomy (boolean true) (boolean true) h = (refl, refl, refl)
  value_trichotomy (boolean true) (boolean false) h = (refl, refl, refl)
  value_trichotomy (boolean false) (boolean true) h = (refl, refl, refl)
  value_trichotomy (boolean false) (boolean false) h = (refl, refl, refl)
  value_trichotomy null null h = (refl, refl, refl)
  value_trichotomy null (int b) h = (refl, refl, refl)
  value_trichotomy null (float b) h = (refl, refl, refl)
  value_trichotomy null (string b) h = (refl, refl, refl)
  value_trichotomy null (boolean b) h = (refl, refl, refl)
  value_trichotomy (int b) null h = (refl, refl, refl)
  value_trichotomy (float b) null h = (refl, refl, refl)
  value_trichotomy (string b) null h = (refl, refl, refl)
  value_trichotomy (boolean b) null h = (refl, refl, refl)
  value_trichotomy (int a) (float b) h = absurd h
  value_trichotomy (int a) (string b) h = absurd h
  value_trichotomy (int a) (boolean b) h = absurd h
  value_trichotomy (float b) (int _) h = absurd h
  value_trichotomy (float b) (float _) h = absurd h
  value_trichotomy (float b) (string _) h = absurd h
  value_trichotomy (float b) (boolean _) h = absurd h
  value_trichotomy (string a) (int b) h = absurd h
  value_trichotomy (string a) (float b) h = absurd h
  value_trichotomy (string a) (boolean b) h = absurd h
  value_trichotomy (boolean _) (int b) h = absurd h
  value_trichotomy (boolean _) (float b) h = absurd h
  value_trichotomy (boolean _) (string b) h = absurd h

  -- Of two index keys whose columns have the same types, without floats, exactly one of these
  -- holds: the first is less, they are equal, the second is less.
  pub key_trichotomy :
      (as' bs : IndexKey)
      → SameKinds as' bs
      → ((key_less fl as' bs || (key_eq fl as' bs || key_less fl bs as')) ≡ true)
        × ((key_less fl as' bs && key_less fl bs as') ≡ false)
        × ((key_eq fl as' bs && (key_less fl as' bs || key_less fl bs as')) ≡ false)
  unfolding key_less key_eq
  key_trichotomy [] [] h = (refl, refl, refl)
  key_trichotomy [] (b ∷ bs) h = (refl, refl, refl)
  key_trichotomy (a ∷ as') [] h = (refl, refl, refl)
  key_trichotomy (a ∷ as') (b ∷ bs) h =
      ground (arith, value_trichotomy a b h.0, key_trichotomy as' bs h.1)

  -- On keys without floats `starts_with` finds exactly the keys that extend the prefix.
  pub starts_with_iff :
      (key prefix : IndexKey)
      → All NoFloat key
      → All NoFloat prefix
      → (starts_with fl key prefix ≡ true) ↔ ((rest : IndexKey) × (key ≡ prefix ++ rest))
  unfolding starts_with
  starts_with_iff key [] hk hp = (λ e. (key, refl), λ e. refl)
  starts_with_iff [] (p ∷ prefix) hk hp =
      (λ e. absurd (ground (arith, e)), λ (rest, e). absurd (ground (arith, e)))
  starts_with_iff (k ∷ key) (p ∷ prefix) hk hp =
      ground (arith, value_eq_iff fl k p hk.0 hp.0, starts_with_iff key prefix hk.1 hp.1)
