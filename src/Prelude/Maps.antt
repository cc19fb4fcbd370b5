-- ===== src/Prelude/Maps.antt =====
-- `std::map`, `std::unordered_map` and the sets: an association list, and a list without an order
-- that the code observes.
use mathlib.Core.Path.{◌≡◌}
use mathlib.Core.Bool.{Bool, true, false, ◌||◌}
use mathlib.Core.List.{List, [], ◌∷◌}
use mathlib.Core.Option.{Option, none, some}
use native.Mathlib.Omega.{arith}
use custom_sql_database.Prelude.Tests.{if◌then◌else◌}
use custom_sql_database.Prelude.Equality.{Eq, ◌=?◌}

module _ {ℓ κ} {K : Type ℓ} {V : Type κ} ⦃e : Eq K⦄ where
  -- m.find(k)
  unfoldable pub lookup : K → List (K × V) → Option V
  lookup k [] = none
  lookup k ((j, v) ∷ m) = if j =? k then some v else lookup k m

  -- m.erase(k)
  unfoldable pub erase : K → List (K × V) → List (K × V)
  erase k [] = []
  erase k ((j, v) ∷ m) = let rest = erase k m in if j =? k then rest else (j, v) ∷ rest

  -- m[k] = v
  unfoldable pub insert : K → V → List (K × V) → List (K × V)
  insert k v m = (k, v) ∷ erase k m

  pub lookup-erase :
      (k j : K) (m : List (K × V)) → lookup j (erase k m) ≡ (if k =? j then none else lookup j m)
  unfolding lookup erase
  lookup-erase k j [] = ground arith
  lookup-erase k j ((i, v) ∷ m) =
      ground (arith, lookup-erase k j m, e.beq_iff i k, e.beq_iff i j, e.beq_iff k j)

  pub lookup-insert :
      (k j : K) (v : V) (m : List (K × V))
      → lookup j (insert k v m) ≡ (if k =? j then some v else lookup j m)
  unfolding lookup insert
  lookup-insert k j v m = ground (arith, lookup-erase k j m)

module _ {ℓ} {A : Type ℓ} ⦃e : Eq A⦄ where
  -- s.count(a) > 0
  unfoldable pub member : A → List A → Bool
  member a [] = false
  member a (x ∷ xs) = x =? a || member a xs

  -- s.erase(a)
  unfoldable pub set_erase : A → List A → List A
  set_erase a [] = []
  set_erase a (x ∷ xs) = let rest = set_erase a xs in if x =? a then rest else x ∷ rest

  -- s.insert(a)
  unfoldable pub set_insert : A → List A → List A
  set_insert a xs = if member a xs then xs else a ∷ xs

  pub member-set_erase :
      (a b : A) (xs : List A) → member b (set_erase a xs) ≡ (if a =? b then false else member b xs)
  unfolding member set_erase
  member-set_erase a b [] = ground arith
  member-set_erase a b (x ∷ xs) =
      ground (arith, member-set_erase a b xs, e.beq_iff x a, e.beq_iff x b, e.beq_iff a b)

  pub member-set_insert :
      (a b : A) (xs : List A) → member b (set_insert a xs) ≡ (if a =? b then true else member b xs)
  unfolding member set_insert
  member-set_insert a b xs = ground (arith, e.beq_iff a b)
