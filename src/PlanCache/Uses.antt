-- ===== src/PlanCache/Uses.antt =====
-- The list of last uses of core/plan_cache.cc, and the entries of its map.
use custom_sql_database.Prelude.{
  ◌≤◌, ◌<◌, ◌≡◌, refl, ap, Bool, true, false, Option, none, some, List, [], ◌∷◌, arith, Bytes,
  bytes_eq, bytes_beq, bytes_beq_iff, length, if◌then◌else◌, lookup, erase, member, set_erase,
  member-set_erase, Bool-cases, inl, inr,
}
use custom_sql_database.PlanCache.{back, pop_back}

abbrev pub is_some : {A : Type 0} → Option A → Bool
is_some none = false
is_some (some a) = true

-- No query stands twice.
abbrev pub IsUnique : List Bytes → Type 0
IsUnique [] = Unit
IsUnique (x ∷ xs) = (member x xs ≡ false) × IsUnique xs

pub length-erase : {S : Type 0} (k : Bytes) (m : List (Bytes × S)) → length (erase k m) ≤ length m
unfolding erase
length-erase k [] = omega arith
length-erase k ((j, v) ∷ m) = ground (arith, length-erase k m)

pub length-erase_some :
    {S : Type 0} (k : Bytes) (m : List (Bytes × S))
    → is_some (lookup k m) ≡ true
    → length (erase k m) < length m
unfolding erase lookup
length-erase_some k [] h = absurd (ground (arith, h))
length-erase_some k ((j, v) ∷ m) h = elim (Bool-cases (bytes_beq j k)) [
  | inl e ↦ ground (arith, e, length-erase k m)
  | inr e ↦ ground (arith, e, h, length-erase_some k m)
]

pub set_erase-IsUnique : (k : Bytes) (xs : List Bytes) → IsUnique xs → IsUnique (set_erase k xs)
unfolding set_erase
set_erase-IsUnique k [] u = tt
set_erase-IsUnique k (x ∷ xs) u = elim (Bool-cases (bytes_beq x k)) [
  | inl e ↦ rw e (set_erase-IsUnique k xs u.1)
  | inr e ↦ rw e (ground (arith, member-set_erase k x xs, u.0), set_erase-IsUnique k xs u.1)
]

pub back-member : (xs : List Bytes) (old : Bytes) → back xs ≡ some old → member old xs ≡ true
unfolding back member
back-member [] old b = absurd (ground (arith, b))
back-member (x ∷ []) old b = ground (arith, b, (bytes_beq_iff x old).1)
back-member (x ∷ y ∷ xs) old b = ground (arith, back-member (y ∷ xs) old b)

pub pop_back-none :
    (xs : List Bytes) (k : Bytes) → member k xs ≡ false → member k (pop_back xs) ≡ false
unfolding pop_back member
pop_back-none [] k h = refl
pop_back-none (x ∷ []) k h = refl
pop_back-none (x ∷ y ∷ xs) k h = ground (arith, h, pop_back-none (y ∷ xs) k)

-- What the list holds without its last query.
pub pop_back-member :
    (xs : List Bytes) (old k : Bytes)
    → IsUnique xs
    → back xs ≡ some old
    → member k (pop_back xs) ≡ (if bytes_beq old k then false else member k xs)
unfolding back pop_back member
pop_back-member [] old k u b = absurd (ground (arith, b))
pop_back-member (x ∷ []) old k u b =
    let same : x ≡ old = ground (arith, b) in rw same (ground arith)
pop_back-member (x ∷ y ∷ xs) old k u b = ground (
  arith,
  pop_back-member (y ∷ xs) old k u.1 b,
  back-member (y ∷ xs) old b,
  u.0,
  bytes_beq_iff x k,
  bytes_beq_iff old k,
  λ (e : x ≡ k). ap (λ n. member n (y ∷ xs)) e,
  λ (e : old ≡ k). ap (λ n. member n (y ∷ xs)) e,
)

pub pop_back-IsUnique : (xs : List Bytes) → IsUnique xs → IsUnique (pop_back xs)
unfolding pop_back
pop_back-IsUnique [] u = tt
pop_back-IsUnique (x ∷ []) u = tt
pop_back-IsUnique (x ∷ y ∷ xs) u = (pop_back-none (y ∷ xs) x u.0, pop_back-IsUnique (y ∷ xs) u.1)

pub back-none : (xs : List Bytes) (k : Bytes) → back xs ≡ none → member k xs ≡ false
unfolding back member
back-none [] k b = refl
back-none (x ∷ []) k b = absurd (ground (arith, b))
back-none (x ∷ y ∷ xs) k b = let (h, t) = back-some y xs in absurd (ground (arith, b, t))
  where
    back-some : (y : Bytes) (xs : List Bytes) → (b : Bytes) × (back (y ∷ xs) ≡ some b)
    back-some y [] = (y, refl)
    back-some y (z ∷ zs) = back-some z zs

pub first_key :
    {S : Type 0} (m : List (Bytes × S)) → 1 ≤ length m → (k : Bytes) × (is_some (lookup k m) ≡ true)
unfolding lookup
first_key [] l = absurd (omega (arith, l))
first_key ((k, v) ∷ m) l = (k, ground (arith, (bytes_beq_iff k k).1 refl))
