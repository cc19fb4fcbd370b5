-- ===== src/Storage/Page/Insert.antt =====
-- `insertTuple` of storage/page.cc.
use custom_sql_database.Prelude.{
  ℕ, ◌+◌, ◌-◌, ◌%◌, ◌≤◌, ◌<◌, ◌≡◌, ◌≢◌, ◌⊎◌, inl, inr, refl, sym, ◌∙◌, Bool-cases, true, false,
  some, arith, Bytes, length, ◌==◌,
}
use custom_sql_database.Errors.{ok}
use custom_sql_database.Storage.Memory.{
  write_at, read_at, get_u16, set_u16, read_at-congr, read_at-write_self, get_u16-set_ne,
  get_u16-set_self,
}
use custom_sql_database.Storage.Page.{
  Page, get_slot_count, lower, upper, slot_at, slot_offset, slot_length, is_slot_live, inserted,
  read_tuple, insert_tuple,
}
use custom_sql_database.Storage.Page.Layout.{IsValid, IsInside, AreApart, live-lt-count}

ne_of_beq : (a b : ℕ) → (a == b) ≡ false → a ≢ b
ne_of_beq a b h = ground arith

module _ (p : Page) (tuple : Bytes) (v : IsValid p)
    (fits : lower p + length tuple + 4 ≤ upper p) where
  upper-inserted : upper (inserted tuple p) ≡ upper p - 4
  unfolding inserted get_u16 set_u16 write_at
  upper-inserted = ground (arith, v.head, v.directory)

  lower-inserted : lower (inserted tuple p) ≡ lower p + length tuple
  unfolding inserted get_u16 set_u16 write_at
  lower-inserted = ground (arith, v.head, v.directory)

  count-inserted : get_slot_count (inserted tuple p) ≡ get_slot_count p + 1
  unfolding inserted get_u16 set_u16 write_at
  count-inserted = ground (arith, v.head, v.directory)

  directory-inserted : (a : ℕ) → upper p ≤ a → get_u16 a (inserted tuple p) ≡ get_u16 a p
  unfolding inserted get_u16 set_u16 write_at
  directory-inserted a h = ground (arith, v.head, v.directory)

  upper_wrap : (upper p + 65536 - 4) % 65536 ≡ upper p - 4
  upper_wrap = omega (arith, v.head, v.directory)

  offset_field-inserted : get_u16 (upper p - 4) (inserted tuple p) ≡ lower p
  unfolding inserted
  offset_field-inserted =
      let at = upper p - 4 in
      rw upper_wrap (
        get_u16-set_ne at 4 _ _ (inr (omega (arith, v.head)))
        ∙ get_u16-set_ne at (at + 2) _ _ (inl (omega arith))
        ∙ get_u16-set_self at (lower p) _ (omega (arith, v.directory)))

  length_field-inserted : get_u16 (upper p - 4 + 2) (inserted tuple p) ≡ length tuple
  unfolding inserted
  length_field-inserted =
      let at = upper p - 4 + 2 in
      rw upper_wrap (
        get_u16-set_ne at 4 _ _ (inr (omega (arith, v.head)))
        ∙ get_u16-set_self at (length tuple) _ (omega (arith, v.directory)))

  payload-inserted :
      (a n : ℕ) → 12 ≤ a → a + n ≤ lower p → read_at a n (inserted tuple p) ≡ read_at a n p
  unfolding inserted set_u16 write_at
  payload-inserted a n l u =
      read_at-congr a n (inserted tuple p) p (λ i i1 i2. ground (arith, v.head, v.directory))

  tuple-inserted : read_at (lower p) (length tuple) (inserted tuple p) ≡ tuple
  unfolding inserted set_u16
  tuple-inserted =
      read_at-congr (lower p) (length tuple) (inserted tuple p) (write_at (lower p) tuple p)
        (λ i i1 i2. ground (arith, v.head, v.directory))
      ∙ read_at-write_self (lower p) tuple p

  -- An old slot keeps its place and its entry.
  old_slot_at : (i : ℕ) → i < get_slot_count p → slot_at i (inserted tuple p) ≡ slot_at i p
  unfolding slot_at
  old_slot_at i h = omega (arith, upper-inserted, count-inserted, v.directory)

  old_slot_le : (i : ℕ) → i < get_slot_count p → upper p ≤ slot_at i p
  unfolding slot_at
  old_slot_le i h = omega arith

  old_offset : (i : ℕ) → i < get_slot_count p → slot_offset i (inserted tuple p) ≡ slot_offset i p
  unfolding slot_offset
  old_offset i h = rw (old_slot_at i h) (directory-inserted (slot_at i p) (old_slot_le i h))

  old_length : (i : ℕ) → i < get_slot_count p → slot_length i (inserted tuple p) ≡ slot_length i p
  unfolding slot_length
  old_length i h =
      rw (old_slot_at i h) (directory-inserted (slot_at i p + 2) (omega (arith, old_slot_le i h)))

  -- The new slot takes the next place.
  new_slot_at : slot_at (get_slot_count p) (inserted tuple p) ≡ upper p - 4
  unfolding slot_at
  new_slot_at = omega (arith, upper-inserted, count-inserted, v.directory)

  new_offset : slot_offset (get_slot_count p) (inserted tuple p) ≡ lower p
  unfolding slot_offset
  new_offset = rw new_slot_at offset_field-inserted

  new_length : slot_length (get_slot_count p) (inserted tuple p) ≡ length tuple
  unfolding slot_length
  new_length = rw new_slot_at length_field-inserted

  old_live : (i : ℕ) → i < get_slot_count p → is_slot_live i (inserted tuple p) ≡ is_slot_live i p
  unfolding is_slot_live
  old_live i h = ground (arith, count-inserted, old_offset i h, old_length i h)

  -- A live slot of the new page is the new one, or an old live one.
  live_cases :
      (i : ℕ)
      → is_slot_live i (inserted tuple p) ≡ true
      → ((i ≡ get_slot_count p) ⊎ ((i < get_slot_count p) × (is_slot_live i p ≡ true)))
  live_cases i h = elim (Bool-cases (i == get_slot_count p)) [
    | inl e ↦ inl (ground arith)
    | inr n ↦
        let old : i < get_slot_count p = omega (
          arith,
          live-lt-count (inserted tuple p) i h,
          count-inserted,
          ne_of_beq i (get_slot_count p) n,
        ) in
        inr (old, sym (old_live i old) ∙ h)
  ]

  inside-inserted :
      (i : ℕ) → is_slot_live i (inserted tuple p) ≡ true → IsInside (inserted tuple p) i
  inside-inserted i h = elim (live_cases i h) [
    | inl e ↦ record {
      behind = rw (e, new_offset) v.head;
      below = rw (e, new_offset, new_length) (omega (arith, lower-inserted));
    }
    | inr (old, live) ↦
        let o = old_offset i old in
        let l = old_length i old in
        let was = v.inside i live in
        record {
          behind = rw o was.behind;
          below = rw (o, l) (omega (arith, lower-inserted, was.below));
        }
  ]

  apart-inserted :
      (i j : ℕ)
      → is_slot_live i (inserted tuple p) ≡ true
      → is_slot_live j (inserted tuple p) ≡ true
      → i ≢ j
      → AreApart (inserted tuple p) i j
  apart-inserted i j hi hj ne = elim (live_cases i hi) [
    | inl ei ↦ elim (live_cases j hj) [
      | inl ej ↦ absurd (ne (ei ∙ sym ej))
      | inr (oj, lj) ↦
          inr (rw (ei, new_offset, old_offset j oj, old_length j oj) (v.inside j lj).below)
    ]
    | inr (oi, li) ↦ elim (live_cases j hj) [
      | inl ej ↦ inl (rw (ej, new_offset, old_offset i oi, old_length i oi) (v.inside i li).below)
      | inr (oj, lj) ↦
          rw (old_offset i oi, old_length i oi, old_offset j oj, old_length j oj)
            (v.apart i j li lj ne)
    ]
  ]

  inserted-IsValid : IsValid (inserted tuple p)
  inserted-IsValid = record {
    head = omega (arith, lower-inserted, v.head);
    room = omega (arith, lower-inserted, upper-inserted);
    directory = omega (arith, upper-inserted, count-inserted, v.directory);
    inside = inside-inserted;
    apart = apart-inserted;
  }

  new_live : 0 < length tuple → is_slot_live (get_slot_count p) (inserted tuple p) ≡ true
  unfolding is_slot_live
  new_live h = ground (arith, count-inserted, new_offset, new_length, v.head)

  read-inserted_self :
      0 < length tuple → read_tuple (get_slot_count p) (inserted tuple p) ≡ some tuple
  unfolding read_tuple
  read-inserted_self h = rw (new_live h, new_offset, new_length, tuple-inserted)

  read-inserted_ne :
      (i : ℕ) → i < get_slot_count p → read_tuple i (inserted tuple p) ≡ read_tuple i p
  unfolding read_tuple
  read-inserted_ne i h = elim (Bool-cases (is_slot_live i p)) [
    | inl live ↦
        let was = v.inside i live in
        rw (
          old_live i h,
          live,
          old_offset i h,
          old_length i h,
          payload-inserted (slot_offset i p) (slot_length i p) was.behind was.below,
        )
    | inr dead ↦ rw (old_live i h, dead)
  ]

-- An insertion succeeds exactly when the payload and a slot entry fit between `lower` and `upper`.
insert-fits :
    (p : Page) (tuple : Bytes) (p' : Page) (slot : ℕ)
    → IsValid p
    → insert_tuple tuple p ≡ ok (p', slot)
    → (lower p + length tuple + 4 ≤ upper p) × (p' ≡ inserted tuple p) × (slot ≡ get_slot_count p)
unfolding insert_tuple
insert-fits p tuple p' slot v h = ground (arith, v.room)

-- What a successful insertion into a valid page gives: a valid page with one more slot, where the
-- new slot holds the tuple (unless that is empty) and every old slot reads as before.
pub record Inserts (tuple : Bytes) (p p' : Page) (slot : ℕ) : Type 0 where
  pub next : slot ≡ get_slot_count p
  pub count : get_slot_count p' ≡ get_slot_count p + 1
  pub valid : IsValid p'
  pub stored : 0 < length tuple → read_tuple slot p' ≡ some tuple
  pub others : (i : ℕ) → i < get_slot_count p → read_tuple i p' ≡ read_tuple i p

-- A successful `insert_tuple` on a valid page returns the next slot, adds one slot, keeps the
-- page valid, stores the tuple there if it is not empty, and leaves what every older slot reads.
pub insert_tuple-Inserts :
    (p : Page) (tuple : Bytes) (p' : Page) (slot : ℕ)
    → IsValid p
    → insert_tuple tuple p ≡ ok (p', slot)
    → Inserts tuple p p' slot
insert_tuple-Inserts p tuple p' slot v h =
    let (fits, page, index) = insert-fits p tuple p' slot v h in
    rw (page, index)
      (record {
        next = refl;
        count = count-inserted p tuple v fits;
        valid = inserted-IsValid p tuple v fits;
        stored = read-inserted_self p tuple v fits;
        others = read-inserted_ne p tuple v fits;
      })
