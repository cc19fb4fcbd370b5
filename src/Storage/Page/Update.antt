-- ===== src/Storage/Page/Update.antt =====
-- `deleteTuple` and `updateTupleInPlace` of storage/page.cc.
use custom_sql_database.Prelude.{
  ℕ, ◌+◌, ◌≤◌, ◌<◌, ◌≡◌, ◌≢◌, ◌↔◌, ◌⊎◌, inl, inr, ap, sym, ◌∙◌, Bool-cases, Bool, true, false, none,
  some, arith, Bytes, length, ◌==◌,
}
use custom_sql_database.Errors.{ok}
use custom_sql_database.Storage.Memory.{
  write_at, read_at, get_u16, set_u16, read_at-write_self, get_u16-set_ne, get_u16-set_self,
  get_u16-write, read_at-set_u16, read_at-write_ne,
}
use custom_sql_database.Storage.Page.{
  Page, get_slot_count, lower, upper, slot_at, slot_offset, slot_length, is_slot_live, read_tuple,
  delete_tuple, update_tuple_in_place,
}
use custom_sql_database.Storage.Page.Layout.{IsValid, slot_at_lem, live-lt-count}

abbrev deleted : ℕ → Page → Page
deleted slot p = set_u16 (slot_at slot p + 2) 0 (set_u16 (slot_at slot p) 0 p)

-- Writing one slot entry leaves the fields of the others.
far_fields :
    (a b : ℕ) (m : Page)
    → (a + 2 ≤ b) ⊎ (b + 4 ≤ a)
    → get_u16 a (set_u16 (b + 2) 0 (set_u16 b 0 m)) ≡ get_u16 a m
far_fields a b m (inl h) =
    get_u16-set_ne a (b + 2) 0 _ (inl (omega arith)) ∙ get_u16-set_ne a b 0 m (inl (omega arith))
far_fields a b m (inr h) =
    get_u16-set_ne a (b + 2) 0 _ (inr (omega arith)) ∙ get_u16-set_ne a b 0 m (inr (omega arith))

slots_apart :
    (p : Page) (i j : ℕ)
    → IsValid p
    → i < get_slot_count p
    → j < get_slot_count p
    → i ≢ j
    → (slot_at i p + 4 ≤ slot_at j p) ⊎ (slot_at j p + 4 ≤ slot_at i p)
slots_apart p i j v hi hj n = grind (arith, slot_at_lem p i v hi, slot_at_lem p j v hj)

length_field_apart : (a b : ℕ) → (a + 4 ≤ b) ⊎ (b + 4 ≤ a) → (a + 2 + 2 ≤ b) ⊎ (b + 4 ≤ a + 2)
length_field_apart a b (inl h) = inl (omega arith)
length_field_apart a b (inr h) = inr (omega arith)

offset_field_apart : (a b : ℕ) → (a + 4 ≤ b) ⊎ (b + 4 ≤ a) → (a + 2 ≤ b) ⊎ (b + 4 ≤ a)
offset_field_apart a b (inl h) = inl (omega arith)
offset_field_apart a b (inr h) = inr (omega arith)

module _ (p : Page) (slot : ℕ) (v : IsValid p) (present : slot < get_slot_count p) where
  header-deleted : (a : ℕ) → a < 10 → get_u16 a (deleted slot p) ≡ get_u16 a p
  header-deleted a h =
      let at = slot_at_lem p slot v present in
      get_u16-set_ne a (slot_at slot p + 2) 0 _ (inl (omega (arith, v.head, v.room, v.directory)))
      ∙ get_u16-set_ne a (slot_at slot p) 0 _ (inl (omega (arith, v.head, v.room, v.directory)))

  lower-deleted : lower (deleted slot p) ≡ lower p
  unfolding lower
  lower-deleted = header-deleted 6 (omega arith)

  upper-deleted : upper (deleted slot p) ≡ upper p
  unfolding upper
  upper-deleted = header-deleted 8 (omega arith)

  count-deleted : get_slot_count (deleted slot p) ≡ get_slot_count p
  unfolding get_slot_count
  count-deleted = header-deleted 4 (omega arith)

  slot_at-deleted : (i : ℕ) → slot_at i (deleted slot p) ≡ slot_at i p
  unfolding slot_at
  slot_at-deleted i = rw (upper-deleted, count-deleted)

  offset-deleted :
      (i : ℕ) → i < get_slot_count p → i ≢ slot → slot_offset i (deleted slot p) ≡ slot_offset i p
  unfolding slot_offset
  offset-deleted i h n = rw (slot_at-deleted i) (
      far_fields (slot_at i p) (slot_at slot p) p
        (offset_field_apart _ _ (slots_apart p i slot v h present n)))

  length-deleted :
      (i : ℕ) → i < get_slot_count p → i ≢ slot → slot_length i (deleted slot p) ≡ slot_length i p
  unfolding slot_length
  length-deleted i h n = rw (slot_at-deleted i) (
      far_fields (slot_at i p + 2) (slot_at slot p) p
        (length_field_apart _ _ (slots_apart p i slot v h present n)))

  length_zero : slot_length slot (deleted slot p) ≡ 0
  unfolding slot_length
  length_zero = rw (slot_at-deleted slot) (get_u16-set_self (slot_at slot p + 2) 0 _ (omega arith))

  dead-deleted : is_slot_live slot (deleted slot p) ≡ false
  unfolding is_slot_live
  dead-deleted = ground (arith, length_zero)

  live-deleted :
      (i : ℕ) → i < get_slot_count p → i ≢ slot → is_slot_live i (deleted slot p) ≡ is_slot_live i p
  unfolding is_slot_live
  live-deleted i h n = ground (arith, count-deleted, offset-deleted i h n, length-deleted i h n)

  -- A slot that is live after the deletion is another one, and was live before.
  live_before :
      (i : ℕ)
      → is_slot_live i (deleted slot p) ≡ true
      → (i < get_slot_count p) × (i ≢ slot) × (is_slot_live i p ≡ true)
  live_before i h =
      let here : i < get_slot_count p =
        omega (arith, live-lt-count (deleted slot p) i h, count-deleted) in
      let other : i ≢ slot = λ e. cc (ap (λ k. is_slot_live k (deleted slot p)) e, dead-deleted) in
      (here, other, sym (live-deleted i here other) ∙ h)

  deleted-IsValid : IsValid (deleted slot p)
  deleted-IsValid = record {
    head = rw lower-deleted v.head;
    room = rw (lower-deleted, upper-deleted) v.room;
    directory = rw (upper-deleted, count-deleted) v.directory;
    inside = λ i h.
        let (here, other, live) = live_before i h in
        record {
          behind = rw (offset-deleted i here other) (v.inside i live).behind;
          below =
              rw (offset-deleted i here other, length-deleted i here other, lower-deleted)
                (v.inside i live).below;
        };
    apart = λ i j hi hj n.
        let (i_here, i_other, i_live) = live_before i hi in
        let (j_here, j_other, j_live) = live_before j hj in
        rw
          (
            offset-deleted i i_here i_other,
            length-deleted i i_here i_other,
            offset-deleted j j_here j_other,
            length-deleted j j_here j_other,
          )
          (v.apart i j i_live j_live n);
  }

  read_at-deleted : (a n : ℕ) → a + n ≤ lower p → read_at a n (deleted slot p) ≡ read_at a n p
  read_at-deleted a n h =
      let at = slot_at_lem p slot v present in
      read_at-set_u16 a n (slot_at slot p + 2) 0 _ (inl (omega (arith, v.room, v.directory)))
      ∙ read_at-set_u16 a n (slot_at slot p) 0 p (inl (omega (arith, v.room, v.directory)))

  read-deleted_ne :
      (i : ℕ) → i < get_slot_count p → i ≢ slot → read_tuple i (deleted slot p) ≡ read_tuple i p
  unfolding read_tuple
  read-deleted_ne i h n = elim (Bool-cases (is_slot_live i p)) [
    | inl live ↦ rw (
      live-deleted i h n,
      live,
      offset-deleted i h n,
      length-deleted i h n,
      read_at-deleted (slot_offset i p) (slot_length i p) (v.inside i live).below,
    )
    | inr dead ↦ rw (live-deleted i h n, dead)
  ]

  read-deleted_self : read_tuple slot (deleted slot p) ≡ none
  unfolding read_tuple
  read-deleted_self = rw dead-deleted

-- Deleting a slot of a valid page: the page stays valid, the slot reads as empty, every other slot
-- reads as before, and no slot is renumbered.
pub record Deletes (p p' : Page) (slot : ℕ) : Type 0 where
  pub valid : IsValid p'
  pub count : get_slot_count p' ≡ get_slot_count p
  pub gone : read_tuple slot p' ≡ none
  pub others : (i : ℕ) → i < get_slot_count p → i ≢ slot → read_tuple i p' ≡ read_tuple i p

delete-present :
    (p p' : Page) (slot : ℕ)
    → delete_tuple slot p ≡ ok p'
    → (slot < get_slot_count p) × (p' ≡ deleted slot p)
unfolding delete_tuple
delete-present p p' slot h = ground arith

-- A successful `delete_tuple` on a valid page keeps it valid and its slot count, empties the
-- slot, and leaves what every other slot reads.
pub delete_tuple-Deletes :
    (p p' : Page) (slot : ℕ) → IsValid p → delete_tuple slot p ≡ ok p' → Deletes p p' slot
delete_tuple-Deletes p p' slot v h =
    let (present, page) = delete-present p p' slot h in
    rw page (record {
      valid = deleted-IsValid p slot v present;
      count = count-deleted p slot v present;
      gone = read-deleted_self p slot v present;
      others = read-deleted_ne p slot v present;
    })

module _ (p : Page) (slot : ℕ) (tuple : Bytes) (v : IsValid p) (live : is_slot_live slot p ≡ true)
    (same : slot_length slot p ≡ length tuple) where
  abbrev overwritten : Page
  overwritten = write_at (slot_offset slot p) tuple p

  header-overwritten : (a : ℕ) → a < 10 → get_u16 a overwritten ≡ get_u16 a p
  header-overwritten a h =
      get_u16-write a (slot_offset slot p) tuple p
        (inl (omega (arith, (v.inside slot live).behind)))

  directory-overwritten : (a : ℕ) → lower p ≤ a → get_u16 a overwritten ≡ get_u16 a p
  directory-overwritten a h =
      get_u16-write a (slot_offset slot p) tuple p (inr (omega (arith, (v.inside slot live).below)))

  lower-overwritten : lower overwritten ≡ lower p
  unfolding lower
  lower-overwritten = header-overwritten 6 (omega arith)

  upper-overwritten : upper overwritten ≡ upper p
  unfolding upper
  upper-overwritten = header-overwritten 8 (omega arith)

  count-overwritten : get_slot_count overwritten ≡ get_slot_count p
  unfolding get_slot_count
  count-overwritten = header-overwritten 4 (omega arith)

  slot_at-overwritten : (i : ℕ) → slot_at i overwritten ≡ slot_at i p
  unfolding slot_at
  slot_at-overwritten i = rw (upper-overwritten, count-overwritten)

  upper-le-slot_at : (i : ℕ) → upper p ≤ slot_at i p
  unfolding slot_at
  upper-le-slot_at i = omega arith

  offset-overwritten : (i : ℕ) → slot_offset i overwritten ≡ slot_offset i p
  unfolding slot_offset
  offset-overwritten i =
      rw (slot_at-overwritten i)
        (directory-overwritten (slot_at i p) (omega (arith, upper-le-slot_at i, v.room)))

  length-overwritten : (i : ℕ) → slot_length i overwritten ≡ slot_length i p
  unfolding slot_length
  length-overwritten i =
      rw (slot_at-overwritten i)
        (directory-overwritten (slot_at i p + 2) (omega (arith, upper-le-slot_at i, v.room)))

  live-overwritten : (i : ℕ) → is_slot_live i overwritten ≡ is_slot_live i p
  unfolding is_slot_live
  live-overwritten i = ground (arith, count-overwritten, offset-overwritten i, length-overwritten i)

  overwritten-IsValid : IsValid overwritten
  overwritten-IsValid = record {
    head = rw lower-overwritten v.head;
    room = rw (lower-overwritten, upper-overwritten) v.room;
    directory = rw (upper-overwritten, count-overwritten) v.directory;
    inside = λ i h.
        let was = v.inside i (sym (live-overwritten i) ∙ h) in
        record {
          behind = rw (offset-overwritten i) was.behind;
          below = rw (offset-overwritten i, length-overwritten i, lower-overwritten) was.below;
        };
    apart = λ i j hi hj n.
        rw (offset-overwritten i, length-overwritten i, offset-overwritten j, length-overwritten j)
          (v.apart i j (sym (live-overwritten i) ∙ hi) (sym (live-overwritten j) ∙ hj) n);
  }

  read-overwritten_self : read_tuple slot overwritten ≡ some tuple
  unfolding read_tuple
  read-overwritten_self = rw (
    live-overwritten slot,
    live,
    offset-overwritten slot,
    length-overwritten slot,
    same,
    read_at-write_self (slot_offset slot p) tuple p,
  )

  payload-overwritten :
      (i : ℕ)
      → is_slot_live i p ≡ true
      → i ≢ slot
      → read_at (slot_offset i p) (slot_length i p) overwritten
        ≡ read_at (slot_offset i p) (slot_length i p) p
  payload-overwritten i h n =
      read_at-write_ne (slot_offset i p) (slot_length i p) (slot_offset slot p) tuple p
        (rw same at (v.apart i slot h live n))

  read-overwritten_ne : (i : ℕ) → i ≢ slot → read_tuple i overwritten ≡ read_tuple i p
  unfolding read_tuple
  read-overwritten_ne i n = elim (Bool-cases (is_slot_live i p)) [
    | inl h ↦ rw (
      live-overwritten i,
      h,
      offset-overwritten i,
      length-overwritten i,
      payload-overwritten i h n,
    )
    | inr dead ↦ rw (live-overwritten i, dead)
  ]

-- What `updateTupleInPlace` does to a page: a refusal leaves the page as it was, and a success
-- keeps the page valid, stores the tuple in the slot and leaves what every other slot reads.
pub data Overwrites (tuple : Bytes) (p : Page) (slot : ℕ) : Page × Bool → Type 0 where
  refused : Overwrites tuple p slot (p, false)
  stored :
      (p' : Page)
      → IsValid p'
      → get_slot_count p' ≡ get_slot_count p
      → read_tuple slot p' ≡ some tuple
      → ((i : ℕ) → i ≢ slot → read_tuple i p' ≡ read_tuple i p)
      → Overwrites tuple p slot (p', true)

-- On a valid page `update_tuple_in_place` either refuses and changes nothing, or stores the tuple
-- in the slot, keeps the page valid with its slot count and leaves what every other slot reads;
-- it succeeds exactly when the slot is live with the length of the tuple.
pub update-Overwrites :
    (p : Page) (slot : ℕ) (tuple : Bytes)
    → IsValid p
    → Overwrites tuple p slot (update_tuple_in_place slot tuple p)
      × (((update_tuple_in_place slot tuple p).1 ≡ true)
          ↔ ((is_slot_live slot p ≡ true) × (slot_length slot p ≡ length tuple)))
unfolding update_tuple_in_place
update-Overwrites p slot tuple v = elim (Bool-cases (is_slot_live slot p)) [
  | inr dead ↦ rw dead (refused, ground arith)
  | inl live ↦ elim (Bool-cases (slot_length slot p == length tuple)) [
    | inr other ↦ rw (live, other) (refused, ground arith)
    | inl e ↦
        let same : slot_length slot p ≡ length tuple = ground arith in
        rw (live, e)
          (
            stored _ (overwritten-IsValid p slot tuple v live same)
                (count-overwritten p slot tuple v live same)
                (read-overwritten_self p slot tuple v live same)
                (read-overwritten_ne p slot tuple v live same),
            ground arith,
          )
  ]
]
