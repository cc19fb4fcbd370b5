-- ===== src/Storage/Page/Layout.antt =====
-- The layout that every page of storage/page.cc keeps.
use custom_sql_database.Prelude.{ℕ, ◌+◌, ◌*◌, ◌≤◌, ◌<◌, ◌≡◌, ◌≢◌, ◌⊎◌, true, arith}
use custom_sql_database.Storage.Page.{
  Page, get_slot_count, lower, upper, slot_at, slot_offset, slot_length, is_slot_live,
}

-- The payload of a live slot lies behind the header and below `lower`.
pub record IsInside (p : Page) (i : ℕ) : Type 0 where
  pub behind : 12 ≤ slot_offset i p
  pub below : slot_offset i p + slot_length i p ≤ lower p

abbrev pub AreApart : Page → ℕ → ℕ → Type 0
AreApart p i j =
    (slot_offset i p + slot_length i p ≤ slot_offset j p)
    ⊎ (slot_offset j p + slot_length j p ≤ slot_offset i p)

pub record IsValid (p : Page) : Type 0 where
  pub head : 12 ≤ lower p
  pub room : lower p ≤ upper p
  pub directory : upper p + 4 * get_slot_count p ≡ 8192
  pub inside : (i : ℕ) → is_slot_live i p ≡ true → IsInside p i
  pub apart : (i j : ℕ) → is_slot_live i p ≡ true → is_slot_live j p ≡ true → i ≢ j → AreApart p i j

-- Slot i has a fixed place, counted from the end of the page.
pub slot_at_lem :
    (p : Page) (i : ℕ) → IsValid p → i < get_slot_count p → slot_at i p + 4 * (i + 1) ≡ 8192
unfolding slot_at
slot_at_lem p i v h = omega (arith, v.directory)

pub live-lt-count : (p : Page) (i : ℕ) → is_slot_live i p ≡ true → i < get_slot_count p
unfolding is_slot_live
live-lt-count p i h = ground arith
