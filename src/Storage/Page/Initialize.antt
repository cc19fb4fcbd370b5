-- ===== src/Storage/Page/Initialize.antt =====
-- `initialize` of storage/page.cc.
use custom_sql_database.Prelude.{ℕ, ◌≡◌, refl, true, arith}
use custom_sql_database.Storage.Memory.{get_u16, set_u16}
use custom_sql_database.Storage.Page.{
  Page, get_slot_count, is_slot_live, initialize, get_free_space,
}
use custom_sql_database.Storage.Page.Layout.{IsValid, live-lt-count}

no_slots : (id : ℕ) (p : Page) → get_slot_count (initialize id p) ≡ 0
unfolding initialize get_u16 set_u16 get_slot_count
no_slots id p = refl

no_live : (id : ℕ) (p : Page) (i : ℕ) → is_slot_live i (initialize id p) ≡ true → ⊥
no_live id p i h = omega (arith, live-lt-count (initialize id p) i h, no_slots id p)

-- An initialised page is valid, has no slot, and all but its header is free.
pub initialize-IsValid :
    (id : ℕ) (p : Page)
    → IsValid (initialize id p)
      × (get_slot_count (initialize id p) ≡ 0)
      × (get_free_space (initialize id p) ≡ 8180)
unfolding initialize get_u16 set_u16 get_slot_count get_free_space
initialize-IsValid id p = (
  record {
    head = omega arith;
    room = omega arith;
    directory = omega arith;
    inside = λ i h. absurd (no_live id p i h);
    apart = λ i j h k n. absurd (no_live id p i h);
  },
  refl,
  refl,
)
