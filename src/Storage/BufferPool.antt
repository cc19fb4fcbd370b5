-- ===== src/Storage/BufferPool.antt =====
-- `BufferPool` of storage/buffer_pool.cc over memory stores: a fixed number of frames, found by file and
-- page, with the clock that chooses the next victim. A call that throws returns the state that it leaves.
pub mod Victim
use custom_sql_database.Prelude.{
  ℕ, zero, suc, ◌+◌, ◌-◌, ◌*◌, ◌%◌, Bool, true, false, not, ◌&&◌, ◌||◌, ◌↔◌, ◌≡◌, Option, none,
  some, List, [], ◌∷◌, arith, Eq, nat_eq, ◌==◌, ltb, length, get_elem?, if◌then◌else◌, lookup,
  insert, erase,
}
use custom_sql_database.Errors.{Error, Result, ok, throw, storage_error, overrun}
use custom_sql_database.Storage.Page.{Page}
use custom_sql_database.Storage.PageStore.{PageStore, read_page, write_page, put_elem}

pub record Frame : Type 0 where
  pub page : Page
  pub file_id : ℕ
  pub page_id : ℕ
  pub pin_count : ℕ
  pub is_dirty : Bool
  pub is_referenced : Bool
  pub is_occupied : Bool

abbrev pub PageKey : Type 0
PageKey = ℕ × ℕ

abbrev pub key_beq : PageKey → PageKey → Bool
key_beq a b = a.0 == b.0 && a.1 == b.1

pub key_beq_iff : (a b : PageKey) → (key_beq a b ≡ true) ↔ (a ≡ b)
key_beq_iff (a, b) (c, d) = ground arith

instance abbrev pub page_key_eq : Eq PageKey
page_key_eq = record { beq = key_beq; beq_iff = key_beq_iff }

pub record BufferPool : Type 0 where
  pub frames : List Frame
  pub clock_hand : ℕ
  pub page_table : List (PageKey × ℕ)
  pub stores : List (ℕ × PageStore)

unfoldable pub require_store : ℕ → BufferPool → Result PageStore
unfolding lookup
require_store file_id pool = elim (lookup file_id pool.stores) [
  | none ↦ throw storage_error
  | some store ↦ ok store
]

-- frames_[i] = frame
abbrev pub set_frame : ℕ → Frame → BufferPool → BufferPool
set_frame i frame pool = record pool { frames = put_elem i frame pool.frames }

unfoldable pub write_frame_if_dirty : ℕ → Frame → BufferPool → Result BufferPool
unfolding require_store write_page insert
write_frame_if_dirty i frame pool =
    if not frame.is_occupied || not frame.is_dirty
    then ok pool
    else elim (require_store frame.file_id pool) [
      | throw e ↦ throw e
      | ok store ↦ elim (write_page frame.page_id frame.page store) [
        | throw e ↦ throw e
        | ok store' ↦ ok (
            set_frame i (record frame { is_dirty = false })
              (record pool { stores = insert frame.file_id store' pool.stores }))
      ]
    ]

unfoldable pub evict_frame : ℕ → BufferPool → Result BufferPool
unfolding write_frame_if_dirty erase
evict_frame i pool = elim (get_elem? pool.frames i) [
  | none ↦ throw overrun
  | some frame ↦
      if not frame.is_occupied then ok pool else elim (write_frame_if_dirty i frame pool) [
        | throw e ↦ throw e
        | ok pool' ↦ ok (
            set_frame i
              (record frame {
                is_dirty = false;
                is_occupied = false;
                pin_count = 0;
                is_referenced = false;
              })
              (record pool' { page_table = erase (frame.file_id, frame.page_id) pool'.page_table }))
      ]
]

-- The loop of `find_victim_frame`: `limit` rounds, of which each moves the clock.
unfoldable pub turn_clock : ℕ → BufferPool → Result ℕ × BufferPool
turn_clock zero pool = (throw storage_error, pool)
turn_clock (suc limit) pool =
    let victim = pool.clock_hand in
    let moved : BufferPool = record pool { clock_hand = (victim + 1) % length pool.frames } in
    elim (get_elem? pool.frames victim) [
      | none ↦ (throw overrun, pool)
      | some frame ↦
          let later = turn_clock limit moved in
          let spared =
            turn_clock limit (set_frame victim (record frame { is_referenced = false }) moved) in
          if not frame.is_occupied
          then (ok victim, moved)
          else if not (frame.pin_count == 0)
          then later
          else if frame.is_referenced
          then spared
          else (ok victim, moved)
    ]

unfoldable pub find_victim_frame : BufferPool → Result ℕ × BufferPool
unfolding turn_clock
find_victim_frame pool = turn_clock (length pool.frames * 2) pool

-- The page goes into the frame.
abbrev load_frame : ℕ → PageKey → BufferPool → Result ℕ × BufferPool
unfolding require_store read_page insert
load_frame i key pool = elim (require_store key.0 pool) [
  | throw e ↦ (throw e, pool)
  | ok store ↦ elim (read_page key.1 store) [
    | throw e ↦ (throw e, pool)
    | ok page ↦
        let frame : Frame = record {
          page = page;
          file_id = key.0;
          page_id = key.1;
          pin_count = 1;
          is_dirty = false;
          is_referenced = true;
          is_occupied = true;
        } in
        (ok i, record (set_frame i frame pool) { page_table = insert key i pool.page_table })
  ]
]

-- The frame of the page, whose `page` the caller may then change.
unfoldable pub pin_page : PageKey → BufferPool → Result ℕ × BufferPool
unfolding lookup find_victim_frame evict_frame load_frame
pin_page key pool = elim (lookup key pool.page_table) [
  | some i ↦ elim (get_elem? pool.frames i) [
    | none ↦ (throw overrun, pool)
    | some frame ↦ (
      ok i,
      set_frame i (record frame { pin_count = frame.pin_count + 1; is_referenced = true }) pool,
    )
  ]
  | none ↦
      let found = find_victim_frame pool in
      elim found.0 [
        | throw e ↦ (throw e, found.1)
        | ok i ↦ elim (evict_frame i found.1) [
          | throw e ↦ (throw e, found.1)
          | ok pool' ↦ load_frame i key pool'
        ]
      ]
]

unfoldable pub unpin_page : PageKey → Bool → BufferPool → Result BufferPool
unfolding lookup
unpin_page key is_dirty pool = elim (lookup key pool.page_table) [
  | none ↦ throw storage_error
  | some i ↦ elim (get_elem? pool.frames i) [
    | none ↦ throw overrun
    | some frame ↦
        if frame.pin_count == 0
        then throw storage_error
        else ok (
            set_frame i
              (record frame {
                pin_count = frame.pin_count - 1;
                is_dirty = is_dirty || frame.is_dirty;
              })
              pool)
  ]
]

-- stores_[file_id] = store
abbrev pub register_store : ℕ → PageStore → BufferPool → BufferPool
unfolding insert
register_store file_id store pool = record pool { stores = insert file_id store pool.stores }

-- The loop over the frames i, i + 1, … of `flush_all` and `flush_file`, for the frames that pass the test.
unfoldable pub flush_frames : (Frame → Bool) → ℕ → ℕ → BufferPool → Result (Unit {0}) × BufferPool
unfolding write_frame_if_dirty
flush_frames test i zero pool = (ok tt, pool)
flush_frames test i (suc left) pool = elim (get_elem? pool.frames i) [
  | none ↦ (throw overrun, pool)
  | some frame ↦ elim (if test frame then write_frame_if_dirty i frame pool else ok pool) [
    | throw e ↦ (throw e, pool)
    | ok pool' ↦ flush_frames test (i + 1) left pool'
  ]
]

unfoldable pub flush_all : BufferPool → Result (Unit {0}) × BufferPool
unfolding flush_frames
flush_all pool = flush_frames (λ frame. true) 0 (length pool.frames) pool

unfoldable pub flush_file : ℕ → BufferPool → Result (Unit {0}) × BufferPool
unfolding flush_frames
flush_file file_id pool =
    flush_frames (λ frame. frame.is_occupied && frame.file_id == file_id) 0 (length pool.frames)
      pool
