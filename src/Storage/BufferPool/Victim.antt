-- ===== src/Storage/BufferPool/Victim.antt =====
-- The clock of storage/buffer_pool.cc.
use mathlib.Core.Path.{subst}
use custom_sql_database.Prelude.{
  ℕ, zero, suc, ◌≡◌, ◌⊎◌, sym, ap, ◌∙◌, false, some, arith, ◌==◌, ==_iff, ◌+◌, ◌%◌, get_elem?,
  length, Bool-cases, Option-cases, inl, inr,
}
use custom_sql_database.Errors.{ok}
use custom_sql_database.Storage.BufferPool.{
  Frame, BufferPool, set_frame, turn_clock, find_victim_frame,
}

-- The frame holds no page, or no caller has it pinned.
abbrev pub IsFree : ℕ → BufferPool → Type 0
IsFree i pool =
    (frame : Frame) × (get_elem? pool.frames i ≡ some frame)
    × ((frame.is_occupied ≡ false) ⊎ (frame.pin_count ≡ 0))

turn_clock-IsFree :
    (limit : ℕ) (pool : BufferPool) (i : ℕ)
    → (turn_clock limit pool).0 ≡ ok i
    → IsFree i (turn_clock limit pool).1
unfolding turn_clock
turn_clock-IsFree zero pool i h = absurd (ground (arith, h))
turn_clock-IsFree (suc limit) pool i h =
    let victim = pool.clock_hand in
    let moved : BufferPool = record pool { clock_hand = (victim + 1) % length pool.frames } in
    elim (Option-cases (get_elem? pool.frames victim)) [
      | inl e ↦ absurd (ground (arith, e, h))
      | inr (frame, e) ↦ elim (Bool-cases frame.is_occupied) [
        | inr free ↦
            let same : victim ≡ i = ground (arith, e, free, h) in
            rw (turn_clock, e, free) (frame, rw (← same) e, inl free)
        | inl taken ↦ elim (Bool-cases (frame.pin_count == 0)) [
          | inr pinned ↦
              rw (turn_clock, e, taken, pinned)
                (turn_clock-IsFree limit moved i (rw (turn_clock, e, taken, pinned) at h))
          | inl free ↦ elim (Bool-cases frame.is_referenced) [
            | inl used ↦
                let next = set_frame victim (record frame { is_referenced = false }) moved in
                let step : turn_clock (suc limit) pool ≡ turn_clock limit next =
                  ground (arith, e, taken, free, used) in
                subst (λ r. IsFree i r.1) (sym step)
                  (turn_clock-IsFree limit next i (ap (λ r. r.0) (sym step) ∙ h))
            | inr unused ↦
                let same : victim ≡ i = ground (arith, e, taken, free, unused, h) in
                rw (turn_clock, e, taken, free, unused)
                  (frame, rw (← same) e, inr ((==_iff frame.pin_count 0).0 free))
          ]
        ]
      ]
    ]

-- The victim of the clock is a frame that nobody has pinned.
pub find_victim_frame-IsFree :
    (pool : BufferPool) (i : ℕ)
    → (find_victim_frame pool).0 ≡ ok i
    → IsFree i (find_victim_frame pool).1
unfolding find_victim_frame
find_victim_frame-IsFree pool i h = turn_clock-IsFree _ pool i h
