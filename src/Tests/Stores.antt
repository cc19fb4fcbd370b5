-- ===== src/Tests/Stores.antt =====
-- The write-ahead log and the plan cache on small inputs.
use custom_sql_database.Prelude.{
  ℕ, ◌≡◌, refl, ◌⊎◌, none, some, [], ◌∷◌, arith, member, lookup, take, bytes_eq,
}
use custom_sql_database.Storage.Wal.Log.{recover}
use custom_sql_database.Storage.Wal.Flush.{
  Files, stage_name, stage_all, rename_all, flushed, log_staged, renaming,
}
use custom_sql_database.Storage.Wal.Staging.{staged_file}
use custom_sql_database.Storage.Wal.Crash.{SameTables, IsSettled, recover-Crash}
use custom_sql_database.PlanCache.{PlanCache, put, get}
use custom_sql_database.PlanCache.Bounds.{IsCache, put-IsCache}

abbrev staged : Files
staged = (b'a' ∷ [], 1 ∷ 2 ∷ []) ∷ (b'b' ∷ [], 3 ∷ []) ∷ []

abbrev before : Files
before = (b'a' ∷ [], 9 ∷ []) ∷ []

abbrev found : Files
found = rename_all (take 1 staged) (stage_all staged before)

-- A power cut between the two renames.
recover-Crash_example :
    ((recover (log_staged staged none) found).0 ≡ none)
    × (SameTables (recover (log_staged staged none) found).1 before
        ⊎ (SameTables (recover (log_staged staged none) found).1 (flushed staged before)
            × IsSettled staged before (recover (log_staged staged none) found).1))
unfolding stage_name lookup staged_file
recover-Crash_example =
    recover-Crash staged before (log_staged staged none) found
      ((omega arith, omega arith), ((omega arith, omega arith), tt))
      (λ n e. absurd (ground (arith, e)), (λ n e. absurd (ground (arith, e)), tt))
      (refl, (refl, tt)) (renaming 1)

abbrev full : PlanCache ℕ
full = record { capacity = 1; lru_order = (b'a' ∷ []) ∷ []; entries = (b'a' ∷ [], 5) ∷ [] }

full-IsCache : IsCache full
unfolding member lookup
full-IsCache = record {
  positive = omega arith;
  bounded = omega arith;
  unique = (refl, tt);
  linked = λ sql. ground arith;
}

put-IsCache_example :
    IsCache (put (b'b' ∷ []) 6 full) × ((get (b'b' ∷ []) (put (b'b' ∷ []) 6 full)).0 ≡ some 6)
put-IsCache_example = put-IsCache (b'b' ∷ []) 6 full full-IsCache
