-- ===== src/Storage/Wal/Crash.antt =====
-- What `recover` of storage/wal_manager.cc makes of the log and the files behind a crash.
use custom_sql_database.Prelude.{
  ℕ, ◌<◌, ◌≡◌, refl, ap, ◌∙◌, false, none, some, Bytes, bytes_eq, arith, length, take, All, ◌⊎◌,
  inl, inr, lookup, Option-cases,
}
use custom_sql_database.Storage.Wal.Log.{
  Log, Recovery, start, read_records, restore, restored, recover,
}
use custom_sql_database.Storage.Wal.Flush.{
  Files, IsLoggable, IsTableName, stage_name, stage_all, rename_all, flushed, encoded, Crash,
  staging, logging, renaming, truncated,
}
use custom_sql_database.Storage.Wal.Staging.{
  staged_file, or_else, lookup-restore, staged_file-take, IsDistinct, staged_file-take-some,
  IsTableName-take, IsDistinct-take, stage_all-table, stage_all-stage, staged_file-stage,
}
use custom_sql_database.Storage.Wal.Renaming.{Holds, rename_all-table, rename_all-stage}
use custom_sql_database.Storage.Wal.Encoded.{
  log_staged-encoded, read_records-encoded, read_records-cut,
}

-- A whole log is replayed, and removed.
recover-whole :
    (staged found : Files)
    → All IsLoggable staged
    → recover (some (encoded staged)) found ≡ (none, restore staged found)
unfolding recover
recover-whole staged found h =
    ap (λ st. (none, restored st found))
      (read_records-encoded (length (encoded staged)) staged start (omega arith) h)

restored-uncommitted :
    (st : Recovery) (found : Files) → st.saw_commit ≡ false → restored st found ≡ found
restored-uncommitted st found e = rw e refl

recover-none : (files : Files) → recover none files ≡ (none, files)
unfolding recover
recover-none files = refl

-- A log that is cut short changes no file.
recover-cut :
    (n : ℕ) (staged found : Files)
    → All IsLoggable staged
    → n < length (encoded staged)
    → recover (some (take n (encoded staged))) found ≡ (none, found)
unfolding recover
recover-cut n staged found h l =
    ap (λ files. (none, files))
      (restored-uncommitted
        (read_records (length (take n (encoded staged))) (take n (encoded staged)) start) found
        (read_records-cut (length (take n (encoded staged))) n staged start h l refl))

-- The files of the tables are the same in both.
abbrev pub SameTables : Files → Files → Type 0
SameTables files others = (name : Bytes) → IsTableName name → lookup name files ≡ lookup name others

-- Every staged file that is left has the bytes of its table's file, or it was there before and is
-- not of a table that was flushed.
abbrev pub IsSettled : Files → Files → Files → Type 0
IsSettled staged before files =
    (name : Bytes)
    → IsTableName name
    → (lookup (stage_name name) files ≡ none)
      ⊎ ((lookup (stage_name name) files ≡ lookup name files)
          ⊎ ((staged_file name staged ≡ none)
              × (lookup (stage_name name) files ≡ lookup (stage_name name) before)))

module _ (staged files : Files) (tables : All (λ e. IsTableName e.0) staged)
    (distinct : IsDistinct staged) where
  stage_all-Holds : Holds staged (stage_all staged files)
  stage_all-Holds = λ name blob e. stage_all-stage name staged files ∙ rw e refl

  take-Holds : (k : ℕ) → Holds (take k staged) (stage_all staged files)
  take-Holds k =
      λ name blob e. stage_all-Holds name blob (staged_file-take-some name blob k staged distinct e)

  lookup-renamed :
      (k : ℕ) (name : Bytes)
      → IsTableName name
      → lookup name (rename_all (take k staged) (stage_all staged files))
        ≡ or_else (staged_file name (take k staged)) (lookup name files)
  lookup-renamed k name t =
      rename_all-table name (take k staged) (stage_all staged files) t
        (IsTableName-take k staged tables) (IsDistinct-take k staged distinct) (take-Holds k)
      ∙ ap (or_else (staged_file name (take k staged))) (stage_all-table name staged files t)

  lookup-flushed :
      (name : Bytes)
      → IsTableName name
      → lookup name (flushed staged files) ≡ or_else (staged_file name staged) (lookup name files)
  lookup-flushed name t =
      rename_all-table name staged (stage_all staged files) t tables distinct stage_all-Holds
      ∙ ap (or_else (staged_file name staged)) (stage_all-table name staged files t)

  -- Restoring all of the files behind some of the renames does the rest of them.
  restore-flushed :
      (k : ℕ)
      → SameTables
          (restore staged (rename_all (take k staged) (stage_all staged files)))
          (flushed staged files)
  restore-flushed k = λ name t.
      lookup-restore name staged (rename_all (take k staged) (stage_all staged files))
      ∙ ap (or_else (staged_file name staged)) (lookup-renamed k name t)
      ∙ elim (Option-cases (staged_file name staged)) [
        | inr (b, e) ↦ rw (lookup-flushed name t, e) refl
        | inl e ↦ rw (lookup-flushed name t, e, staged_file-take name k staged e) refl
      ]

  restored-stage :
      (k : ℕ) (name : Bytes)
      → lookup
          (stage_name name)
          (restore staged (rename_all (take k staged) (stage_all staged files)))
        ≡ elim (staged_file name (take k staged)) [
          | some b ↦ none
          | none ↦ or_else (staged_file name staged) (lookup (stage_name name) files)
        ]
  restored-stage k name =
      let found = rename_all (take k staged) (stage_all staged files) in
      let left =
        rename_all-stage name (take k staged) (stage_all staged files)
          (IsTableName-take k staged tables) (IsDistinct-take k staged distinct) (take-Holds k) in
      ground (
        arith,
        left,
        lookup-restore (stage_name name) staged found,
        staged_file-stage name staged tables,
        stage_all-stage name staged files,
        Option-cases (staged_file name (take k staged)),
      )

  restore-IsSettled :
      (k : ℕ)
      → IsSettled staged files
          (restore staged (rename_all (take k staged) (stage_all staged files)))
  restore-IsSettled k = λ name t.
      let found = rename_all (take k staged) (stage_all staged files) in
      elim (Option-cases (staged_file name staged)) [
        | inl e ↦
            inr (inr (e, restored-stage k name ∙ rw (staged_file-take name k staged e, e) refl))
        | inr (b, e) ↦ elim (Option-cases (staged_file name (take k staged))) [
          | inr (c, e') ↦ inl (restored-stage k name ∙ rw e' refl)
          | inl e' ↦
              inr (inl (restored-stage k name ∙ rw (e', lookup-restore name staged found, e) refl))
        ]
      ]

  flushed-IsSettled : IsSettled staged files (flushed staged files)
  flushed-IsSettled = λ name t.
      let left =
        rename_all-stage name staged (stage_all staged files) tables distinct stage_all-Holds in
      elim (Option-cases (staged_file name staged)) [
        | inr (b, e) ↦ inl (left ∙ rw e refl)
        | inl e ↦ inr (inr (e, left ∙ rw (e, stage_all-stage name staged files, e) refl))
      ]

-- After a crash at any point of a flush that found no log (between two staged files, at any byte
-- of the log, between two renames, or behind the removal of the log) `recover` leaves no log, and
-- either the file of every table as it was before the flush, or the file of every table as the
-- whole flush would have left it with no staged file of a flushed table that differs from its
-- table's; the staged tables are distinct, no table has the name of a staged file, names are
-- shorter than 2^16 bytes and records than 2^32.
pub recover-Crash :
    (staged files : Files) (log : Log) (found : Files)
    → All IsLoggable staged
    → All (λ e. IsTableName e.0) staged
    → IsDistinct staged
    → Crash staged files log found
    → ((recover log found).0 ≡ none)
      × (SameTables (recover log found).1 files
          ⊎ (SameTables (recover log found).1 (flushed staged files)
              × IsSettled staged files (recover log found).1))
recover-Crash staged files _ _ h tables distinct (staging k) =
    rw (recover-none (stage_all (take k staged) files))
      (refl, inl (λ name t. stage_all-table name (take k staged) files t))
recover-Crash staged files _ _ h tables distinct (logging n bytes e l) =
    let same : bytes ≡ encoded staged = ground (arith, e, log_staged-encoded staged) in
    rw (same, recover-cut n staged (stage_all staged files) h (rw (← same) l))
      (refl, inl (λ name t. stage_all-table name staged files t))
recover-Crash staged files _ _ h tables distinct (renaming k) =
    let found = rename_all (take k staged) (stage_all staged files) in
    rw (log_staged-encoded staged, recover-whole staged found h)
      (
        refl,
        inr (
          restore-flushed staged files tables distinct k,
          restore-IsSettled staged files tables distinct k,
        ),
      )
recover-Crash staged files _ _ h tables distinct truncated =
    rw (recover-none (flushed staged files))
      (refl, inr (λ name t. refl, flushed-IsSettled staged files tables distinct))
