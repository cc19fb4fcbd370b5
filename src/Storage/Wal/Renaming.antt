-- ===== src/Storage/Wal/Renaming.antt =====
-- What the renames of a flush leave under every name (core/database.cc).
use custom_sql_database.Prelude.{
  ◌≡◌, refl, ap, none, some, [], ◌∷◌, Bytes, bytes_eq, bytes_beq, bytes_beq_iff, arith,
  if◌then◌else◌, All, insert, erase, lookup, lookup-insert, lookup-erase, Option-cases,
}
use custom_sql_database.Storage.Wal.Flush.{
  Files, stage_name, rename_staged, rename_all, IsTableName,
}
use custom_sql_database.Storage.Wal.Staging.{
  staged_file, or_else, IsDistinct, beq-stage_name, beq-table, beq-stage,
}

-- Every one of the tables has its staged file.
abbrev pub Holds : Files → Files → Type 0
Holds staged files =
    (name blob : Bytes)
    → staged_file name staged ≡ some blob
    → lookup (stage_name name) files ≡ some blob

abbrev renamed : Bytes → Bytes → Files → Files
renamed name blob files = insert name blob (erase (stage_name name) files)

rename_staged-found :
    (name blob : Bytes) (files : Files)
    → lookup (stage_name name) files ≡ some blob
    → rename_staged name files ≡ renamed name blob files
unfolding rename_staged
rename_staged-found name blob files h = ground (arith, h)

rename_all-cons :
    (name blob : Bytes) (staged files : Files)
    → lookup (stage_name name) files ≡ some blob
    → rename_all ((name, blob) ∷ staged) files ≡ rename_all staged (renamed name blob files)
unfolding rename_all
rename_all-cons name blob staged files h =
    ap (rename_all staged) (rename_staged-found name blob files h)

lookup-renamed_table :
    (n name blob : Bytes) (files : Files)
    → IsTableName name
    → lookup name (renamed n blob files)
      ≡ (if bytes_beq n name then some blob else lookup name files)
lookup-renamed_table n name blob files t = ground (
  arith,
  lookup-insert n name blob (erase (stage_name n) files),
  lookup-erase (stage_name n) name files,
  beq-table n name t,
)

lookup-renamed_stage :
    (n name blob : Bytes) (files : Files)
    → IsTableName n
    → lookup (stage_name name) (renamed n blob files)
      ≡ (if bytes_beq n name then none else lookup (stage_name name) files)
lookup-renamed_stage n name blob files t = ground (
  arith,
  lookup-insert n (stage_name name) blob (erase (stage_name n) files),
  lookup-erase (stage_name n) (stage_name name) files,
  beq-stage n name t,
  beq-stage_name n name,
)

Holds-head :
    (n blob : Bytes) (staged files : Files)
    → staged_file n staged ≡ none
    → Holds ((n, blob) ∷ staged) files
    → lookup (stage_name n) files ≡ some blob
unfolding staged_file
Holds-head n blob staged files new h = h n blob (ground (arith, new, bytes_beq_iff n n))

Holds-tail :
    (n blob : Bytes) (staged files : Files)
    → IsTableName n
    → staged_file n staged ≡ none
    → Holds ((n, blob) ∷ staged) files
    → Holds staged (renamed n blob files)
unfolding staged_file
Holds-tail n blob staged files t new h = λ name b e. ground (
  arith,
  h name b (ground (arith, e)),
  new,
  e,
  bytes_beq_iff n name,
  lookup-renamed_stage n name blob files t,
)

-- A table whose staged file is renamed has its bytes.
pub rename_all-table :
    (name : Bytes) (staged files : Files)
    → IsTableName name
    → All (λ e. IsTableName e.0) staged
    → IsDistinct staged
    → Holds staged files
    → lookup name (rename_all staged files) ≡ or_else (staged_file name staged) (lookup name files)
unfolding staged_file
rename_all-table name [] files t ts d h = unfold rename_all in refl
rename_all-table name ((n, blob) ∷ staged) files t ts d h =
    rw (rename_all-cons n blob staged files (Holds-head n blob staged files d.0 h)) (
      ground (
        arith,
        rename_all-table name staged (renamed n blob files) t ts.1 d.1
            (Holds-tail n blob staged files ts.0 d.0 h),
        lookup-renamed_table n name blob files t,
        Option-cases (staged_file name staged),
      ))

-- A staged file is gone when it is renamed.
pub rename_all-stage :
    (name : Bytes) (staged files : Files)
    → All (λ e. IsTableName e.0) staged
    → IsDistinct staged
    → Holds staged files
    → lookup (stage_name name) (rename_all staged files)
      ≡ elim (staged_file name staged) [ some b ↦ none | none ↦ lookup (stage_name name) files ]
unfolding staged_file
rename_all-stage name [] files ts d h = unfold rename_all in refl
rename_all-stage name ((n, blob) ∷ staged) files ts d h =
    rw (rename_all-cons n blob staged files (Holds-head n blob staged files d.0 h)) (
      ground (
        arith,
        rename_all-stage name staged (renamed n blob files) ts.1 d.1
            (Holds-tail n blob staged files ts.0 d.0 h),
        lookup-renamed_stage n name blob files ts.0,
        Option-cases (staged_file name staged),
      ))
