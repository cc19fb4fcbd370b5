-- ===== src/Storage/Wal/Staging.antt =====
-- What the first loop of a flush leaves under every name (core/database.cc), and the restored files of
-- `recover`.
use custom_sql_database.Prelude.{
  ℕ, zero, suc, ◌≡◌, refl, false, Option, none, some, [], ◌∷◌, Bytes, bytes_eq, bytes_beq,
  bytes_beq_iff, arith, take, if◌then◌else◌, All, inl, inr, insert, lookup, lookup-insert,
  Option-cases,
}
use custom_sql_database.Storage.Wal.Log.{restore}
use custom_sql_database.Storage.Wal.Flush.{Files, stage_name, stage_all, IsTableName}

-- The file that the last of the staged tables of this name has.
unfoldable pub staged_file : Bytes → Files → Option Bytes
staged_file name [] = none
staged_file name ((n, blob) ∷ staged) =
    let later = staged_file name staged in
    elim later [ some b ↦ some b | none ↦ if bytes_beq n name then some blob else none ]

abbrev pub or_else : Option Bytes → Option Bytes → Option Bytes
or_else none o = o
or_else (some b) o = some b

pub lookup-restore :
    (name : Bytes) (staged files : Files)
    → lookup name (restore staged files) ≡ or_else (staged_file name staged) (lookup name files)
unfolding restore staged_file
lookup-restore name [] files = refl
lookup-restore name ((n, blob) ∷ staged) files = ground (
  arith,
  lookup-restore name staged (insert n blob files),
  lookup-insert n name blob files,
  Option-cases (staged_file name staged),
)

pub staged_file-take :
    (name : Bytes) (k : ℕ) (staged : Files)
    → staged_file name staged ≡ none
    → staged_file name (take k staged) ≡ none
unfolding staged_file
staged_file-take name zero staged h = refl
staged_file-take name (suc k) [] h = refl
staged_file-take name (suc k) ((n, blob) ∷ staged) h =
    elim (Option-cases (staged_file name staged)) [
      | inr (b, e) ↦ absurd (ground (arith, e, h))
      | inl e ↦ ground (arith, e, h, staged_file-take name k staged e)
    ]

-- No table is staged twice.
abbrev pub IsDistinct : Files → Type 0
IsDistinct [] = Unit
IsDistinct ((name, _) ∷ staged) = (staged_file name staged ≡ none) × IsDistinct staged

pub staged_file-take-some :
    (name blob : Bytes) (k : ℕ) (staged : Files)
    → IsDistinct staged
    → staged_file name (take k staged) ≡ some blob
    → staged_file name staged ≡ some blob
unfolding staged_file
staged_file-take-some name blob zero staged d h = absurd (ground (arith, h))
staged_file-take-some name blob (suc k) [] d h = absurd (ground (arith, h))
staged_file-take-some name blob (suc k) ((n, b) ∷ staged) d h = ground (
  arith,
  h,
  d.0,
  bytes_beq_iff n name,
  staged_file-take-some name blob k staged d.1,
  Option-cases (staged_file name (take k staged)),
  Option-cases (staged_file name staged),
)

pub IsDistinct-take : (k : ℕ) (staged : Files) → IsDistinct staged → IsDistinct (take k staged)
IsDistinct-take zero staged d = tt
IsDistinct-take (suc k) [] d = tt
IsDistinct-take (suc k) ((n, b) ∷ staged) d =
    (staged_file-take n k staged d.0, IsDistinct-take k staged d.1)

pub IsTableName-take :
    (k : ℕ) (staged : Files)
    → All (λ e. IsTableName e.0) staged
    → All (λ e. IsTableName e.0) (take k staged)
IsTableName-take zero staged t = tt
IsTableName-take (suc k) [] t = tt
IsTableName-take (suc k) (e ∷ staged) t = (t.0, IsTableName-take k staged t.1)

pub beq-stage_name :
    (n name : Bytes) → bytes_beq (stage_name n) (stage_name name) ≡ bytes_beq n name
unfolding stage_name
beq-stage_name n name = refl

pub beq-table : (n name : Bytes) → IsTableName name → bytes_beq (stage_name n) name ≡ false
beq-table n name t = ground (arith, t n, bytes_beq_iff (stage_name n) name)

pub beq-stage : (n name : Bytes) → IsTableName n → bytes_beq n (stage_name name) ≡ false
beq-stage n name t = ground (arith, t name, bytes_beq_iff n (stage_name name))

-- Staging leaves the files of the tables.
pub stage_all-table :
    (name : Bytes) (staged files : Files)
    → IsTableName name
    → lookup name (stage_all staged files) ≡ lookup name files
unfolding stage_all
stage_all-table name [] files t = refl
stage_all-table name ((n, blob) ∷ staged) files t = ground (
  arith,
  stage_all-table name staged (insert (stage_name n) blob files) t,
  lookup-insert (stage_name n) name blob files,
  beq-table n name t,
)

pub stage_all-stage :
    (name : Bytes) (staged files : Files)
    → lookup (stage_name name) (stage_all staged files)
      ≡ or_else (staged_file name staged) (lookup (stage_name name) files)
unfolding stage_all staged_file
stage_all-stage name [] files = refl
stage_all-stage name ((n, blob) ∷ staged) files = ground (
  arith,
  stage_all-stage name staged (insert (stage_name n) blob files),
  lookup-insert (stage_name n) (stage_name name) blob files,
  beq-stage_name n name,
  Option-cases (staged_file name staged),
)

-- The name of a staged file is not that of a table.
pub staged_file-stage :
    (name : Bytes) (staged : Files)
    → All (λ e. IsTableName e.0) staged
    → staged_file (stage_name name) staged ≡ none
unfolding staged_file
staged_file-stage name [] t = refl
staged_file-stage name ((n, blob) ∷ staged) t =
    ground (arith, staged_file-stage name staged t.1, beq-stage n name t.0)
