-- ===== src/Storage/Wal/Flush.antt =====
-- `Database::flush_dirty_tables_locked` of core/database.cc on the log and the .db files, and the
-- states in which a crash can leave them. A file is named by its stem, the part before `.db`; the
-- bytes that are logged are those that were staged.
use custom_sql_database.Prelude.{
  ℕ, ◌+◌, ◌^◌, ◌<◌, ◌≡◌, ◌≢◌, none, some, List, [], ◌∷◌, ◌++◌, Bytes, bytes_eq, length, take,
  lookup, insert, erase,
}
use custom_sql_database.Types.Bytes.{le_bytes}
use custom_sql_database.Storage.Wal.Log.{
  table_blob, commit, Log, record_bytes, blob_payload, append_table_blob, append_commit,
}

-- The staged tables and their files.
abbrev pub Files : Type 0
Files = List (Bytes × Bytes)

-- The loop of `append_table_blob`.
unfoldable pub append_blobs : Files → Log → Log
unfolding append_table_blob
append_blobs [] log = log
append_blobs ((name, blob) ∷ staged) log = append_blobs staged (append_table_blob name blob log)

-- The log when the files begin to be renamed.
unfoldable pub log_staged : Files → Log → Log
unfolding append_blobs append_commit
log_staged staged log = append_commit 0 (append_blobs staged log)

-- The stem of the file that stages a table: `.wal_stage_` and the name of the table.
unfoldable pub stage_name : Bytes → Bytes
stage_name name = b'.' ∷ b'w' ∷ b'a' ∷ b'l' ∷ b'_' ∷ b's' ∷ b't' ∷ b'a' ∷ b'g' ∷ b'e' ∷ b'_' ∷ name

-- The first loop, which saves the dirty tables.
unfoldable pub stage_all : Files → Files → Files
unfolding stage_name
stage_all [] files = files
stage_all ((name, blob) ∷ staged) files = stage_all staged (insert (stage_name name) blob files)

-- The rename of a staged file.
unfoldable pub rename_staged : Bytes → Files → Files
unfolding stage_name
rename_staged name files = elim (lookup (stage_name name) files) [
  | none ↦ files
  | some blob ↦ insert name blob (erase (stage_name name) files)
]

-- The last loop.
unfoldable pub rename_all : Files → Files → Files
unfolding rename_staged
rename_all [] files = files
rename_all ((name, _) ∷ staged) files = rename_all staged (rename_staged name files)

-- The files behind a whole flush.
abbrev pub flushed : Files → Files → Files
flushed staged files = rename_all staged (stage_all staged files)

-- A crash during a flush that finds no log: k of the tables are staged, or all of them and the log is
-- written up to byte n, or the log is whole and k of the staged files are renamed, or all of them
-- are and the log is gone. `save_table` itself writes to
-- another name and renames. With no dirty table the flush ends before the log, so that its crashes
-- are among these.
pub data Crash (staged files : Files) : Log → Files → Type 0 where
  staging : (k : ℕ) → Crash staged files none (stage_all (take k staged) files)
  logging :
      (n : ℕ) (bytes : Bytes)
      → log_staged staged none ≡ some bytes
      → n < length bytes
      → Crash staged files (some (take n bytes)) (stage_all staged files)
  renaming :
      (k : ℕ)
      → Crash staged files
          (log_staged staged none)
          (rename_all (take k staged) (stage_all staged files))
  truncated : Crash staged files none (flushed staged files)

-- A table has no name of a staged file.
abbrev pub IsTableName : Bytes → Type 0
IsTableName name = (n : Bytes) → stage_name n ≢ name

-- The names and the files fit the lengths of the log.
abbrev pub IsLoggable : Bytes × Bytes → Type 0
IsLoggable e = (length e.0 < 2 ^ 16) × (2 + length e.0 + length e.1 < 2 ^ 32)

-- The bytes of a whole log.
unfoldable pub encoded : Files → Bytes
unfolding record_bytes le_bytes blob_payload
encoded [] = record_bytes commit (le_bytes 8 0)
encoded ((name, blob) ∷ staged) = record_bytes table_blob (blob_payload name blob) ++ encoded staged
