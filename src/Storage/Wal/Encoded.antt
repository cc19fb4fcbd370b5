-- ===== src/Storage/Wal/Encoded.antt =====
-- The log of a flush as bytes, and what `recover` reads of it, whole or cut short.
use mathlib.Core.List.{append_assoc, append-nil}
use custom_sql_database.Prelude.{
  ℕ, zero, suc, ◌+◌, ◌-◌, ◌<◌, ◌≤◌, ◌≡◌, refl, sym, ap, ◌∙◌, true, false, none, some, List, [], ◌∷◌,
  ◌++◌, Bytes, bytes_eq, arith, length, length-append, take, ltb, ltb→lt, All, inl, inr, Bool-cases,
}
use custom_sql_database.Types.Bytes.{le_bytes}
use custom_sql_database.Storage.Wal.Log.{
  table_blob, commit, Log, log_bytes, record_bytes, append_record, blob_payload, append_table_blob,
  append_commit, Recovery, apply_record, read_records,
}
use custom_sql_database.Storage.Wal.Read.{
  read_records-record, read_records-torn, add_blob-blob_payload, length-record_bytes,
}
use custom_sql_database.Storage.Wal.Flush.{Files, append_blobs, log_staged, IsLoggable, encoded}

take-append_short :
    {A : Type 0} (n : ℕ) (xs ys : List A) → n ≤ length xs → take n (xs ++ ys) ≡ take n xs
take-append_short zero xs ys h = refl
take-append_short (suc n) [] ys h = absurd (omega (arith, h))
take-append_short (suc n) (x ∷ xs) ys h = ap (◌∷◌ x) (take-append_short n xs ys (omega (arith, h)))

take-append_long :
    {A : Type 0} (n : ℕ) (xs ys : List A)
    → length xs ≤ n
    → take n (xs ++ ys) ≡ xs ++ take (n - length xs) ys
take-append_long n [] ys h = ap (λ m. take m ys) (omega arith)
take-append_long zero (x ∷ xs) ys h = absurd (omega (arith, h))
take-append_long (suc n) (x ∷ xs) ys h =
    ap (◌∷◌ x)
      (take-append_long n xs ys (omega (arith, h)) ∙ ap (λ m. xs ++ take m ys) (omega arith))

append_blobs-encoded :
    (staged : Files) (log : Log)
    → append_commit 0 (append_blobs staged log) ≡ some (log_bytes log ++ encoded staged)
unfolding append_commit append_blobs append_table_blob append_record encoded
append_blobs-encoded [] log = refl
append_blobs-encoded ((name, blob) ∷ staged) log =
    append_blobs-encoded staged (append_table_blob name blob log)
    ∙ ap some (append_assoc (log_bytes log) _ (encoded staged))

pub log_staged-encoded : (staged : Files) → log_staged staged none ≡ some (encoded staged)
unfolding log_staged
log_staged-encoded staged = append_blobs-encoded staged none

read_records-nil : (fuel : ℕ) (st : Recovery) → read_records fuel [] st ≡ st
unfolding read_records
read_records-nil zero st = refl
read_records-nil (suc fuel) st = refl

length-blob_payload :
    (name blob : Bytes) → length (blob_payload name blob) ≡ 2 + length name + length blob
unfolding blob_payload le_bytes
length-blob_payload name blob = omega (arith, length-append name blob)

abbrev pushed : Bytes → Bytes → Recovery → Recovery
pushed name blob st = record {
  pending = st.pending ++ (name, blob) ∷ [];
  saw_commit = st.saw_commit;
  saw_done = st.saw_done;
}

read_records-blob :
    (fuel : ℕ) (name blob rest : Bytes) (st : Recovery)
    → IsLoggable (name, blob)
    → read_records (suc fuel) (record_bytes table_blob (blob_payload name blob) ++ rest) st
      ≡ read_records fuel rest (pushed name blob st)
unfolding apply_record
read_records-blob fuel name blob rest st h =
    read_records-record fuel table_blob (blob_payload name blob) rest st
      (omega (arith, length-blob_payload name blob, h.1))
    ∙ ap (read_records fuel rest) (add_blob-blob_payload name blob st h.0)

encoded-cons :
    (name blob : Bytes) (staged : Files)
    → encoded ((name, blob) ∷ staged)
      ≡ record_bytes table_blob (blob_payload name blob) ++ encoded staged
unfolding encoded
encoded-cons name blob staged = refl

length-encoded_nil : length (encoded []) ≡ 13
unfolding encoded le_bytes record_bytes
length-encoded_nil = omega arith

length-encoded :
    (name blob : Bytes) (staged : Files)
    → length (encoded ((name, blob) ∷ staged))
      ≡ length (record_bytes table_blob (blob_payload name blob)) + length (encoded staged)
length-encoded name blob staged =
    ap length (encoded-cons name blob staged) ∙ length-append _ (encoded staged)

abbrev pub all_read : Files → Recovery → Recovery
all_read staged st = record {
  pending = st.pending ++ staged;
  saw_commit = true;
  saw_done = st.saw_done;
}

read_records-commit :
    (fuel : ℕ) (st : Recovery) → read_records (suc fuel) (encoded []) st ≡ all_read [] st
unfolding encoded apply_record le_bytes record_bytes
read_records-commit fuel st =
    read_records-record fuel commit (le_bytes 8 0) [] st (omega arith)
    ∙ read_records-nil fuel _
    ∙ ap (λ p. record { pending = p; saw_commit = true; saw_done = st.saw_done })
        (sym (append-nil st.pending))

-- A whole log is read to its end.
pub read_records-encoded :
    (fuel : ℕ) (staged : Files) (st : Recovery)
    → length (encoded staged) ≤ fuel
    → All IsLoggable staged
    → read_records fuel (encoded staged) st ≡ all_read staged st
read_records-encoded zero [] st l h = absurd (omega (arith, l, length-encoded_nil))
read_records-encoded (suc fuel) [] st l h = read_records-commit fuel st
read_records-encoded zero ((name, blob) ∷ staged) st l h = absurd (
    omega (
      arith,
      l,
      length-encoded name blob staged,
      length-record_bytes table_blob (blob_payload name blob),
    ))
read_records-encoded (suc fuel) ((name, blob) ∷ staged) st l h =
    ap (λ bytes. read_records (suc fuel) bytes st) (encoded-cons name blob staged)
    ∙ read_records-blob fuel name blob (encoded staged) st h.0
    ∙ read_records-encoded fuel staged (pushed name blob st)
        (omega (
          arith,
          l,
          length-encoded name blob staged,
          length-record_bytes table_blob (blob_payload name blob),
        ))
        h.1
    ∙ ap (λ p. record { pending = p; saw_commit = true; saw_done = st.saw_done })
        (append_assoc st.pending ((name, blob) ∷ []) staged)

read_records-behind :
    (fuel n : ℕ) (name blob : Bytes) (staged : Files) (st : Recovery)
    → IsLoggable (name, blob)
    → length (record_bytes table_blob (blob_payload name blob)) ≤ n
    → read_records (suc fuel) (take n (encoded ((name, blob) ∷ staged))) st
      ≡ read_records fuel
          (take (n - length (record_bytes table_blob (blob_payload name blob))) (encoded staged))
          (pushed name blob st)
read_records-behind fuel n name blob staged st h l =
    ap (λ bytes. read_records (suc fuel) (take n bytes) st) (encoded-cons name blob staged)
    ∙ ap (λ bytes. read_records (suc fuel) bytes st) (take-append_long n _ (encoded staged) l)
    ∙ read_records-blob fuel name blob _ st h

read_records-before :
    (fuel n : ℕ) (name blob : Bytes) (staged : Files) (st : Recovery)
    → IsLoggable (name, blob)
    → n < length (record_bytes table_blob (blob_payload name blob))
    → read_records fuel (take n (encoded ((name, blob) ∷ staged))) st ≡ st
read_records-before fuel n name blob staged st h l =
    ap (λ bytes. read_records fuel (take n bytes) st) (encoded-cons name blob staged)
    ∙ ap (λ bytes. read_records fuel bytes st)
        (take-append_short n (record_bytes table_blob (blob_payload name blob)) (encoded staged)
          (omega (arith, l)))
    ∙ read_records-torn fuel n table_blob (blob_payload name blob) st
        (omega (arith, length-blob_payload name blob, h.1)) l

read_records-zero : (bytes : Bytes) (st : Recovery) → read_records zero bytes st ≡ st
unfolding read_records
read_records-zero bytes st = refl

read_records-cut_commit :
    (fuel n : ℕ) (st : Recovery)
    → n < length (encoded [])
    → read_records fuel (take n (encoded [])) st ≡ st
unfolding encoded record_bytes le_bytes
read_records-cut_commit fuel n st l =
    read_records-torn fuel n commit (le_bytes 8 0) st (omega arith) l

-- In a log that is cut short `recover` sees no commit.
pub read_records-cut :
    (fuel n : ℕ) (staged : Files) (st : Recovery)
    → All IsLoggable staged
    → n < length (encoded staged)
    → st.saw_commit ≡ false
    → (read_records fuel (take n (encoded staged)) st).saw_commit ≡ false
read_records-cut fuel n [] st h l e = rw (read_records-cut_commit fuel n st l) e
read_records-cut zero n ((name, blob) ∷ staged) st h l e = rw (read_records-zero _ st) e
read_records-cut (suc fuel) n ((name, blob) ∷ staged) st h l e =
    let size = length (record_bytes table_blob (blob_payload name blob)) in
    elim (Bool-cases (ltb n size)) [
      | inl short ↦
          rw (read_records-before (suc fuel) n name blob staged st h.0 (ltb→lt n size short)) e
      | inr long ↦ rw (read_records-behind fuel n name blob staged st h.0 (ground (arith, long))) (
          read_records-cut fuel (n - size) staged (pushed name blob st) h.1
            (ground (arith, long, l, length-encoded name blob staged)) e)
    ]
