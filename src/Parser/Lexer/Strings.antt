-- ===== src/Parser/Lexer/Strings.antt =====
-- String literals in parser/lexer.cc: what `scan_string` reads back.
use custom_sql_database.Prelude.{
  ℕ, ◌+◌, ◌≡◌, ◌≢◌, ◌⊎◌, inl, inr, refl, [], ◌∷◌, ◌++◌, ◌==◌, Bytes, if◌then◌else◌, arith,
  Bool-cases,
}
use custom_sql_database.Parser.Token.{string}
use custom_sql_database.Parser.Lexer.{head_char, string_loop, scan_string}

-- How a text is written between quotes: a quote is doubled, and so is a backslash.
unfoldable pub escape : ℕ → Bytes → Bytes
escape quote [] = []
escape quote (b ∷ bs) =
    let rest = escape quote bs in
    if b == quote then quote ∷ quote ∷ rest else if b == 92 then 92 ∷ 92 ∷ rest else b ∷ rest

-- The loop reads the value `value` and stops before `rest`, wherever it starts.
record Reads (quote : ℕ) (input value rest : Bytes) : Type 0 where
  reads_value : (line column : ℕ) → (string_loop quote input line column).0 ≡ value
  rest_eq : (line column : ℕ) → (string_loop quote input line column).1.rest ≡ rest

module _ (quote : ℕ) (not_backslash : quote ≢ 92) (not_newline : quote ≢ 10) where
  Reads-end : (rest : Bytes) → head_char rest ≢ quote → Reads quote (quote ∷ rest) [] rest
  unfolding string_loop
  Reads-end [] h = record {
    reads_value = λ line column. ground arith;
    rest_eq = λ line column. ground arith;
  }
  Reads-end (d ∷ bs) h = record {
    reads_value = λ line column. ground arith;
    rest_eq = λ line column. ground arith;
  }

  Reads-doubled :
      {input value rest : Bytes}
      → Reads quote input value rest
      → Reads quote (quote ∷ quote ∷ input) (quote ∷ value) rest
  unfolding string_loop
  Reads-doubled r = record {
    reads_value = λ line column. ground (arith, r.reads_value line (column + 1 + 1));
    rest_eq = λ line column. ground (arith, r.rest_eq line (column + 1 + 1));
  }

  Reads-backslash :
      {input value rest : Bytes}
      → Reads quote input value rest
      → Reads quote (92 ∷ 92 ∷ input) (92 ∷ value) rest
  unfolding string_loop
  Reads-backslash r = record {
    reads_value = λ line column. ground (arith, r.reads_value line (column + 1 + 1));
    rest_eq = λ line column. ground (arith, r.rest_eq line (column + 1 + 1));
  }

  Reads-plain :
      (b : ℕ) (input value rest : Bytes)
      → b ≢ quote
      → b ≢ 92
      → input ≢ []
      → Reads quote input value rest
      → Reads quote (b ∷ input) (b ∷ value) rest
  unfolding string_loop
  Reads-plain b [] value rest q s e r = absurd (e refl)
  Reads-plain b (d ∷ bs) value rest q s e r = record {
    reads_value = λ line column.
        ground (arith, r.reads_value line (column + 1), r.reads_value (line + 1 + 1) 1);
    rest_eq =
        λ line column. ground (arith, r.rest_eq line (column + 1), r.rest_eq (line + 1 + 1) 1);
  }

  cons-ne-nil : (q : ℕ) (xs ys : Bytes) → xs ++ q ∷ ys ≢ []
  cons-ne-nil q [] ys e = cc
  cons-ne-nil q (x ∷ xs) ys e = cc

  Reads-escape :
      (value rest : Bytes)
      → head_char rest ≢ quote
      → Reads quote (escape quote value ++ quote ∷ rest) value rest
  unfolding escape
  Reads-escape [] rest h = Reads-end rest h
  Reads-escape (b ∷ bs) rest h =
      let more = Reads-escape bs rest h in
      elim (Bool-cases (b == quote)) [
        | inl q ↦ let same : b ≡ quote = ground arith in rw q (rw same (Reads-doubled more))
        | inr q ↦ elim (Bool-cases (b == 92)) [
          | inl s ↦ let same : b ≡ 92 = ground arith in rw q (rw s (rw same (Reads-backslash more)))
          | inr s ↦
              rw (q, s)
                (Reads-plain b (escape quote bs ++ quote ∷ rest) bs rest (ground arith)
                  (ground arith) (cons-ne-nil quote (escape quote bs) rest) more)
        ]
      ]

-- A text written between single or double quotes, with quotes and backslashes doubled, is read
-- back by `scan_string` as one STRING token with that text, and the scan stops behind the closing
-- quote, unless another quote follows it.
pub scan-escape :
    (quote : ℕ) (value rest : Bytes) (line column : ℕ)
    → (quote ≡ 39) ⊎ (quote ≡ 34)
    → head_char rest ≢ quote
    → let input = escape quote value ++ quote ∷ rest in
      let scanned = scan_string quote (record { rest = input; line = line; column = column }) in
      (scanned.0.kind ≡ string) × (scanned.0.lexeme ≡ value) × (scanned.1.rest ≡ rest)
unfolding scan_string
scan-escape quote value rest line column q h =
    let r = Reads-escape quote (ground arith) (ground arith) value rest h in
    (refl, r.reads_value line column, r.rest_eq line column)
