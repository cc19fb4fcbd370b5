-- ===== src/Parser/Lexer/Progress.antt =====
-- Every round of `tokenize` in parser/lexer.cc consumes input, so the loop ends.
use custom_sql_database.Prelude.{
  ℕ, zero, suc, ◌+◌, ◌≤◌, ◌<◌, ◌≡◌, inl, inr, refl, Bool, true, not, ◌&&◌, ◌||◌, Option, none, some,
  List, [], ◌∷◌, ◌==◌, Bytes, length, if◌then◌else◌, arith, Bool-cases, Option-cases,
}
use custom_sql_database.Errors.{parse_error, Result, ok, throw}
use custom_sql_database.Parser.Token.{Token, end_of_input}
use custom_sql_database.Parser.Lexer.{
  Cursor, head_char, over, span, advance, is_digit, is_alpha, is_alpha_numeric, string_loop,
  dollar_loop, scan_string, scan_fraction, scan_exponent, scan_number, scan_identifier, scan_dollar,
  scan_dollar_quoted, scan_from, scan_token, skip_whitespace, skip_comment, Round, finished,
  skipped, scanned, failed, round, tokenize_loop, tokenize, single_char, scan_sign, scan_less,
  scan_greater, scan_bang, span_at, of_scan, cons_token, single_or_unknown, is_space, round_at,
  loop_on,
}

-- The bytes that are left.
abbrev left : Cursor → ℕ
left c = length c.rest

left-advance : (c : Cursor) → left (advance c) ≤ left c
unfolding advance
left-advance c = ground arith

left-span :
    (p : ℕ → Bool) (bs : Bytes) (line column : ℕ) → left (span p bs line column).1 ≤ length bs
unfolding span
left-span p [] line column = omega arith
left-span p (b ∷ bs) line column =
    ground (arith, left-span p bs line (column + 1), left-span p bs (line + 1) 1)

-- A span whose first byte passes consumes it.
left-span_first :
    (p : ℕ → Bool) (b : ℕ) (bs : Bytes) (line column : ℕ)
    → p b ≡ true
    → left (span p (b ∷ bs) line column).1 < length (b ∷ bs)
unfolding span
left-span_first p b bs line column h =
    ground (arith, left-span p bs line (column + 1), left-span p bs (line + 1) 1)

left-string_loop :
    (quote : ℕ) (bs : Bytes) (line column : ℕ)
    → left (string_loop quote bs line column).1 ≤ length bs
unfolding string_loop
left-string_loop quote [] line column = omega arith
left-string_loop quote (b ∷ []) line column = ground arith
left-string_loop quote (b ∷ d ∷ bs) line column =
    let one = over b (d ∷ bs) line column in
    let two = over d bs one.line one.column in
    let moved = if b == 10 then over b (d ∷ bs) (line + 1) 0 else one in
    ground (
      arith,
      left-string_loop quote bs two.line two.column,
      left-string_loop quote (d ∷ bs) moved.line moved.column,
    )

left-dollar_loop :
    (bs : Bytes) (line column : ℕ) (value : Bytes) (after : Cursor)
    → dollar_loop bs line column ≡ some (value, after)
    → left after ≤ length bs
unfolding dollar_loop
left-dollar_loop [] line column value after h = cc
left-dollar_loop (b ∷ []) line column value after h = cc
left-dollar_loop (b ∷ d ∷ bs) line column value after h =
    let one = over b (d ∷ bs) line column in
    let moved = if b == 10 then over b (d ∷ bs) (line + 1) 0 else one in
    elim (Option-cases (dollar_loop (d ∷ bs) moved.line moved.column)) [
      | inl e ↦ ground arith
      | inr ((v, c), e) ↦
          let ih = left-dollar_loop (d ∷ bs) moved.line moved.column v c e in ground arith
    ]

left-scan_string : (quote : ℕ) (c : Cursor) → left (scan_string quote c).1 ≤ left c
unfolding scan_string
left-scan_string quote c = left-string_loop quote c.rest c.line c.column

left-scan_fraction : (c : Cursor) → left (scan_fraction c).1 ≤ left c
unfolding scan_fraction
left-scan_fraction c =
    let d = advance c in ground (arith, left-advance c, left-span is_digit d.rest d.line d.column)

left-scan_sign : (c : Cursor) → left (scan_sign c).1 ≤ left c
unfolding scan_sign
left-scan_sign c = ground (arith, left-advance c)

left-scan_exponent : (c : Cursor) → left (scan_exponent c).1 ≤ left c
unfolding scan_exponent
left-scan_exponent c =
    let d = (scan_sign (advance c)).1 in
    ground
      (arith, left-advance c, left-scan_sign (advance c), left-span is_digit d.rest d.line d.column)

left-scan_number :
    (b : ℕ) (bs : Bytes) (line column : ℕ)
    → is_digit b ≡ true
    → left (scan_number (record { rest = b ∷ bs; line = line; column = column })).1 ≤ length bs
unfolding scan_number
left-scan_number b bs line column h =
    let digits = (span is_digit (b ∷ bs) line column).1 in
    omega (
      arith,
      left-span_first is_digit b bs line column h,
      left-scan_fraction digits,
      left-scan_exponent (scan_fraction digits).1,
    )

left-scan_identifier :
    (b : ℕ) (bs : Bytes) (line column : ℕ)
    → is_alpha_numeric b ≡ true
    → left (scan_identifier (record { rest = b ∷ bs; line = line; column = column })).1 ≤ length bs
unfolding scan_identifier
left-scan_identifier b bs line column h =
    omega (arith, left-span_first is_alpha_numeric b bs line column h)

left-scan_operator :
    (c : Cursor)
    → (left (scan_less c).1 ≤ left c)
      × (left (scan_greater c).1 ≤ left c)
      × (left (scan_bang c).1 ≤ left c)
unfolding scan_less scan_greater scan_bang
left-scan_operator c =
    (ground (arith, left-advance c), ground (arith, left-advance c), ground (arith, left-advance c))

-- The cursor of a scan that succeeds has at most `n` bytes left.
abbrev AtMost : ℕ → Result (Token × Cursor) → Type 0
AtMost n (ok (t, c)) = left c ≤ n
AtMost n (throw e) = Unit

AtMost-ok : (n : ℕ) (r : Token × Cursor) → left r.1 ≤ n → AtMost n (ok r)
AtMost-ok n (t, c) h = h

left-scan_dollar_quoted : (c : Cursor) → AtMost (left c) (scan_dollar_quoted c)
unfolding scan_dollar_quoted
left-scan_dollar_quoted c = elim (Option-cases (dollar_loop c.rest c.line c.column)) [
  | inl e ↦ rw (e, AtMost) tt
  | inr ((v, after), e) ↦ rw (e, AtMost) (left-dollar_loop c.rest c.line c.column v after e)
]

AtMost-mono : (m n : ℕ) (r : Result (Token × Cursor)) → m ≤ n → AtMost m r → AtMost n r
AtMost-mono m n (ok (t, c)) h a = omega arith
AtMost-mono m n (throw e) h a = tt

left-scan_dollar : (c : Cursor) → AtMost (left c) (scan_dollar c)
unfolding scan_dollar
left-scan_dollar c = elim (Bool-cases (head_char c.rest == b'$')) [
  | inl e ↦ rw e (
      AtMost-mono (left (advance c)) (left c) (scan_dollar_quoted (advance c)) (left-advance c)
        (left-scan_dollar_quoted (advance c)))
  | inr e ↦ elim (Bool-cases (is_digit (head_char c.rest))) [
    | inl d ↦ rw (e, d) (left-span is_digit c.rest c.line c.column)
    | inr d ↦ rw (e, d) (omega arith)
  ]
]

digit-is_alpha_numeric : (b : ℕ) → (is_alpha b || b == b'_') ≡ true → is_alpha_numeric b ≡ true
digit-is_alpha_numeric b h = ground arith

scan_single :
    (kind : Option custom_sql_database.Parser.Token.TokenType) (b : ℕ) (c : Cursor)
    → left (single_or_unknown kind b c).1 ≤ left c
scan_single none b c = omega arith
scan_single (some k) b c = omega arith

left_scan_operators :
    (b : ℕ) (bs : Bytes) (c : Cursor)
    → left c ≤ length bs
    → AtMost (length bs) (
        if b == b'<'
        then ok (scan_less c)
        else if b == b'>'
        then ok (scan_greater c)
        else if b == b'!'
        then ok (scan_bang c)
        else if b == b'$'
        then scan_dollar c
        else ok (single_or_unknown (single_char b) b c))
left_scan_operators b bs c h =
    let (less_le, greater_le, bang_le) = left-scan_operator c in
    elim (Bool-cases (b == b'<')) [
      | inl k ↦ rw (k, AtMost) (omega arith)
      | inr n1 ↦ elim (Bool-cases (b == b'>')) [
        | inl k ↦ rw (n1, k, AtMost) (omega arith)
        | inr n2 ↦ elim (Bool-cases (b == b'!')) [
          | inl k ↦ rw (n1, n2, k, AtMost) (omega arith)
          | inr n3 ↦ elim (Bool-cases (b == b'$')) [
            | inl k ↦
                rw (n1, n2, n3, k)
                  (AtMost-mono (left c) (length bs) (scan_dollar c) h (left-scan_dollar c))
            | inr n4 ↦ rw (n1, n2, n3, n4, AtMost) (omega (arith, scan_single (single_char b) b c))
          ]
        ]
      ]
    ]

-- With the first byte taken, every scan leaves at most what is behind it.
left-scan_from :
    (b : ℕ) (bs : Bytes) (before c : Cursor)
    → before.rest ≡ b ∷ bs
    → left c ≤ length bs
    → AtMost (length bs) (scan_from b before c)
unfolding scan_from
left-scan_from b bs before c e h = elim (Bool-cases (b == 39 || b == 34)) [
  | inl k ↦ rw (k, AtMost) (omega (arith, left-scan_string b c))
  | inr n1 ↦ elim (Bool-cases (is_digit b)) [
    | inl k ↦ rw (n1, k, e, AtMost) (left-scan_number b bs c.line c.column k)
    | inr n2 ↦ elim (Bool-cases (is_alpha b || b == b'_')) [
      | inl k ↦
          rw (n1, n2, k, e, AtMost)
            (left-scan_identifier b bs c.line c.column (digit-is_alpha_numeric b k))
      | inr n3 ↦ rw (n1, n2, n3) (left_scan_operators b bs c h)
    ]
  ]
]

-- A round that goes on leaves fewer than `n` bytes.
abbrev Shrinks : ℕ → Round → Type 0
Shrinks n (finished c) = Unit
Shrinks n (skipped c) = left c < n
Shrinks n (scanned t c) = left c < n
Shrinks n failed = Unit

Shrinks-of_scan :
    (m n : ℕ) (r : Result (Token × Cursor)) → m < n → AtMost m r → Shrinks n (of_scan r)
Shrinks-of_scan m n (ok (t, c)) h a = omega arith
Shrinks-of_scan m n (throw e) h a = tt

round_at-Shrinks :
    (bytes : Bytes) (line column n : ℕ)
    → length bytes ≤ n
    → Shrinks n (round_at (record { rest = bytes; line = line; column = column }) bytes)
unfolding skip_comment scan_token advance
round_at-Shrinks [] line column n h = tt
round_at-Shrinks (b ∷ bs) line column n h =
    let c : Cursor = record { rest = b ∷ bs; line = line; column = column } in
    let behind = over b bs line column in
    elim (Bool-cases (b == b'-' && head_char bs == b'-')) [
      | inl k ↦
          rw (k, Shrinks)
            (omega (arith, left-span_first (λ x. not (x == 10)) b bs line column (ground arith)))
      | inr k ↦ rw k (
          Shrinks-of_scan (length bs) n (scan_from b c behind) (omega arith)
            (left-scan_from b bs c behind refl (ground arith)))
    ]

round-Shrinks : (c : Cursor) → Shrinks (left c) (round c)
unfolding round skip_whitespace
round-Shrinks c =
    let c' = (span_at is_space c).1 in
    round_at-Shrinks c'.rest c'.line c'.column (left c) (left-span is_space c.rest c.line c.column)

-- The last token of the list is the end of the input.
abbrev pub EndsInput : List Token → Type 0
EndsInput [] = ⊥
EndsInput (t ∷ []) = t.kind ≡ end_of_input
EndsInput (_ ∷ t ∷ ts) = EndsInput (t ∷ ts)

abbrev pub AllEnd : Result (List Token) → Type 0
AllEnd (ok ts) = EndsInput ts
AllEnd (throw e) = e ≡ parse_error

-- What `tokenize_loop` gives: it does not run out of fuel, and a list of tokens ends the input.
abbrev Ends : Option (Result (List Token)) → Type 0
Ends none = ⊥
Ends (some r) = AllEnd r

Ends-cons : (t : Token) (o : Option (Result (List Token))) → Ends o → Ends (cons_token t o)
Ends-cons t none a = a
Ends-cons t (some (throw x)) a = a
Ends-cons t (some (ok [])) a = absurd a
Ends-cons t (some (ok (t' ∷ ts))) a = a

Ends-some :
    (o : Option (Result (List Token)))
    → Ends o
    → (r : Result (List Token)) × (o ≡ some r) × AllEnd r
Ends-some none a = absurd a
Ends-some (some r) a = (r, refl, a)

Ends-loop_on :
    (n : ℕ) (rest : Cursor → Option (Result (List Token))) (r : Round)
    → Shrinks n r
    → ((c : Cursor) → left c < n → Ends (rest c))
    → Ends (loop_on rest r)
Ends-loop_on n rest (finished c) h ends = refl
Ends-loop_on n rest (skipped c) h ends = ends c h
Ends-loop_on n rest (scanned t c) h ends = Ends-cons t (rest c) (ends c h)
Ends-loop_on n rest failed h ends = refl

Ends-tokenize_loop : (fuel : ℕ) (c : Cursor) → left c < fuel → Ends (tokenize_loop fuel c)
unfolding tokenize_loop
Ends-tokenize_loop zero c h = absurd (omega arith)
Ends-tokenize_loop (suc fuel) c h =
    Ends-loop_on (left c) (λ c'. tokenize_loop fuel c') (round c) (round-Shrinks c)
      (λ c' h'. Ends-tokenize_loop fuel c' (omega arith))

-- Lexing ends on every input: the fuel is enough, and the result is either the parse error or a
-- list of tokens whose last is the end of the input.
pub tokenize_total :
    (input : Bytes) → (r : Result (List Token)) × (tokenize input ≡ some r) × AllEnd r
unfolding tokenize
tokenize_total input =
    let start : Cursor = record { rest = input; line = 1; column = 1 } in
    Ends-some (tokenize_loop (suc (length input)) start)
      (Ends-tokenize_loop (suc (length input)) start (omega arith))
