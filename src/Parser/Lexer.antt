-- ===== src/Parser/Lexer.antt =====
-- `Lexer` of parser/lexer.{h,cc}. The input from `pos_` on is the rest of a cursor; a `char` is a
-- byte, and `std::isspace` is that of the C locale.
pub mod Strings
pub mod Progress
use custom_sql_database.Prelude.{
  ℕ, zero, suc, ◌+◌, ◌-◌, Bool, true, false, not, ◌&&◌, ◌||◌, Option, none, some, List, [], ◌∷◌,
  ◌++◌, ◌==◌, leb, Bytes, length, if◌then◌else◌, arith,
}
use custom_sql_database.Errors.{Result, ok, throw, parse_error}
use custom_sql_database.Parser.Token.{
  Token, TokenType, get_keyword_token_type, ascii, equal, not_equal, less, less_equal, greater,
  greater_equal, plus, minus, divide, modulo, lparen, rparen, comma, dot, semicolon, asterisk,
  parameter, number, string, dollar_quoted_string, end_of_input, unknown,
}

pub record Cursor : Type 0 where
  pub rest : Bytes
  pub line : ℕ
  pub column : ℕ

-- `current_char` and `peek_char`: a NUL beyond the end.
abbrev pub head_char : Bytes → ℕ
head_char [] = 0
head_char (b ∷ _) = b

abbrev pub second_char : Bytes → ℕ
second_char [] = 0
second_char (_ ∷ bs) = head_char bs

-- `advance` over the byte `b`, with `bs` behind it.
abbrev pub over : ℕ → Bytes → ℕ → ℕ → Cursor
over b bs line column =
    if b == 10
    then record { rest = bs; line = line + 1; column = 1 }
    else record { rest = bs; line = line; column = column + 1 }

unfoldable pub advance : Cursor → Cursor
advance c = elim c.rest [ [] ↦ c | b ∷ bs ↦ over b bs c.line c.column ]

abbrev pub is_digit : ℕ → Bool
is_digit c = leb 48 c && leb c 57

abbrev pub is_alpha : ℕ → Bool
is_alpha c = (leb 97 c && leb c 122) || (leb 65 c && leb c 90) || c == 95

abbrev pub is_alpha_numeric : ℕ → Bool
is_alpha_numeric c = is_alpha c || is_digit c

abbrev pub is_space : ℕ → Bool
is_space c = c == 32 || (leb 9 c && leb c 13)

-- while (!is_at_end() && p(current_char())) { out += current_char(); advance(); }
unfoldable pub span : (ℕ → Bool) → Bytes → ℕ → ℕ → Bytes × Cursor
span p [] line column = ([], record { rest = []; line = line; column = column })
span p (b ∷ bs) line column =
    let c = over b bs line column in
    let (taken, after) = span p bs c.line c.column in
    if p b then (b ∷ taken, after) else ([], record { rest = b ∷ bs; line = line; column = column })

abbrev pub span_at : (ℕ → Bool) → Cursor → Bytes × Cursor
span_at p c = span p c.rest c.line c.column

unfoldable pub skip_whitespace : Cursor → Cursor
skip_whitespace c = (span_at is_space c).1

unfoldable pub skip_comment : Cursor → Cursor
skip_comment c = (span_at (λ b. not (b == 10)) c).1

abbrev pub token_at : TokenType → Bytes → ℕ → ℕ → Token
token_at kind lexeme line column = record {
  kind = kind;
  lexeme = lexeme;
  line = line;
  column = column;
}

-- `make_token`, at the cursor behind the lexeme.
abbrev pub make_token : TokenType → Bytes → Cursor → Token × Cursor
make_token kind lexeme c = (token_at kind lexeme c.line (c.column - length lexeme), c)

-- The character that a backslash and `c` stand for.
abbrev pub unescape : ℕ → ℕ
unescape c = if c == b'n' then 10 else if c == b't' then 9 else if c == b'r' then 13 else c

abbrev pub prepend : ℕ → Bytes × Cursor → Bytes × Cursor
prepend b (bs, c) = (b ∷ bs, c)

-- The loop of `scan_string`: the value, and the cursor behind the closing quote. A newline moves
-- the line here and again in `advance`.
unfoldable pub string_loop : ℕ → Bytes → ℕ → ℕ → Bytes × Cursor
string_loop quote [] line column = ([], record { rest = []; line = line; column = column })
string_loop quote (b ∷ []) line column =
    if b == quote
    then ([], over b [] line column)
    else if b == 92
    then ([], over b [] line column)
    else if b == 10
    then (b ∷ [], over b [] (line + 1) 0)
    else (b ∷ [], over b [] line column)
string_loop quote (b ∷ d ∷ bs) line column =
    let one = over b (d ∷ bs) line column in
    let two = over d bs one.line one.column in
    let moved = if b == 10 then over b (d ∷ bs) (line + 1) 0 else one in
    let doubled = prepend quote (string_loop quote bs two.line two.column) in
    let escaped = prepend (unescape d) (string_loop quote bs two.line two.column) in
    let plain = prepend b (string_loop quote (d ∷ bs) moved.line moved.column) in
    if b == quote
    then (if d == quote then doubled else ([], one))
    else if b == 92
    then escaped
    else plain

unfoldable pub scan_string : ℕ → Cursor → Token × Cursor
scan_string quote c =
    let (value, after) = string_loop quote c.rest c.line c.column in
    (token_at string value c.line c.column, after)

-- The fraction of `scan_number`: a dot that a digit follows, and the digits.
unfoldable pub scan_fraction : Cursor → Bytes × Cursor
scan_fraction c =
    let (digits, after) = span_at is_digit (advance c) in
    if head_char c.rest == b'.' && is_digit (second_char c.rest)
    then (b'.' ∷ digits, after)
    else ([], c)

unfoldable pub scan_sign : Cursor → Bytes × Cursor
scan_sign c =
    if head_char c.rest == b'+' || head_char c.rest == b'-'
    then (head_char c.rest ∷ [], advance c)
    else ([], c)

unfoldable pub scan_exponent : Cursor → Bytes × Cursor
scan_exponent c =
    let (sign, signed) = scan_sign (advance c) in
    let (digits, after) = span_at is_digit signed in
    if head_char c.rest == b'e' || head_char c.rest == b'E'
    then (head_char c.rest ∷ sign ++ digits, after)
    else ([], c)

unfoldable pub scan_number : Cursor → Token × Cursor
scan_number c =
    let (digits, behind_digits) = span_at is_digit c in
    let (fraction, behind_fraction) = scan_fraction behind_digits in
    let (exponent, after) = scan_exponent behind_fraction in
    (token_at number (digits ++ fraction ++ exponent) after.line c.column, after)

unfoldable pub scan_identifier : Cursor → Token × Cursor
scan_identifier c =
    let (word, after) = span_at is_alpha_numeric c in
    (token_at (get_keyword_token_type word) word after.line c.column, after)

abbrev prepend_some : ℕ → Option (Bytes × Cursor) → Option (Bytes × Cursor)
prepend_some b none = none
prepend_some b (some (bs, c)) = some (b ∷ bs, c)

-- The loop of a dollar-quoted string; `none` if it does not end.
unfoldable pub dollar_loop : Bytes → ℕ → ℕ → Option (Bytes × Cursor)
dollar_loop [] line column = none
dollar_loop (b ∷ []) line column = none
dollar_loop (b ∷ d ∷ bs) line column =
    let one = over b (d ∷ bs) line column in
    let two = over d bs one.line one.column in
    let moved = if b == 10 then over b (d ∷ bs) (line + 1) 0 else one in
    let more = prepend_some b (dollar_loop (d ∷ bs) moved.line moved.column) in
    if b == b'$' && d == b'$' then some ([], two) else more

-- From behind the second dollar sign.
unfoldable pub scan_dollar_quoted : Cursor → Result (Token × Cursor)
scan_dollar_quoted c = elim (dollar_loop c.rest c.line c.column) [
  | none ↦ throw parse_error
  | some (value, after) ↦ ok (token_at dollar_quoted_string value c.line (c.column - 2), after)
]

-- From behind the first dollar sign.
unfoldable pub scan_dollar : Cursor → Result (Token × Cursor)
scan_dollar c =
    let (digits, after) = span_at is_digit c in
    if head_char c.rest == b'$'
    then scan_dollar_quoted (advance c)
    else if not (is_digit (head_char c.rest))
    then ok (token_at unknown (b'$' ∷ []) c.line c.column, c)
    else ok (token_at parameter (b'$' ∷ digits) after.line (c.column - 1), after)

-- `<`, `<=` and `<>`; `>` and `>=`; `!=`: from behind the first character.
unfoldable pub scan_less : Cursor → Token × Cursor
scan_less c =
    if head_char c.rest == b'='
    then make_token less_equal (ascii "<=") (advance c)
    else if head_char c.rest == b'>'
    then make_token not_equal (ascii "<>") (advance c)
    else make_token less (ascii "<") c

unfoldable pub scan_greater : Cursor → Token × Cursor
scan_greater c =
    if head_char c.rest == b'='
    then make_token greater_equal (ascii ">=") (advance c)
    else make_token greater (ascii ">") c

unfoldable pub scan_bang : Cursor → Token × Cursor
scan_bang c =
    if head_char c.rest == b'='
    then make_token not_equal (ascii "!=") (advance c)
    else (token_at unknown (ascii "!") c.line c.column, c)

-- The operators and delimiters of one character.
unfoldable pub single_char : ℕ → Option TokenType
single_char b =
    if b == b'='
    then some equal
    else if b == b'+'
    then some plus
    else if b == b'-'
    then some minus
    else if b == b'*'
    then some asterisk
    else if b == b'/'
    then some divide
    else if b == b'%'
    then some modulo
    else if b == b'('
    then some lparen
    else if b == b')'
    then some rparen
    else if b == b','
    then some comma
    else if b == b'.'
    then some dot
    else if b == b';'
    then some semicolon
    else if b == b'?'
    then some parameter
    else none

abbrev pub single_or_unknown : Option TokenType → ℕ → Cursor → Token × Cursor
single_or_unknown none b c = (token_at unknown (b ∷ []) c.line c.column, c)
single_or_unknown (some kind) b c = make_token kind (b ∷ []) c

-- `scan_token` with the first character taken. Numbers and words back up: `pos_--` gives the
-- character back and leaves the column as it is.
unfoldable pub scan_from : ℕ → Cursor → Cursor → Result (Token × Cursor)
scan_from b before c =
    let backed : Cursor = record c { rest = before.rest } in
    if b == 39 || b == 34
    then ok (scan_string b c)
    else if is_digit b
    then ok (scan_number backed)
    else if is_alpha b || b == b'_'
    then ok (scan_identifier backed)
    else if b == b'<'
    then ok (scan_less c)
    else if b == b'>'
    then ok (scan_greater c)
    else if b == b'!'
    then ok (scan_bang c)
    else if b == b'$'
    then scan_dollar c
    else ok (single_or_unknown (single_char b) b c)

unfoldable pub scan_token : Cursor → Result (Token × Cursor)
scan_token c = scan_from (head_char c.rest) c (advance c)

-- What one round of the loop of `tokenize` does.
pub data Round : Type 0 where
  finished : Cursor → Round
  skipped : Cursor → Round
  scanned : Token → Cursor → Round
  failed : Round

abbrev pub of_scan : Result (Token × Cursor) → Round
of_scan (ok (t, c)) = scanned t c
of_scan (throw e) = failed

-- The round behind the white space, by the bytes at the cursor.
abbrev pub round_at : Cursor → Bytes → Round
round_at c [] = finished c
round_at c (b ∷ bs) =
    if b == b'-' && head_char bs == b'-' then skipped (skip_comment c) else of_scan (scan_token c)

unfoldable pub round : Cursor → Round
round before = let c = skip_whitespace before in round_at c c.rest

-- The outer `none` means that the fuel ran out.
abbrev pub cons_token : Token → Option (Result (List Token)) → Option (Result (List Token))
cons_token t none = none
cons_token t (some (throw e)) = some (throw e)
cons_token t (some (ok ts)) = some (ok (t ∷ ts))

-- The rest of the loop, behind a round.
abbrev pub loop_on : (Cursor → Option (Result (List Token))) → Round → Option (Result (List Token))
loop_on rest (finished c) = some (ok (token_at end_of_input [] c.line c.column ∷ []))
loop_on rest (skipped c) = rest c
loop_on rest (scanned t c) = cons_token t (rest c)
loop_on rest failed = some (throw parse_error)

-- Each round consumes input, so the fuel bounds the rounds.
unfoldable pub tokenize_loop : ℕ → Cursor → Option (Result (List Token))
tokenize_loop zero c = none
tokenize_loop (suc fuel) c = loop_on (λ c'. tokenize_loop fuel c') (round c)

unfoldable pub tokenize : Bytes → Option (Result (List Token))
tokenize input = tokenize_loop (suc (length input)) (record { rest = input; line = 1; column = 1 })
