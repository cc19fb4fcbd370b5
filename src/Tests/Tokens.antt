-- ===== src/Tests/Tokens.antt =====
-- Lexing of small inputs (parser/lexer.cc).
use custom_sql_database.Prelude.{
  map, lookup, ◌≡◌, refl, ◌++◌, inl, List, [], ◌∷◌, some, Bytes, arith,
}
use custom_sql_database.Parser.TokenName.{token_type_to_string, token_type_to_string-keyword}
use custom_sql_database.Errors.{Result}
use custom_sql_database.Parser.Token.{Token, string, to_upper, keywords, get_keyword_token_type}
use custom_sql_database.Parser.Lexer.{scan_string, tokenize}
use custom_sql_database.Parser.Lexer.Strings.{escape, scan-escape}
use custom_sql_database.Parser.Lexer.Progress.{AllEnd, tokenize_total}

-- it's
abbrev its : Bytes
its = b'i' ∷ b't' ∷ 39 ∷ b's' ∷ []

scan-escape_example :
    let input = escape 39 its ++ 39 ∷ b';' ∷ [] in
    let scanned = scan_string 39 (record { rest = input; line = 1; column = 2 }) in
    (scanned.0.kind ≡ string) × (scanned.0.lexeme ≡ its) × (scanned.1.rest ≡ b';' ∷ [])
scan-escape_example =
    scan-escape 39 its (b';' ∷ []) 1 2 (inl refl) (λ e. absurd (ground (arith, e)))

-- a 1
abbrev query : Bytes
query = b'a' ∷ 32 ∷ b'1' ∷ []

tokenize_total_example : (r : Result (List Token)) × (tokenize query ≡ some r) × AllEnd r
tokenize_total_example = tokenize_total query

-- from
abbrev word : Bytes
word = b'f' ∷ b'r' ∷ b'o' ∷ b'm' ∷ []

token_type_to_string-keyword_example :
    token_type_to_string (get_keyword_token_type word) ≡ map to_upper word
unfolding get_keyword_token_type keywords lookup
token_type_to_string-keyword_example =
    token_type_to_string-keyword word (λ e. absurd (ground (arith, e)))
