-- ===== src/Parser/TokenName.antt =====
-- `token_type_to_string` of parser/token.cc, against the keyword table of parser/lexer.cc.
use custom_sql_database.Prelude.{
  ◌≡◌, ◌≢◌, refl, Bool, true, inl, inr, some, List, [], ◌∷◌, map, Bytes, arith, bytes_beq,
  bytes_beq_iff, bytes_eq, lookup, all, Option-cases,
}
use custom_sql_database.Parser.Token.{
  TokenType, ascii, to_upper, keywords, get_keyword_token_type, select_kw, insert_kw, update_kw,
  delete_kw, create_kw, drop_kw, alter_kw, add_kw, column_kw, rename_kw, to_kw, constraint_kw,
  primary_kw, key_kw, unique_kw, between_kw, table_kw, view_kw, if_kw, from_kw, where_kw, and_kw,
  or_kw, not_kw, join_kw, inner_kw, left_kw, right_kw, full_kw, outer_kw, cross_kw, on_kw, group_kw,
  by_kw, having_kw, order_kw, asc_kw, desc_kw, values_kw, set_kw, null_kw, true_kw, false_kw, as_kw,
  distinct_kw, index_kw, references_kw, foreign_kw, cascade_kw, restrict_kw, begin_kw, commit_kw,
  rollback_kw, prepare_kw, execute_kw, deallocate_kw, in_kw, exists_kw, default_kw, vacuum_kw,
  explain_kw, check_kw, union_kw, intersect_kw, except_kw, all_kw, over_kw, partition_kw, range_kw,
  hash_kw, of_kw, for_kw, with_kw, modulus_kw, remainder_kw, function_kw, returns_kw, return_kw,
  procedure_kw, call_kw, trigger_kw, before_kw, after_kw, each_kw, row_kw, count_kw, sum_kw, avg_kw,
  min_kw, max_kw, equal, not_equal, less, less_equal, greater, greater_equal, plus, minus, multiply,
  divide, modulo, lparen, rparen, comma, dot, semicolon, asterisk, parameter, identifier, number,
  string, dollar_quoted_string, end_of_input, unknown,
}

unfoldable pub token_type_to_string : TokenType → Bytes
token_type_to_string select_kw = ascii "SELECT"
token_type_to_string insert_kw = ascii "INSERT"
token_type_to_string update_kw = ascii "UPDATE"
token_type_to_string delete_kw = ascii "DELETE"
token_type_to_string create_kw = ascii "CREATE"
token_type_to_string drop_kw = ascii "DROP"
token_type_to_string alter_kw = ascii "ALTER"
token_type_to_string add_kw = ascii "ADD"
token_type_to_string column_kw = ascii "COLUMN"
token_type_to_string rename_kw = ascii "RENAME"
token_type_to_string to_kw = ascii "TO"
token_type_to_string constraint_kw = ascii "CONSTRAINT"
token_type_to_string primary_kw = ascii "PRIMARY"
token_type_to_string key_kw = ascii "KEY"
token_type_to_string unique_kw = ascii "UNIQUE"
token_type_to_string between_kw = ascii "BETWEEN"
token_type_to_string table_kw = ascii "TABLE"
token_type_to_string view_kw = ascii "VIEW"
token_type_to_string if_kw = ascii "IF"
token_type_to_string from_kw = ascii "FROM"
token_type_to_string where_kw = ascii "WHERE"
token_type_to_string and_kw = ascii "AND"
token_type_to_string or_kw = ascii "OR"
token_type_to_string not_kw = ascii "NOT"
token_type_to_string join_kw = ascii "JOIN"
token_type_to_string inner_kw = ascii "INNER"
token_type_to_string left_kw = ascii "LEFT"
token_type_to_string right_kw = ascii "RIGHT"
token_type_to_string full_kw = ascii "FULL"
token_type_to_string outer_kw = ascii "OUTER"
token_type_to_string cross_kw = ascii "CROSS"
token_type_to_string on_kw = ascii "ON"
token_type_to_string group_kw = ascii "GROUP"
token_type_to_string by_kw = ascii "BY"
token_type_to_string having_kw = ascii "HAVING"
token_type_to_string order_kw = ascii "ORDER"
token_type_to_string asc_kw = ascii "ASC"
token_type_to_string desc_kw = ascii "DESC"
token_type_to_string values_kw = ascii "VALUES"
token_type_to_string set_kw = ascii "SET"
token_type_to_string null_kw = ascii "NULL"
token_type_to_string true_kw = ascii "TRUE"
token_type_to_string false_kw = ascii "FALSE"
token_type_to_string as_kw = ascii "AS"
token_type_to_string distinct_kw = ascii "DISTINCT"
token_type_to_string index_kw = ascii "INDEX"
token_type_to_string references_kw = ascii "REFERENCES"
token_type_to_string foreign_kw = ascii "FOREIGN"
token_type_to_string cascade_kw = ascii "CASCADE"
token_type_to_string restrict_kw = ascii "RESTRICT"
token_type_to_string begin_kw = ascii "BEGIN"
token_type_to_string commit_kw = ascii "COMMIT"
token_type_to_string rollback_kw = ascii "ROLLBACK"
token_type_to_string prepare_kw = ascii "PREPARE"
token_type_to_string execute_kw = ascii "EXECUTE"
token_type_to_string deallocate_kw = ascii "DEALLOCATE"
token_type_to_string in_kw = ascii "IN"
token_type_to_string exists_kw = ascii "EXISTS"
token_type_to_string default_kw = ascii "DEFAULT"
token_type_to_string vacuum_kw = ascii "VACUUM"
token_type_to_string explain_kw = ascii "EXPLAIN"
token_type_to_string check_kw = ascii "CHECK"
token_type_to_string union_kw = ascii "UNION"
token_type_to_string intersect_kw = ascii "INTERSECT"
token_type_to_string except_kw = ascii "EXCEPT"
token_type_to_string all_kw = ascii "ALL"
token_type_to_string over_kw = ascii "OVER"
token_type_to_string partition_kw = ascii "PARTITION"
token_type_to_string range_kw = ascii "RANGE"
token_type_to_string hash_kw = ascii "HASH"
token_type_to_string of_kw = ascii "OF"
token_type_to_string for_kw = ascii "FOR"
token_type_to_string with_kw = ascii "WITH"
token_type_to_string modulus_kw = ascii "MODULUS"
token_type_to_string remainder_kw = ascii "REMAINDER"
token_type_to_string function_kw = ascii "FUNCTION"
token_type_to_string returns_kw = ascii "RETURNS"
token_type_to_string return_kw = ascii "RETURN"
token_type_to_string procedure_kw = ascii "PROCEDURE"
token_type_to_string call_kw = ascii "CALL"
token_type_to_string trigger_kw = ascii "TRIGGER"
token_type_to_string before_kw = ascii "BEFORE"
token_type_to_string after_kw = ascii "AFTER"
token_type_to_string each_kw = ascii "EACH"
token_type_to_string row_kw = ascii "ROW"
token_type_to_string count_kw = ascii "COUNT"
token_type_to_string sum_kw = ascii "SUM"
token_type_to_string avg_kw = ascii "AVG"
token_type_to_string min_kw = ascii "MIN"
token_type_to_string max_kw = ascii "MAX"
token_type_to_string equal = ascii "="
token_type_to_string not_equal = ascii "!="
token_type_to_string less = ascii "<"
token_type_to_string less_equal = ascii "<="
token_type_to_string greater = ascii ">"
token_type_to_string greater_equal = ascii ">="
token_type_to_string plus = ascii "+"
token_type_to_string minus = ascii "-"
token_type_to_string multiply = ascii "*"
token_type_to_string divide = ascii "/"
token_type_to_string modulo = ascii "%"
token_type_to_string lparen = ascii "("
token_type_to_string rparen = ascii ")"
token_type_to_string comma = ascii ","
token_type_to_string dot = ascii "."
token_type_to_string semicolon = ascii ";"
token_type_to_string asterisk = ascii "*"
token_type_to_string parameter = ascii "PARAMETER"
token_type_to_string identifier = ascii "IDENTIFIER"
token_type_to_string number = ascii "NUMBER"
token_type_to_string string = ascii "STRING"
token_type_to_string dollar_quoted_string = ascii "DOLLAR_QUOTED_STRING"
token_type_to_string end_of_input = ascii "EOF"
token_type_to_string unknown = ascii "UNKNOWN"

-- The entry of the table has the name of its token.
is_named : Bytes × TokenType → Bool
is_named (word, kind) = bytes_beq (token_type_to_string kind) word

keywords-is_named : all is_named keywords ≡ true
unfolding is_named token_type_to_string keywords
keywords-is_named = refl

lookup-is_named :
    (word : Bytes) (kind : TokenType) (table : List (Bytes × TokenType))
    → all is_named table ≡ true
    → lookup word table ≡ some kind
    → token_type_to_string kind ≡ word
unfolding is_named lookup
lookup-is_named word kind [] h found = absurd (ground (arith, found))
lookup-is_named word kind ((w, k) ∷ table) h found = ground (
  arith,
  lookup-is_named word kind table,
  bytes_beq_iff w word,
  bytes_beq_iff (token_type_to_string k) w,
  found,
  h,
)

-- A word that the lexer takes for a keyword, in any case, has the type that is printed as the
-- word in upper case.
pub token_type_to_string-keyword :
    (word : Bytes)
    → get_keyword_token_type word ≢ identifier
    → token_type_to_string (get_keyword_token_type word) ≡ map to_upper word
unfolding get_keyword_token_type
token_type_to_string-keyword word h = elim (Option-cases (lookup (map to_upper word) keywords)) [
  | inl missing ↦ absurd (h (rw missing refl))
  | inr (kind, found) ↦
      rw found (lookup-is_named (map to_upper word) kind keywords keywords-is_named found)
]
