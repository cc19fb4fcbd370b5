-- ===== src/Parser/Token.antt =====
-- `TokenType` and `Token` of parser/token.{h,cc}, and the keyword table of parser/lexer.cc.
use Prim.Native.Char.{code}
use Prim.Native.String.{String}
use custom_sql_database.Prelude.{
  ℕ, ◌-◌, ◌&&◌, Option, none, some, List, [], ◌∷◌, map, Bytes, leb, if◌then◌else◌, bytes_eq, lookup,
}

-- Keywords carry `_kw`, as some of them do in the source.
pub data TokenType : Type 0 where
  select_kw insert_kw update_kw delete_kw create_kw drop_kw alter_kw add_kw column_kw rename_kw
        to_kw constraint_kw primary_kw key_kw unique_kw between_kw table_kw view_kw if_kw from_kw
        where_kw and_kw or_kw not_kw join_kw inner_kw left_kw right_kw full_kw outer_kw cross_kw
        on_kw group_kw by_kw having_kw order_kw asc_kw desc_kw values_kw set_kw null_kw true_kw
        false_kw as_kw distinct_kw index_kw references_kw foreign_kw cascade_kw restrict_kw begin_kw
        commit_kw rollback_kw prepare_kw execute_kw deallocate_kw in_kw exists_kw default_kw
        vacuum_kw explain_kw check_kw union_kw intersect_kw except_kw all_kw over_kw partition_kw
        range_kw hash_kw of_kw for_kw with_kw modulus_kw remainder_kw function_kw returns_kw
        return_kw procedure_kw call_kw trigger_kw before_kw after_kw each_kw row_kw count_kw sum_kw
        avg_kw min_kw max_kw equal not_equal less less_equal greater greater_equal plus minus
        multiply divide modulo lparen rparen comma dot semicolon asterisk parameter identifier
        number string dollar_quoted_string end_of_input unknown :
      TokenType

pub record Token : Type 0 where
  pub kind : TokenType
  pub lexeme : Bytes
  pub line : ℕ
  pub column : ℕ

-- The bytes of an ASCII literal.
abbrev pub ascii : String → Bytes
ascii String.[] = []
ascii (String.◌∷◌ c s) = code c ∷ ascii s

-- `::toupper` of the C locale.
unfoldable pub to_upper : ℕ → ℕ
to_upper c = if leb 97 c && leb c 122 then c - 32 else c

unfoldable pub keywords : List (Bytes × TokenType)
keywords =
    (ascii "SELECT", select_kw)
    ∷ (ascii "INSERT", insert_kw)
    ∷ (ascii "UPDATE", update_kw)
    ∷ (ascii "DELETE", delete_kw)
    ∷ (ascii "CREATE", create_kw)
    ∷ (ascii "DROP", drop_kw)
    ∷ (ascii "ALTER", alter_kw)
    ∷ (ascii "ADD", add_kw)
    ∷ (ascii "COLUMN", column_kw)
    ∷ (ascii "RENAME", rename_kw)
    ∷ (ascii "TO", to_kw)
    ∷ (ascii "CONSTRAINT", constraint_kw)
    ∷ (ascii "PRIMARY", primary_kw)
    ∷ (ascii "KEY", key_kw)
    ∷ (ascii "UNIQUE", unique_kw)
    ∷ (ascii "BETWEEN", between_kw)
    ∷ (ascii "TABLE", table_kw)
    ∷ (ascii "VIEW", view_kw)
    ∷ (ascii "IF", if_kw)
    ∷ (ascii "FROM", from_kw)
    ∷ (ascii "WHERE", where_kw)
    ∷ (ascii "AND", and_kw)
    ∷ (ascii "OR", or_kw)
    ∷ (ascii "NOT", not_kw)
    ∷ (ascii "JOIN", join_kw)
    ∷ (ascii "INNER", inner_kw)
    ∷ (ascii "LEFT", left_kw)
    ∷ (ascii "RIGHT", right_kw)
    ∷ (ascii "FULL", full_kw)
    ∷ (ascii "OUTER", outer_kw)
    ∷ (ascii "CROSS", cross_kw)
    ∷ (ascii "ON", on_kw)
    ∷ (ascii "GROUP", group_kw)
    ∷ (ascii "BY", by_kw)
    ∷ (ascii "HAVING", having_kw)
    ∷ (ascii "ORDER", order_kw)
    ∷ (ascii "ASC", asc_kw)
    ∷ (ascii "DESC", desc_kw)
    ∷ (ascii "VALUES", values_kw)
    ∷ (ascii "SET", set_kw)
    ∷ (ascii "NULL", null_kw)
    ∷ (ascii "TRUE", true_kw)
    ∷ (ascii "FALSE", false_kw)
    ∷ (ascii "AS", as_kw)
    ∷ (ascii "DISTINCT", distinct_kw)
    ∷ (ascii "INDEX", index_kw)
    ∷ (ascii "REFERENCES", references_kw)
    ∷ (ascii "FOREIGN", foreign_kw)
    ∷ (ascii "CASCADE", cascade_kw)
    ∷ (ascii "RESTRICT", restrict_kw)
    ∷ (ascii "BEGIN", begin_kw)
    ∷ (ascii "COMMIT", commit_kw)
    ∷ (ascii "ROLLBACK", rollback_kw)
    ∷ (ascii "PREPARE", prepare_kw)
    ∷ (ascii "EXECUTE", execute_kw)
    ∷ (ascii "DEALLOCATE", deallocate_kw)
    ∷ (ascii "IN", in_kw)
    ∷ (ascii "EXISTS", exists_kw)
    ∷ (ascii "DEFAULT", default_kw)
    ∷ (ascii "VACUUM", vacuum_kw)
    ∷ (ascii "EXPLAIN", explain_kw)
    ∷ (ascii "CHECK", check_kw)
    ∷ (ascii "UNION", union_kw)
    ∷ (ascii "INTERSECT", intersect_kw)
    ∷ (ascii "EXCEPT", except_kw)
    ∷ (ascii "ALL", all_kw)
    ∷ (ascii "OVER", over_kw)
    ∷ (ascii "PARTITION", partition_kw)
    ∷ (ascii "RANGE", range_kw)
    ∷ (ascii "HASH", hash_kw)
    ∷ (ascii "OF", of_kw)
    ∷ (ascii "FOR", for_kw)
    ∷ (ascii "WITH", with_kw)
    ∷ (ascii "MODULUS", modulus_kw)
    ∷ (ascii "REMAINDER", remainder_kw)
    ∷ (ascii "FUNCTION", function_kw)
    ∷ (ascii "RETURNS", returns_kw)
    ∷ (ascii "RETURN", return_kw)
    ∷ (ascii "PROCEDURE", procedure_kw)
    ∷ (ascii "CALL", call_kw)
    ∷ (ascii "TRIGGER", trigger_kw)
    ∷ (ascii "BEFORE", before_kw)
    ∷ (ascii "AFTER", after_kw)
    ∷ (ascii "EACH", each_kw)
    ∷ (ascii "ROW", row_kw)
    ∷ (ascii "COUNT", count_kw)
    ∷ (ascii "SUM", sum_kw)
    ∷ (ascii "AVG", avg_kw)
    ∷ (ascii "MIN", min_kw)
    ∷ (ascii "MAX", max_kw)
    ∷ []

abbrev or_identifier : Option TokenType → TokenType
or_identifier none = identifier
or_identifier (some kind) = kind

unfoldable pub get_keyword_token_type : Bytes → TokenType
unfolding to_upper keywords
get_keyword_token_type word = or_identifier (lookup (map to_upper word) keywords)
