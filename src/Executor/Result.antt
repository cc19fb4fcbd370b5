-- ===== src/Executor/Result.antt =====
-- `QueryResult` of executor/query_executor.h, without the message of a failure.
use custom_sql_database.Prelude.{ℕ, Bool, false, List, [], Bytes}
use custom_sql_database.Types.Value.{Value}

pub record QueryResult : Type 0 where
  pub success : Bool
  pub column_names : List Bytes
  pub rows : List (List Value)
  pub affected_rows : ℕ

abbrev pub error_result : QueryResult
error_result = record { success = false; column_names = []; rows = []; affected_rows = 0 }
