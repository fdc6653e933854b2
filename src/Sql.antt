-- ===== src/Sql.antt =====
-- src/wcd/sql_ipart.cpp, sql_isql.cpp, isql.cpp, iparams.cpp and namedparams.cpp: the parts of an SQL
-- statement, their texts, and the parameters that are bound to it. A result with an error is a
-- `Return`: the value and the text of the error, which is empty where there is none.
pub mod Op
pub mod Reading
pub mod Literal
pub mod Columns
pub mod Params
pub mod Emit
pub mod Where
pub mod Joins
pub mod Select
pub mod Insert
pub mod Change
pub mod Quoting
pub mod Clauses
pub mod Operators
use zpp_cpp.Common.{List, Bytes, ℤ}

-- `bireturn<T>`
pub record Return {ℓ} (A : Type ℓ) : Type ℓ where
  pub value : A
  pub error : Bytes
