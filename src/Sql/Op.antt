-- ===== src/Sql/Op.antt =====
-- The numbers of the operators of `JoinExpr`, src/wcd/sql_ipart.h.
use zpp_cpp.Common.{ℤ, pos, negsuc}

abbrev pub error : ℤ
error = negsuc 0

abbrev pub eq : ℤ
eq = pos 0

abbrev pub neq : ℤ
neq = pos 1

abbrev pub gt : ℤ
gt = pos 2

abbrev pub lt : ℤ
lt = pos 3

abbrev pub ge : ℤ
ge = pos 4

abbrev pub le : ℤ
le = pos 5

abbrev pub like : ℤ
like = pos 6

abbrev pub and : ℤ
and = pos 7

abbrev pub or : ℤ
or = pos 8

abbrev pub is_null : ℤ
is_null = pos 9

abbrev pub not_null : ℤ
not_null = pos 10

abbrev pub nop : ℤ
nop = pos 11
