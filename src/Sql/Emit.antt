-- ===== src/Sql/Emit.antt =====
-- `JoinExpr` of src/wcd/sql_ipart.cpp and `ISql::emit` and `ISql::quoteName` of isql.cpp: the text of a
-- condition, with its parameters bound in the order of the text. The virtual `quoteName` is the parameter
-- `quote_name`. The object of the parameters has been made, so that `Bindings::getParams` has no error.
pub mod Order
use zpp_cpp.Common.{
  ℕ, zero, suc, ◌+◌, Bool, true, false, not, ◌&&◌, ◌||◌, List, [], ◌∷◌, ◌++◌, Option, none, some,
  length, ltb, ◌==◌, if◌then◌else◌, Bytes, codes, ℤ, pos, negsuc,
}
use zpp_cpp.Php.{Val}
use zpp_cpp.Sql.Literal
use zpp_cpp.Sql.Literal.{Literal}
use zpp_cpp.Sql.Operators.{op_str, bool_str}
use zpp_cpp.Sql.Columns.{TableAttr}
use zpp_cpp.Sql.Params.{Kind, IParams, add_param_equals}

-- `ISql::quoteName`
unfoldable pub quote_name : Bytes → Bytes
quote_name [] = codes "``"
quote_name (c ∷ s) = if c == b'*' || c == b'`' then c ∷ s else b'`' ∷ ((c ∷ s) ++ b'`' ∷ [])

-- An operand is null, an object, the name of a column, or another value by its text. The objects are the
-- parts of a statement, other parts, which `emit` does not take, and objects that are no part.
mutual
  pub data JoinExpr : Type 0 where
    join_expr : Operand → Operand → ℤ → ℤ → JoinExpr

  pub data Operand : Type 0 where
    no_operand : Operand
    object : Object → Operand
    column : Bytes → Operand
    scalar : Bytes → Operand

  pub data Object : Type 0 where
    table_attr : TableAttr → Object
    literal : Literal → Object
    expr : Bytes → Object
    condition : JoinExpr → Object
    parameter : Val → Object
    other_part foreign : Object

-- The result `bireturn<str_rc>`; `fault` is set where the source has followed a null pointer, and so has
-- no result.
pub record Text : Type 0 where
  pub value : Bytes
  pub error : Bytes
  pub fault : Bool

abbrev pub Emitted : Type 0
Emitted = IParams × Text

abbrev pub plain : Bytes → Text
plain s = record { value = s; error = []; fault = false }

abbrev pub failed : Bytes → Bytes → Text
failed s e = record { value = s; error = e; fault = false }

abbrev pub null_pointer : Text
null_pointer = record { value = []; error = []; fault = true }

-- There is an error, which every caller asks for, or no result at all.
abbrev pub stopped : Text → Bool
stopped r = r.fault || ltb 0 (length r.error)

-- `none` is a literal that is not returned, which does not occur; and an index outside of a vector, which the
-- source does not test.
abbrev pub text_or_nil : Option Bytes → Bytes
text_or_nil none = []
text_or_nil (some s) = s

-- The connective is left out in the first condition, and where there is none.
abbrev start_text : ℕ → ℤ → Bytes
start_text ix (pos zero) = []
start_text ix nextop = if ltb 0 ix then codes " " ++ text_or_nil (bool_str nextop) else []

abbrev op_text : ℤ → Bytes
op_text (pos n) = if ltb n 11 then codes " " ++ text_or_nil (op_str (pos n)) else []
op_text op = codes " " ++ text_or_nil (op_str op)

-- An object behind its blank, and nothing else of it when there is an error.
abbrev pub spaced : Emitted → Emitted
spaced (p, r) =
    if stopped r then (p, record r { value = codes " " }) else (p, plain (codes " " ++ r.value))

-- A nested condition in its brackets; an error passes on what there is of the text.
abbrev pub bracketed : Emitted → Emitted
bracketed (p, r) = if stopped r then (p, r) else (p, plain (codes " (" ++ (r.value ++ codes " )")))

abbrev pub bound : IParams × Bytes → Emitted
bound (p, text) = (p, plain text)

-- The two operands around the operator; after an error in the left one the rest is passed over, after one
-- in the right one nothing is left to do.
abbrev pub joined : Bytes → Bytes → Emitted → Emitted → Emitted
joined start op (p1, left) (p2, right) =
    if stopped left
    then (p1, record left { value = start ++ left.value })
    else (p2, record right { value = start ++ (left.value ++ (op ++ right.value)) })

module _ (quoted : Bytes → Bytes) (print_int : ℕ → Bytes) (to_zstr : Val → Bytes) (k : Kind) where
  -- `JoinExpr::emit`, one of its operands, and `ISql::emit`.
  unfoldable mutual
    pub emit_join : ℕ → Bytes → Bytes → JoinExpr → IParams → Emitted
    emit_join ix lalias ralias (join_expr l r op nextop) p =
        let left = emit_operand lalias lalias ralias l p in
        let right = emit_operand ralias lalias ralias r left.0 in
        joined (start_text ix nextop) (op_text op) left right

    pub emit_operand : Bytes → Bytes → Bytes → Operand → IParams → Emitted
    emit_operand alias lalias ralias no_operand p = (p, plain [])
    emit_operand alias lalias ralias (object o) p = spaced (emit lalias ralias o p)
    emit_operand alias lalias ralias (column s) p =
        (p, plain (codes " " ++ (alias ++ (codes "." ++ quoted s))))
    emit_operand alias lalias ralias (scalar s) p = (p, plain (codes " " ++ s))

    pub emit : Bytes → Bytes → Object → IParams → Emitted
    emit lalias ralias (table_attr ta) p = (p, plain (ta.table ++ (codes "." ++ quoted ta.attr)))
    emit lalias ralias (literal l) p = (p, plain (text_or_nil (Literal.to_string to_zstr l)))
    emit lalias ralias (expr s) p = (p, plain s)
    emit lalias ralias (condition j) p = bracketed (emit_join 0 lalias ralias j p)
    emit lalias ralias (parameter v) p = bound (add_param_equals print_int to_zstr k v p)
    emit lalias ralias other_part p = (p, failed [] (codes "Unmatched partid in emit"))
    emit lalias ralias foreign p = (p, failed [] (codes "SqlPartId object expected"))
