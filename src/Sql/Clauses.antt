-- ===== src/Sql/Clauses.antt =====
-- `Bindings` of src/wcd/bindings.cpp: the clauses of a statement, gathered under the numbers of `ISql`
-- before it is written. A `JoinTables` object is `object n`, the n-th of the tables that the bindings
-- have made; a value of another kind that is used as one is a fault, `none`. Numbers are not negative.
-- The connection and its parameters, which `wipe` drops too, and the SELECT are not modelled here.
pub mod Store
pub mod Conditions
pub mod Others
pub mod Pairs
