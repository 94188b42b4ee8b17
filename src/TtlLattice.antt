-- ===== src/TtlLattice.antt =====
-- eve_q/ttl_lattice.py: the bounded-authority manifest and the evaluation of typed clocks and of a
-- requested scope. Times are in microseconds. `datetime.fromisoformat` is an argument. Reasons are values, in the order in which
-- they arise: the receipt sorts their texts. `set` constants that the code walks through in an
-- unspecified order are walked in the order of the source.
pub mod Floats
pub mod Manifest
pub mod Scope
pub mod Clocks
pub mod Evaluate
