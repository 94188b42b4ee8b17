-- ===== src/OrganContract.antt =====
-- eve_q/organ_contract.py: the shape of a contract, and the check of a receipt against it. `str` of a
-- value that is no text is an argument, and a check that raises is `none`. The contract that is
-- loaded where none is given is an argument.
pub mod Check
pub mod Membrane
