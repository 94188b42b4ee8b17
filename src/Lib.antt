-- ===== src/Lib.antt =====
-- Verification library of the Codex trading engine: the governance core of the Python package
-- eve_q, that is, the code that decides whether a receipt, a completion, a time limit, a tier or a
-- gate proposal is accepted.
--
-- The parts and how they meet:
--   Receipts (eve_q/immutable_receipts.py, receipt_ledger_audit.py, receipt_merkle_audit.py,
--     receipt_merkle_anchor.py): a receipt payload is checked (Receipts.Payload), wrapped
--     (Receipts.Envelope), pinned with a writer (Receipts.Ipfs, an interface that
--     InMemoryIpfsWriter fills) and entered in a ledger (Receipts.Seal). The ledger is audited
--     (Receipts.Audit), its Merkle root is computed (Receipts.Merkle) and sealed as a receipt of
--     its own (Receipts.Anchor).
--   MerkleTree (eve_q/merkle_proofs.py): trees over batches of leaves, and inclusion proofs.
--   CapitalGate (eve_q/capital_action_gate.py): completion certificates over a ledger's audit.
--   TtlPolicy (eve_q/ttl_policy.py): the shape of a policy and the evaluation of a state under it.
--   DeploymentGates (eve_q/deployment_gates.py): tiers, graduation, the risk governor and its
--     circuit breaker, the metrics that graduation reads, and the store of decisions.
--   GateDescent (eve_q/gate_descent.py): proposals to go from Gate 0 to Gate 1.
--   TtlLattice (eve_q/ttl_lattice.py): the bounded-authority manifest (TtlLattice.Manifest), the
--     scope of a request (Scope), whose amounts are compared as floats (Floats), typed clocks
--     (Clocks) and the receipt of an evaluation (Evaluate).
--   RiskManagement (eve_q/risk_management.py): limits by tier and mode (Limits), the checks and
--     records of positions (Positions) and the Kelly sizes (Kelly).
--   PinningRegistry (eve_q/pinning_registry.py): what it takes from the file system (Repository),
--     the loop over the pins (Pins) and the check of a registry (Validate).
--   FlashLiquidity (eve_q/flash_liquidity.py): candidates (Candidate), the request to the Rust
--     verifier (Request) and the run of it (Verification).
--   OrganContract (eve_q/organ_contract.py): the shape of a contract and the receipts it admits.
--   CharityGate (eve_q/risk/charity_allocation_gate.py): what a proposal for a charity may do.
--   EvePhase (eve_q/gates/eve_phase.py): the phase of a configuration and what it allows.
--
-- The functions keep the names of the code. Values that the code reads with `json.loads` are
-- Value.Value; a dictionary is the list of its fields in insertion order, and a missing key and a
-- stored `None` read alike where the code uses `.get`. Exceptions are results or `none`. A ledger
-- is the list of its entries, and a store's file an optional dictionary: reading and writing of
-- files, and that a file reads back what was written, are not modelled. `json.dumps` and SHA-256
-- are parameters (Receipts.Hashing), and so are the clock, `str` of what is no text, `int` of a
-- text, `str.strip`, `str.lower`, `datetime.fromisoformat` (whose answer is a Prelude.Times.IsoTime,
-- and by which the code's `parse_utc` and `_parse_timestamp` are defined), the division and the
-- power of decimals, `float` of a value, the file system of a pinning registry (PinningRegistry.Repository)
-- and the process of the Rust verifier. Of SHA-256 it is assumed at most that digests have 32
-- bytes, and of the division in the metrics that a part of a whole is between 0 and 1. Floats are
-- binary fractions and decimals exact decimal fractions, without infinities and NaN; decimal sums,
-- products and quotients by 100 are exact, as Python's are up to 28 digits.
--
-- The loops that halve a level of a Merkle tree run on the level's length as fuel, which is enough
-- since a round leaves at most half of the level, rounded up.
--
-- The loop that counts the bits of an integer above the 53 of a float has 1024 as fuel: what has
-- more bits is out of a float's range.
--
-- The loop that writes a length in decimal digits has one more than the length as fuel, and a round
-- divides by ten.
--
-- Not modelled: command lines and files of these modules, the digests and the order of reasons and
-- drifts in a lattice or pinning receipt, `TierPolicy.from_mapping` of deployment_gates.py, the
-- candidates that flash_liquidity.py enumerates with floating-point logarithms, and the other
-- modules of eve_q, omega_telemetry, models and scripts, which read sources over the network, run
-- campaigns, or format reports.
pub mod Prelude
pub mod Value
pub mod Receipts
pub mod RiskManagement
pub mod FlashLiquidity
pub mod OrganContract
pub mod CharityGate
pub mod PinningRegistry
pub mod MerkleTree
pub mod CapitalGate
pub mod TtlPolicy
pub mod Tests
pub mod DeploymentGates
pub mod GateDescent
pub mod EvePhase
pub mod TtlLattice
