-- ===== src/PinningRegistry.antt =====
-- eve_q/pinning_registry.py: the check of a registry of pinned files. The file system, the JSON
-- decoder, the digests and `str.strip` are the fields of a record. The drifts stand in the order in
-- which they are found: the receipt sorts them by their texts. `main` prints.
pub mod Repository
pub mod Pins
pub mod Validate
pub mod Documents
pub mod Sound
pub mod Complete
