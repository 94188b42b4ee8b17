-- ===== src/TtlPolicy.antt =====
-- eve_q/ttl_policy.py: the shape check of a TTL policy and the evaluation of a TTL state. `raised` is
-- a Python exception (an attribute of a value that is no object, a comparison of what has no
-- order, an unhashable key). Two parameters stand for Python: `to_str`, `str(item)` of an item that is
-- no text, and `parse_int`, `int(text)`. Ranks that are lists count as having no order.
pub mod Shape
pub mod Evaluate
pub mod Degradation
