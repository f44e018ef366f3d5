-- ===== src/Boundary.antt =====
-- json_boundary.py and the JSON values that cross it (stpd/json_boundary.py). A dict with text keys
-- is the list of its items in the order of json.dumps(..., sort_keys=True), so that two documents
-- have the same sorted dump exactly when the values are equal.
pub mod Json
pub mod Checks
pub mod Texts
