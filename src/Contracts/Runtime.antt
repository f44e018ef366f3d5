-- ===== src/Contracts/Runtime.antt =====
-- What the contracts take from the standard library and do not implement: SHA-256, the
-- canonical dump, URL splitting, case folding and lower case.
use sts2_the_perfect_defect.Prelude.{String, Option, List}
use sts2_the_perfect_defect.Boundary.Json.{Json}

-- `urllib.parse.urlsplit`, with the keys that `parse_qsl` finds in the query and the fragment
pub record SplitUrl : Type 0 where
  pub scheme : String
  pub username : Option String
  pub password : Option String
  pub keys : List String

pub record Runtime : Type 0 where
  -- `hashlib.sha256(text.encode()).hexdigest()`
  pub sha256 : String → String
  -- `semantic_hash` of canonical.py: SHA-256 of the canonical dump
  pub semantic_hash : Json → String
  -- `none` is a ValueError
  pub urlsplit : String → Option SplitUrl
  -- `str.casefold`
  pub casefold : String → String
  -- `canonical_json` of canonical.py: `json.dumps` with sorted keys
  pub canonical_json : Json → String
  -- `str.lower`
  pub lower : String → String
