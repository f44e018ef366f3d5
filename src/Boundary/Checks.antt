-- ===== src/Boundary/Checks.antt =====
-- The validators of json_boundary.py.
use Prim.Native.Char.{code}
use sts2_the_perfect_defect.Prelude.{
  ℕ, String, Bool, true, false, ◌&&◌, ◌||◌, List, [], ◌∷◌, ltb, leb, length, ◌==◌, nat_eq,
  string_eq, if◌then◌else◌,
}
use sts2_the_perfect_defect.Prelude.Result.{Result, ok, err, boundary, key_error, ◌>>◌, guard}
use sts2_the_perfect_defect.Boundary.Json.{Json, Fields, str, num, arr, obj, end, field, Items}

-- The code points of a text.
abbrev pub codes : String → List ℕ
codes String.[] = []
codes (String.◌∷◌ c s) = code c ∷ codes s

unfoldable pub all : (ℕ → Bool) → List ℕ → Bool
all p [] = true
all p (c ∷ cs) = p c && all p cs

-- `text` on a value that is a str
unfoldable pub check_text : String → String → ℕ → Result (Unit {0})
unfolding all
check_text s stage maximum = do
  guard (ltb 0 (length (codes s)) && leb (length (codes s)) maximum) (boundary stage "invalid_text")
  guard (all (λ c. leb 32 c) (codes s)) (boundary stage "control_character")

unfoldable pub text : Json → String → ℕ → Result String
text (str s) stage maximum = do check_text s stage maximum; ok s
text _ stage maximum = err (boundary stage "invalid_text")

-- `[0-9a-f]`
abbrev pub is_hex : ℕ → Bool
is_hex c = (leb 48 c && leb c 57) || (leb 97 c && leb c 102)

-- `re.fullmatch(rf"[0-9a-f]{{{length}}}", value)`
unfoldable pub is_digest : ℕ → String → Bool
unfolding all
is_digest n s = length (codes s) == n && all is_hex (codes s)

unfoldable pub check_digest : String → String → ℕ → Result (Unit {0})
check_digest s stage n = guard (is_digest n s) (boundary stage "invalid_digest")

unfoldable pub digest : Json → String → ℕ → Result String
digest (str s) stage n = do check_digest s stage n; ok s
digest _ stage n = err (boundary stage "invalid_digest")

unfoldable pub unsigned : Json → String → Result ℕ
unsigned (num n) stage = ok n
unsigned _ stage = err (boundary stage "invalid_unsigned_integer")

unfoldable pub array : Json → String → Result Items
array (arr xs) stage = ok xs
array _ stage = err (boundary stage "expected_array")

names_are : Fields → List String → Bool
names_are end [] = true
names_are (field k v fs) (n ∷ ns) = k == n && names_are fs ns
names_are _ _ = false

-- The names are given in sorted order: with the sorted items of the dict, equality of the lists is
-- equality of the key sets.
unfoldable pub object_fields : Json → List String → String → Result Fields
unfolding names_are
object_fields (obj fs) names stage =
    if names_are fs names then ok fs else err (boundary stage "missing_or_unknown_fields")
object_fields _ names stage = err (boundary stage "missing_or_unknown_fields")

-- `obj[name]`
unfoldable pub item : Fields → String → Result Json
item end name = err key_error
item (field k v fs) name = if k == name then ok v else item fs name
