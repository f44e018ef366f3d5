-- ===== src/Hub/Ingress/Paths.antt =====
-- `pathlib.PurePosixPath` as `_unpack_tar` of stpd/hub/uploads.py uses it, on the code points of a
-- name, and the conditions on a name.
use sts2_the_perfect_defect.Prelude.{
  ℕ, ◌+◌, String, Bool, true, false, ◌&&◌, ◌||◌, not, List, [], ◌∷◌, ◌++◌, ◌==◌, nat_eq,
  if◌then◌else◌,
}
use sts2_the_perfect_defect.Boundary.Checks.{codes}

abbrev pub Part : Type 0
Part = List ℕ

unfoldable pub same_part : Part → Part → Bool
same_part [] [] = true
same_part (a ∷ p) (b ∷ q) = a == b && same_part p q
same_part _ _ = false

abbrev pub slash : ℕ
slash = 47

abbrev pub dot : Part
dot = 46 ∷ []

abbrev pub dot_dot : Part
dot_dot = 46 ∷ 46 ∷ []

unfoldable pub push : ℕ → List Part → List Part
push c [] = (c ∷ []) ∷ []
push c (p ∷ ps) = (c ∷ p) ∷ ps

-- `split("/")`
unfoldable pub split : List ℕ → List Part
split [] = [] ∷ []
split (c ∷ cs) = let rest = split cs in if c == slash then [] ∷ rest else push c rest

-- A path keeps the components that are neither empty nor a single dot.
unfoldable pub kept : List Part → List Part
kept [] = []
kept (p ∷ ps) = let rest = kept ps in if same_part p [] || same_part p dot then rest else p ∷ rest

unfoldable pub leading : List ℕ → ℕ
leading [] = 0
leading (c ∷ cs) = let rest = leading cs in if c == slash then 1 + rest else 0

-- Exactly two leading slashes are a root of their own.
unfoldable pub root : List ℕ → Part
root cs =
    if leading cs == 0 then [] else (if leading cs == 2 then slash ∷ slash ∷ [] else slash ∷ [])

unfoldable pub join : List Part → List ℕ
join [] = []
join (p ∷ []) = p
join (p ∷ q ∷ ps) = p ++ slash ∷ join (q ∷ ps)

unfoldable pub or_dot : List ℕ → List ℕ
or_dot [] = dot
or_dot cs = cs

unfoldable pub as_posix : List ℕ → List ℕ
as_posix cs = or_dot (root cs ++ join (kept (split cs)))

abbrev pub is_absolute : List ℕ → Bool
is_absolute cs = not (leading cs == 0)

unfoldable pub parts : List ℕ → List Part
parts cs = if is_absolute cs then root cs ∷ kept (split cs) else kept (split cs)

-- `part in {"", ".", ".."}`
abbrev pub is_relative : Part → Bool
is_relative p = same_part p [] || same_part p dot || same_part p dot_dot

unfoldable pub any_part : (Part → Bool) → List Part → Bool
any_part test [] = false
any_part test (p ∷ ps) = test p || any_part test ps

unfoldable pub has_code : ℕ → List ℕ → Bool
has_code c [] = false
has_code c (d ∷ cs) = d == c || has_code c cs

-- The conditions of `_unpack_tar` on the name alone; 92 is the backslash.
unfoldable pub is_plain : String → Bool
is_plain name =
    not (is_absolute (codes name))
    && not (any_part is_relative (parts (codes name)))
    && not (has_code 92 (codes name))
    && same_part (codes name) (as_posix (codes name))
