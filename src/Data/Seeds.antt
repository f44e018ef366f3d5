-- ===== src/Data/Seeds.antt =====
-- `require_canonical_game_seed` and `derive_game_seed` of stpd/game_seed.py.
use sts2_the_perfect_defect.Prelude.{
  ℕ, zero, suc, ◌-◌, Bool, ◌&&◌, ◌||◌, not, List, [], ◌∷◌, leb, length, ◌==◌, nat_eq, if◌then◌else◌,
  map,
}
use sts2_the_perfect_defect.Prelude.Result.{Result, ok, err, value_error}
use sts2_the_perfect_defect.Boundary.Checks.{all}

-- Texts are the lists of their code points here. `_UNAMBIGUOUS_ALPHABET`: digits, and upper case
-- letters without I and O.
abbrev pub is_unambiguous : ℕ → Bool
is_unambiguous c = (leb 48 c && leb c 57) || (leb 65 c && leb c 90 && not (c == 73 || c == 79))

-- `str.isspace`, which `strip` removes at both ends
abbrev pub is_blank : ℕ → Bool
is_blank c =
    (leb 9 c && leb c 13)
    || ((leb 28 c && leb c 32)
        || (c == 133
            || (c == 160
                || (c == 5760
                    || ((leb 8192 c && leb c 8202)
                        || (c == 8232
                            || (c == 8233 || (c == 8239 || (c == 8287 || c == 12288)))))))))

unfoldable pub strip_left : List ℕ → List ℕ
strip_left [] = []
strip_left (c ∷ cs) = let rest = strip_left cs in if is_blank c then rest else c ∷ cs

-- The text without the blanks at its end
unfoldable pub strip_right : List ℕ → List ℕ
strip_right [] = []
strip_right (c ∷ cs) =
    let rest = strip_right cs in
    elim rest [ [] ↦ (if is_blank c then [] else c ∷ []) | d ∷ ds ↦ c ∷ d ∷ ds ]

unfoldable pub strip : List ℕ → List ℕ
unfolding strip_left strip_right
strip s = strip_right (strip_left s)

-- `seed != seed.upper()` is left out of the test: a text of unambiguous characters is upper case.
unfoldable pub require_canonical_game_seed : List ℕ → Result (List ℕ)
unfolding all strip
require_canonical_game_seed value =
    let seed = strip value in
    if leb 1 (length seed) && (leb (length seed) 64 && all is_unambiguous seed)
    then ok seed
    else err value_error

abbrev pub upper_hex : ℕ → ℕ
upper_hex c = if leb 97 c && leb c 102 then c - 32 else c

unfoldable pub take : ℕ → List ℕ → List ℕ
take n [] = []
take zero (c ∷ cs) = []
take (suc n) (c ∷ cs) = c ∷ take n cs

-- `derive_game_seed`, from the hexadecimal digest of its material
unfoldable pub derive_game_seed : List ℕ → List ℕ
unfolding take
derive_game_seed hexdigest = 83 ∷ 84 ∷ 80 ∷ 68 ∷ map upper_hex (take 28 hexdigest)
