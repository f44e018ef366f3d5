-- ===== src/Hub/Uploads/Listing.antt =====
-- What `uploads` of stpd/hub/database.py lists, place by place.
use sts2_the_perfect_defect.Prelude.{
  ℕ, suc, zero, ◌+◌, ◌-◌, ◌<◌, ◌≤◌, ◌≡◌, inl, inr, refl, String, Bool, true, Option, none, some,
  List, [], ◌∷◌, ◌++◌, arith, string_eq, if◌then◌else◌, ltb, ap, length, total, Bool-cases,
  get_elem?, ◌&&◌, ◌||◌, ◌==◌, option_eq, eq_iff,
}
use sts2_the_perfect_defect.Prelude.Result.{ok, ◌>>=◌}
use sts2_the_perfect_defect.Boundary.Json.{num}
use sts2_the_perfect_defect.Hub.Schema.{Db, Upload, UploadStatus}
use sts2_the_perfect_defect.Boundary.Texts.{named_in}
use sts2_the_perfect_defect.Hub.Uploads.Lists.{
  uploads, bounded, newest_first, matches, page, view, UploadView, is_allowed, matches_device,
  has_status, status_name,
}

-- How many rows pass the test
abbrev pub count : (Upload → Bool) → List Upload → ℕ
count test t = total (λ u. if test u then 1 else 0) t

-- What place `i` of a listing holds: a row of the table that passes the test, with `i` of those
-- that were inserted after it; or nothing, and then no more than `i` pass it.
abbrev pub Holds : (Upload → Bool) → ℕ → List Upload → Option UploadView → Type 0
Holds test i t none = count test t ≤ i
Holds test i t (some v) =
    (older newer : List Upload) × (u : Upload) × (t ≡ older ++ u ∷ newer)
    × (v ≡ view u)
    × (test u ≡ true)
    × (count test newer ≡ i)

-- A listing of at most `n` rows, after the `k` newest ones
abbrev pub IsListed : (Upload → Bool) → ℕ → ℕ → List Upload → List UploadView → Type 0
IsListed test n k t vs = (length vs ≤ n) × ((i : ℕ) → i < n → Holds test (k + i) t (get_elem? vs i))

length-page : {A : Type 0} (n k : ℕ) (t : List A) → length (page n k t) ≤ n
unfolding page
length-page n k [] = omega arith
length-page zero zero (x ∷ t) = omega arith
length-page (suc n) zero (x ∷ t) = let rest = length-page n zero t in omega (arith, rest)
length-page n (suc k) (x ∷ t) = length-page n k t

get_elem?-page :
    {A : Type 0} (n k i : ℕ) (t : List A) → i < n → get_elem? (page n k t) i ≡ get_elem? t (k + i)
unfolding page get_elem?
get_elem?-page n k i [] h = refl
get_elem?-page zero zero i (x ∷ t) h = absurd (omega arith)
get_elem?-page (suc n) zero zero (x ∷ t) h = refl
get_elem?-page (suc n) zero (suc i) (x ∷ t) h =
    let e : 0 + suc i ≡ suc (0 + i) = omega arith in rw e (get_elem?-page n zero i t (omega arith))
get_elem?-page n (suc k) i (x ∷ t) h =
    let e : suc k + i ≡ suc (k + i) = omega arith in rw e (get_elem?-page n k i t h)

module _ (test : Upload → Bool) where
  -- The rows listed already stand after those of the table.
  past :
      (t : List Upload) (later : List UploadView) (j : ℕ)
      → get_elem? (newest_first test t later) (count test t + j) ≡ get_elem? later j
  unfolding newest_first get_elem?
  past [] later j = let e : 0 + j ≡ j = omega arith in rw e refl
  past (u ∷ t) later j = elim (Bool-cases (test u)) [
    | inl e ↦
        let shift : (1 + count test t) + j ≡ count test t + suc j = omega arith in
        rw (e, shift) (past t (view u ∷ later) (suc j))
    | inr e ↦
        let same : (0 + count test t) + j ≡ count test t + j = omega arith in
        rw (e, same) (past t later j)
  ]

  -- A place below the count holds a row of the table.
  Found : ℕ → List Upload → Option UploadView → Type 0
  Found i t o =
      (older newer : List Upload) × (u : Upload) × (o ≡ some (view u))
      × (t ≡ older ++ u ∷ newer)
      × (test u ≡ true)
      × (count test newer ≡ i)

  beneath :
      (x : Upload) (t : List Upload) (i : ℕ) (o : Option UploadView)
      → Found i t o
      → Found i (x ∷ t) o
  unfolding Found
  beneath x t i o (older, newer, u, at_place, rows, passes, place) =
      (x ∷ older, newer, u, at_place, ap (λ r. x ∷ r) rows, passes, place)

  found :
      (t : List Upload) (later : List UploadView) (i : ℕ)
      → i < count test t
      → Found i t (get_elem? (newest_first test t later) i)
  unfolding newest_first get_elem? Found
  found [] later i h = absurd (omega arith)
  found (u ∷ t) later i h = elim (Bool-cases (test u)) [
    | inl e ↦ elim (Bool-cases (ltb i (count test t))) [
      | inl below ↦ rw e (beneath u t i _ (found t (view u ∷ later) i (ground arith)))
      | inr above ↦
          let within : i < 1 + count test t = (rw e at h) in
          let last : i ≡ count test t + 0 = ground arith in
          rw (e, last) ([], t, u, past t (view u ∷ later) 0, refl, e, omega arith)
    ]
    | inr e ↦ rw e (beneath u t i _ (found t later i (ground (arith, e))))
  ]

  Found-Holds : (i : ℕ) (t : List Upload) (o : Option UploadView) → Found i t o → Holds test i t o
  unfolding Found
  Found-Holds i t none (older, newer, u, at_place, rows, passes, place) = absurd (cc at_place)
  Found-Holds i t (some v) (older, newer, u, at_place, rows, passes, place) =
      (older, newer, u, rows, cc at_place, passes, place)

  newest_first-Holds :
      (t : List Upload) (i : ℕ) → Holds test i t (get_elem? (newest_first test t []) i)
  unfolding get_elem?
  newest_first-Holds t i = elim (Bool-cases (ltb i (count test t))) [
    | inl below ↦ Found-Holds i t _ (found t [] i (ground arith))
    | inr above ↦
        let beyond : count test t + (i - count test t) ≡ i = ground arith in
        let nothing : get_elem? (newest_first test t []) i ≡ none =
          rw beyond at (past t [] (i - count test t)) in
        rw nothing (ground arith)
  ]

  page-IsListed :
      (n k : ℕ) (t : List Upload) → IsListed test n k t (page n k (newest_first test t []))
  page-IsListed n k t = (
    length-page n k (newest_first test t []),
    λ i h. rw (get_elem?-page n k i (newest_first test t []) h) (newest_first-Holds t (k + i)),
  )

limit_ok : (n : ℕ) → 1 ≤ n → n ≤ 1000 → bounded 1 (some 1000) (num n) ≡ ok n
unfolding bounded
limit_ok n low high = ground arith

offset_ok : (n : ℕ) → bounded 0 none (num n) ≡ ok n
unfolding bounded
offset_ok n = ground arith

-- A filter that names statuses of an upload, or none at all
abbrev pub are_allowed : Option (List String) → Bool
are_allowed none = true
are_allowed (some names) = is_allowed names

-- What a listing asks for: the device, where one is given, and one of the statuses, where they are
abbrev pub is_wanted : Option String → Option (List String) → Upload → Bool
is_wanted device none u = device == none || device == some u.device
is_wanted device (some names) u =
    (device == none || device == some u.device) && named_in (status_name u.status) names

has_status-named :
    (s : UploadStatus) (names : List String) → has_status s names ≡ named_in (status_name s) names
unfolding named_in
has_status-named s [] = refl
has_status-named s (n ∷ ns) =
    ground (arith, has_status-named s ns, eq_iff (status_name s) n, eq_iff n (status_name s))

matches_device-wanted :
    (device : Option String) (u : Upload)
    → matches_device device u ≡ (device == none || device == some u.device)
matches_device-wanted none u = refl
matches_device-wanted (some d) u = ground (arith, eq_iff u.device d, eq_iff d u.device)

matches-wanted :
    (device : Option String) (statuses : Option (List String))
    → matches device statuses ≡ is_wanted device statuses
matches-wanted device none i u = matches_device-wanted device u i
matches-wanted device (some names) i u =
    matches_device-wanted device u i && has_status-named u.status names i

-- A listing with a limit of 1 to 1000, any offset and an allowed filter changes nothing, and
-- answers with at most as many uploads as the limit. At each place it has the upload of the device
-- and the statuses asked for with exactly that many of those, and of the ones left out by the
-- offset, inserted after it; it has none only where there are no more.
pub uploads-IsListed :
    (device : Option String) (n k : ℕ) (statuses : Option (List String)) (db : Db)
    → 1 ≤ n
    → n ≤ 1000
    → are_allowed statuses ≡ true
    → (vs : List UploadView) × (uploads device (num n) (num k) statuses db ≡ ok (vs, db))
      × IsListed (is_wanted device statuses) n k db.uploads vs
unfolding uploads ◌>>=◌
uploads-IsListed device n k none db low high allowed = (
  page n k (newest_first (is_wanted device none) db.uploads []),
  rw (limit_ok n low high, offset_ok k, matches-wanted device none) refl,
  page-IsListed (is_wanted device none) n k db.uploads,
)
uploads-IsListed device n k (some names) db low high allowed = (
  page n k (newest_first (is_wanted device (some names)) db.uploads []),
  rw (limit_ok n low high, offset_ok k, allowed, matches-wanted device (some names)) refl,
  page-IsListed (is_wanted device (some names)) n k db.uploads,
)
