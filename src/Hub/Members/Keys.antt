-- ===== src/Hub/Members/Keys.antt =====
-- The keys of the table of devices of stpd/hub/database.py.
use sts2_the_perfect_defect.Prelude.{
  ◌≡◌, refl, String, none, List, [], ◌∷◌, arith, ◌==◌, string_eq, Bool-cases, inl, inr, nat_eq,
}
use sts2_the_perfect_defect.Prelude.Table.{find, update}
use sts2_the_perfect_defect.Prelude.Keyed.{IsKeyed}
use sts2_the_perfect_defect.Hub.Schema.{Device, device_id}
use sts2_the_perfect_defect.Hub.Members.Credentials.{device_hash}

-- No two devices of one name, and no two of one credential
abbrev pub IsUnique : List Device → Type 0
IsUnique t = IsKeyed device_id t × IsKeyed device_hash t

module _ (id : String) (f : Device → Device) where
  none_kept :
      ((d : Device) → device_hash (f d) ≡ device_hash d)
      → (k : String) (t : List Device) → find device_hash k t ≡ none
      → find device_hash k (update device_id id f t) ≡ none
  unfolding find update
  none_kept same k [] h = refl
  none_kept same k (d ∷ t) h = elim (Bool-cases (d.id == id)) [
    | inl e ↦ let keep = same d in rw (e, keep) (ground arith)
    | inr e ↦ let rest = none_kept same k t (ground arith) in rw e (ground (arith, rest))
  ]

  pub kept-IsKeyed :
      ((d : Device) → device_hash (f d) ≡ device_hash d)
      → (t : List Device) → IsKeyed device_hash t
      → IsKeyed device_hash (update device_id id f t)
  unfolding update
  kept-IsKeyed same [] h = tt
  kept-IsKeyed same (d ∷ t) h = elim (Bool-cases (d.id == id)) [
    | inl e ↦ rw (e, same d) h
    | inr e ↦ rw e (none_kept same (device_hash d) t h.0, kept-IsKeyed same t h.1)
  ]
