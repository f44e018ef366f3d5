-- ===== src/Hub/Ingress/Exact.antt =====
-- What an archive that unpacks has put into the directory.
use sts2_the_perfect_defect.Prelude.{
  ◌≡◌, refl, ap, String, true, false, ◌||◌, some, List, [], ◌∷◌, All, arith, ◌==◌, string_eq,
  nat_eq, eq_iff, nat_beq_iff, Bool-cases, inl, inr, map,
}
use sts2_the_perfect_defect.Prelude.Result.{
  ok, Ensures, Ensures-ok, Ensures-guard, Ensures-bind, Ensures-expect,
}
use sts2_the_perfect_defect.Boundary.Checks.{codes}
use sts2_the_perfect_defect.Contracts.Runtime.{Runtime}
use sts2_the_perfect_defect.Hub.Ingress.Paths.{
  Part, same_part, dot, dot_dot, split, kept, leading, parts, is_relative, any_part, is_plain,
}
use sts2_the_perfect_defect.Hub.Ingress.Unpack.{
  TarEntry, TransferFile, Written, Directory, Disk, Progress, expected, has, unpack_entry,
  unpack_entries, all_seen, unpack_tar,
}

-- A path that stays below the directory it is taken from: it starts at no root and climbs nowhere.
abbrev pub IsInside : String → Type 0
IsInside name =
    (leading (codes name) ≡ 0) × All (λ p. same_part p dot_dot ≡ false) (split (codes name))

-- A component that a path drops is not a double dot.
dropped_part : (p : Part) → (same_part p [] || same_part p dot) ≡ true → same_part p dot_dot ≡ false
unfolding same_part
dropped_part [] h = refl
dropped_part (a ∷ []) h = ground arith
dropped_part (a ∷ b ∷ p) h = ground arith

kept_climbs_not :
    (ps : List Part)
    → any_part is_relative (kept ps) ≡ false
    → All (λ p. same_part p dot_dot ≡ false) ps
unfolding kept any_part
kept_climbs_not [] h = tt
kept_climbs_not (p ∷ ps) h = elim (Bool-cases (same_part p [] || same_part p dot)) [
  | inl e ↦ (dropped_part p e, kept_climbs_not ps (rw e at h))
  | inr e ↦
      let h' : (is_relative p || any_part is_relative (kept ps)) ≡ false = rw e at h in
      (ground arith, kept_climbs_not ps (ground arith))
]

is_plain-IsInside : (name : String) → is_plain name ≡ true → IsInside name
unfolding is_plain parts
is_plain-IsInside name h = elim (Bool-cases (leading (codes name) == 0)) [
  | inl e ↦ (
    (nat_beq_iff (leading (codes name)) 0).0 e,
    kept_climbs_not (split (codes name)) (ground (arith, rw e at h)),
  )
  | inr e ↦ absurd (ground arith)
]

abbrev pub paths : Directory → List String
paths d = map (λ w. w.path) d

abbrev pub IsDistinct : List String → Type 0
IsDistinct [] = Unit
IsDistinct (n ∷ ns) = (has n ns ≡ false) × IsDistinct ns

all_seen-All :
    (fs : List TransferFile) (seen : List String)
    → all_seen fs seen ≡ true
    → All (λ (f : TransferFile). has f.path seen ≡ true) fs
unfolding all_seen
all_seen-All [] seen h = tt
all_seen-All (f ∷ fs) seen h = (ground arith, all_seen-All fs seen (ground arith))

module _ (rt : Runtime) (files : List TransferFile) where
  -- A written file is inside the directory, and has the hash that the inventory declares of it.
  abbrev pub IsDeclared : Written → Type 0
  IsDeclared w =
      (f : TransferFile) × (expected w.path files ≡ some f)
      × (rt.sha256 w.content ≡ f.sha256)
      × IsInside w.path

  abbrev Adds : Progress → Progress → Type 0
  Adds p q =
      (w : Written) × (q.directory ≡ w ∷ p.directory)
      × (q.seen ≡ w.path ∷ p.seen)
      × (has w.path p.seen ≡ false)
      × IsDeclared w

  unpack_entry-Adds :
      (disk : Disk) (e : TarEntry) (p : Progress)
      → Ensures (Adds p) (unpack_entry rt disk files e p)
  unfolding unpack_entry
  unpack_entry-Adds disk e p = Ensures-guard _ _ _ λ g. Ensures-expect _ _ _ λ f known.
      Ensures-guard _ _ _ λ _. Ensures-guard _ _ _ λ _. Ensures-expect _ _ _ λ c _.
        Ensures-guard _ _ _ λ _. Ensures-guard _ _ _ λ hash. Ensures-ok _ (
          record { path = e.name; content = c },
          refl,
          refl,
          ground arith,
          (
            f,
            known,
            (eq_iff (rt.sha256 c) f.sha256).0 hash,
            is_plain-IsInside e.name (ground arith),
          ),
        )

  -- What holds between two entries.
  abbrev IsGood : Progress → Type 0
  IsGood p = All IsDeclared p.directory × (paths p.directory ≡ p.seen) × IsDistinct p.seen

  Adds-IsGood : (p q : Progress) → Adds p q → IsGood p → IsGood q
  Adds-IsGood p q (w, d, s, fresh, declared) (a, same, apart) =
      rw (d, s) ((declared, a), ap (λ t. w.path ∷ t) same, (fresh, apart))

  unpack_entries-IsGood :
      (disk : Disk) (es : List TarEntry) (p : Progress)
      → IsGood p
      → Ensures IsGood (unpack_entries rt disk files es p)
  unfolding unpack_entries
  unpack_entries-IsGood disk [] p good = Ensures-ok _ good
  unpack_entries-IsGood disk (e ∷ es) p good = Ensures-bind _ _ λ q h.
      unpack_entries-IsGood disk es q
        (Adds-IsGood p q ((unpack_entry-Adds disk e p).holds q h) good)

  abbrev pub IsUnpacked : Directory → Type 0
  IsUnpacked d =
      All IsDeclared d
      × IsDistinct (paths d)
      × All (λ (f : TransferFile). has f.path (paths d) ≡ true) files

  -- An archive that is unpacked has written the files of the inventory: each path of it once, with
  -- the content that has the declared hash, at a path inside the directory, and no other file.
  pub unpack_tar-IsUnpacked :
      (disk : Disk) (entries : List TarEntry) (d : Directory)
      → unpack_tar rt disk files entries ≡ ok d
      → IsUnpacked d
  unfolding unpack_tar
  unpack_tar-IsUnpacked disk entries d h =
      let result : Ensures IsUnpacked (unpack_tar rt disk files entries) = Ensures-bind _ _ λ p e.
        Ensures-guard _ _ _ λ seen.
          let (a, same, apart) =
            (unpack_entries-IsGood disk entries (record { seen = []; directory = [] })
                (tt, refl, tt)).holds
              p e in
          Ensures-ok _ (a, rw same apart, rw same (all_seen-All files p.seen seen)) in
      result.holds d h
