-- ===== src/Data/Covers.antt =====
-- A split keeps roots together, and a derived seed is canonical.
use sts2_the_perfect_defect.Prelude.{
  ℕ, zero, suc, ◌≤◌, ◌≡◌, refl, String, Bool, true, false, ◌&&◌, ◌||◌, some, List, [], ◌∷◌, ◌++◌,
  leb, length, arith, All, ◌==◌, string_eq, nat_eq, eq_iff, map,
}
use sts2_the_perfect_defect.Prelude.Result.{
  ok, Ensures, Ensures-ok, Ensures-guard, Ensures-bind, Ensures-match,
}
use sts2_the_perfect_defect.Prelude.Table.{find, find-append, find-append_new, key-find}
use sts2_the_perfect_defect.Boundary.Checks.{all}
use sts2_the_perfect_defect.Data.Splits.{
  Record, SplitAssignment, Ratios, episode, episode_roots, assignment, assign_all,
  assign_episode_splits,
}
use sts2_the_perfect_defect.Data.Seeds.{
  is_unambiguous, is_blank, strip_left, strip_right, strip, require_canonical_game_seed,
  derive_game_seed, upper_hex, take,
}

-- What was met stays, and every record of the rest is met.
record Meets (seen records roots : List Record) : Type 0 where
  kept : (k : String) (r : Record) → find episode k seen ≡ some r → find episode k roots ≡ some r
  met : All (λ r. find episode r.episode_id roots ≡ some r) records

found_append :
    (k : String) (r : Record) (seen : List Record) (x : Record)
    → find episode k seen ≡ some r
    → find episode k (seen ++ x ∷ []) ≡ some r
found_append k r seen x h = ground (arith, find-append episode k x seen)

same_record : (r s : Record) → s.episode_id ≡ r.episode_id → (s.root_id == r.root_id) ≡ true → s ≡ r
same_record r s e h = ground (arith, eq_iff s.root_id r.root_id)

episode_roots-Meets :
    (seen records : List Record) → Ensures (Meets seen records) (episode_roots seen records)
unfolding episode_roots
episode_roots-Meets seen [] = Ensures-ok _ (record { kept = λ k r h. h; met = tt })
episode_roots-Meets seen (r ∷ rs) = Ensures-guard _ _ _ λ _.
    Ensures-match _ _ _
      (λ free. record {
        holds = λ roots e.
            let rest = (episode_roots-Meets (seen ++ r ∷ []) rs).holds roots e in
            record {
              kept = λ k s h. rest.kept k s (found_append k s seen r h);
              met = (rest.kept r.episode_id r (find-append_new episode r seen free), rest.met);
            };
      })
      (λ s found. Ensures-guard _ _ _ λ same. record {
        holds = λ roots e.
            let rest = (episode_roots-Meets seen rs).holds roots e in
            let r-eq : s ≡ r = same_record r s (key-find episode r.episode_id seen s found) same in
            record {
              kept = rest.kept;
              met = (rest.kept r.episode_id r (rw r-eq at found), rest.met);
            };
      })

abbrev pub assigned_episode : SplitAssignment → String
assigned_episode a = a.episode_id

module _ (bucket : String → String → ℕ) where
  assigned :
      (q : Ratios) (salt : String) (roots : List Record) (k : String) (r : Record)
      → find episode k roots ≡ some r
      → find assigned_episode k (assign_all bucket q salt roots) ≡ some (assignment bucket q salt r)
  unfolding assign_all find
  assigned q salt [] k r h = absurd (ground arith)
  assigned q salt (x ∷ xs) k r h = ground (arith, assigned q salt xs k r)

  All-assigned :
      (q : Ratios) (salt : String) (roots records : List Record)
      → All (λ r. find episode r.episode_id roots ≡ some r) records
      → All
          (λ r.
            find assigned_episode r.episode_id (assign_all bucket q salt roots)
            ≡ some (assignment bucket q salt r))
          records
  All-assigned q salt roots [] h = tt
  All-assigned q salt roots (r ∷ rs) h =
      (assigned q salt roots r.episode_id r h.0, All-assigned q salt roots rs h.1)

  split_covers :
      (records : List Record) (salt : String) (q : Ratios)
      → Ensures
          (λ xs.
            All
              (λ r. find assigned_episode r.episode_id xs ≡ some (assignment bucket q salt r))
              records)
          (assign_episode_splits bucket records salt q)
  unfolding assign_episode_splits
  split_covers records salt q = Ensures-guard _ _ _ λ _. Ensures-guard _ _ _ λ _.
      Ensures-bind _ _ λ roots e.
        Ensures-ok _
          (All-assigned q salt roots records ((episode_roots-Meets [] records).holds roots e).met)

  -- Where a split is made, the episode of every record is assigned, and to a partition that depends
  -- on the root of the record alone: two episodes of one root never stand in different partitions.
  pub assign_episode_splits-covers :
      (records : List Record) (salt : String) (q : Ratios) (xs : List SplitAssignment)
      → assign_episode_splits bucket records salt q ≡ ok xs
      → All (λ r. find assigned_episode r.episode_id xs ≡ some (assignment bucket q salt r)) records
  assign_episode_splits-covers records salt q xs h = (split_covers records salt q).holds xs h

unfoldable pub is_hex : ℕ → Bool
is_hex c = (leb 48 c && leb c 57) || (leb 97 c && leb c 102)

hex_unambiguous : (c : ℕ) → is_hex c ≡ true → is_unambiguous (upper_hex c) ≡ true
unfolding is_hex
hex_unambiguous c h = ground arith

unambiguous_visible : (c : ℕ) → is_unambiguous c ≡ true → is_blank c ≡ false
unambiguous_visible c h = ground arith

strip_left-eq_self : (s : List ℕ) → all is_unambiguous s ≡ true → strip_left s ≡ s
unfolding strip_left all
strip_left-eq_self [] h = refl
strip_left-eq_self (c ∷ cs) h = ground (arith, unambiguous_visible c)

strip_right-eq_self : (s : List ℕ) → all is_unambiguous s ≡ true → strip_right s ≡ s
unfolding strip_right all
strip_right-eq_self [] h = refl
strip_right-eq_self (c ∷ []) h = ground (arith, unambiguous_visible c)
strip_right-eq_self (c ∷ d ∷ ds) h =
    let rest : strip_right (d ∷ ds) ≡ d ∷ ds = strip_right-eq_self (d ∷ ds) (ground arith) in
    rw rest refl

canonical_kept :
    (s : List ℕ)
    → all is_unambiguous s ≡ true
    → 1 ≤ length s
    → length s ≤ 64
    → require_canonical_game_seed s ≡ ok s
unfolding require_canonical_game_seed strip
canonical_kept s plain low high =
    rw (strip_left-eq_self s plain, strip_right-eq_self s plain, plain) (ground arith)

length-map-take : (n : ℕ) (s : List ℕ) → length (map upper_hex (take n s)) ≤ n
unfolding take
length-map-take n [] = omega arith
length-map-take zero (c ∷ cs) = omega arith
length-map-take (suc n) (c ∷ cs) = omega (arith, length-map-take n cs)

all_upper :
    (n : ℕ) (s : List ℕ)
    → all is_hex s ≡ true
    → all is_unambiguous (map upper_hex (take n s)) ≡ true
unfolding take all
all_upper n [] h = refl
all_upper zero (c ∷ cs) h = refl
all_upper (suc n) (c ∷ cs) h = ground (arith, all_upper n cs, hex_unambiguous c)

-- A seed that is derived from a digest is canonical: it is accepted as it stands, so that the game
-- keeps it character by character.
pub derive_game_seed-canonical :
    (digest : List ℕ)
    → all is_hex digest ≡ true
    → require_canonical_game_seed (derive_game_seed digest) ≡ ok (derive_game_seed digest)
unfolding derive_game_seed all
derive_game_seed-canonical digest h =
    canonical_kept (derive_game_seed digest) (all_upper 28 digest h) (omega arith)
      (omega (arith, length-map-take 28 digest))
