-- ===== src/Scenarios/Partitions.antt =====
-- Two episodes of one root, and a seed from a digest.
use sts2_the_perfect_defect.Prelude.{ℕ, ◌≡◌, refl, true, String, some, List, [], ◌∷◌, All}
use sts2_the_perfect_defect.Prelude.Result.{ok, ◌>>=◌}
use sts2_the_perfect_defect.Prelude.Table.{find}
use sts2_the_perfect_defect.Boundary.Checks.{all}
use sts2_the_perfect_defect.Data.Splits.{
  Record, SplitAssignment, Ratios, episode_roots, assignment, assign_all, assign_episode_splits,
}
use sts2_the_perfect_defect.Data.Seeds.{require_canonical_game_seed, derive_game_seed}
use sts2_the_perfect_defect.Data.Covers.{
  assign_episode_splits-covers, assigned_episode, derive_game_seed-canonical, is_hex,
}

abbrev bucket : String → String → ℕ
bucket root salt = 8500

abbrev records : List Record
records =
    record { episode_id = "e1"; root_id = "r" }
    ∷ record { episode_id = "e2"; root_id = "r" }
    ∷ record { episode_id = "e1"; root_id = "r" }
    ∷ []

abbrev ratios : Ratios
ratios = record { train_ratio = 8000; dev_ratio = 1000; test_ratio = 1000 }

abbrev split_rows : List SplitAssignment
split_rows =
    assign_all bucket ratios "salt" (
      record { episode_id = "e1"; root_id = "r" }
      ∷ record { episode_id = "e2"; root_id = "r" }
      ∷ [])

split_answer : assign_episode_splits bucket records "salt" ratios ≡ ok split_rows
unfolding assign_episode_splits episode_roots find ◌>>=◌
split_answer = refl

abbrev digest_codes : List ℕ
digest_codes = 97 ∷ 48 ∷ 102 ∷ []

digest_hex : all is_hex digest_codes ≡ true
unfolding all is_hex
digest_hex = refl

assign_episode_splits-covers_example :
    All
      (λ r.
        find assigned_episode r.episode_id split_rows ≡ some (assignment bucket ratios "salt" r))
      records
assign_episode_splits-covers_example =
    assign_episode_splits-covers bucket records "salt" ratios split_rows split_answer

derive_game_seed-canonical_example :
    require_canonical_game_seed (derive_game_seed digest_codes) ≡ ok (derive_game_seed digest_codes)
derive_game_seed-canonical_example = derive_game_seed-canonical digest_codes digest_hex
