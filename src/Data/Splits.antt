-- ===== src/Data/Splits.antt =====
-- `assign_episode_splits` of stpd/data/splits.py. The bucket of a root, eight bytes of a SHA-256
-- modulo 10000, is a parameter.
use sts2_the_perfect_defect.Prelude.{
  ℕ, ◌+◌, String, ◌||◌, not, List, [], ◌∷◌, ◌++◌, ltb, ◌==◌, string_eq, nat_eq, if◌then◌else◌,
}
use sts2_the_perfect_defect.Prelude.Result.{
  Result, ok, value_error, ◌>>=◌, ◌>>◌, guard, match_option,
}
use sts2_the_perfect_defect.Prelude.Table.{find}

-- `str(record.get("episode_id", ""))` and `str(record.get(root_field, ""))`
pub record Record : Type 0 where
  pub episode_id : String
  pub root_id : String

pub data SplitName : Type 0 where
  train dev test : SplitName

pub record SplitAssignment : Type 0 where
  pub episode_id : String
  pub root_id : String
  pub split : SplitName

pub record Ratios : Type 0 where
  pub train_ratio : ℕ
  pub dev_ratio : ℕ
  pub test_ratio : ℕ

abbrev pub episode : Record → String
episode r = r.episode_id

-- The loop over the records: `setdefault`, and the comparison with what was there.
unfoldable pub episode_roots : List Record → List Record → Result (List Record)
episode_roots seen [] = ok seen
episode_roots seen (r ∷ rs) =
    let fresh = episode_roots (seen ++ r ∷ []) rs in
    let again = episode_roots seen rs in
    do
      guard (not (r.episode_id == "" || r.root_id == "")) value_error
      match_option (find episode r.episode_id seen) fresh
          (λ previous. do guard (previous.root_id == r.root_id) value_error; again)

-- The three branches on the bucket
abbrev pub split_of : Ratios → ℕ → SplitName
split_of q value =
    if ltb value q.train_ratio
    then train
    else if ltb value (q.train_ratio + q.dev_ratio)
    then dev
    else test

module _ (bucket : String → String → ℕ) where
  abbrev pub assignment : Ratios → String → Record → SplitAssignment
  assignment q salt r = record {
    episode_id = r.episode_id;
    root_id = r.root_id;
    split = split_of q (bucket r.root_id salt);
  }

  unfoldable pub assign_all : Ratios → String → List Record → List SplitAssignment
  assign_all q salt [] = []
  assign_all q salt (r ∷ rs) = assignment q salt r ∷ assign_all q salt rs

  -- The dict of the assignments, in the order in which the episodes were met; the source sorts it
  -- by episode. A root's split is a function of the root, so that the table of roots is not kept.
  unfoldable pub assign_episode_splits :
      List Record → String → Ratios → Result (List SplitAssignment)
  assign_episode_splits records salt q = do
    guard (q.train_ratio + q.dev_ratio + q.test_ratio == 10000) value_error
    guard (not (salt == "")) value_error
    roots ← episode_roots [] records
    ok (assign_all q salt roots)
