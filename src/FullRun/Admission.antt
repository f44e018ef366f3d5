-- ===== src/FullRun/Admission.antt =====
-- `admit` of stpd/fullrun/data.py. The verification of a platform projection, which projects its
-- source again, is an argument. `positions` has an entry for every record of `unique`, and is left out.
use sts2_the_perfect_defect.Prelude.{
  ℕ, suc, ◌+◌, String, Bool, true, false, ◌&&◌, ◌||◌, not, Option, none, some, List, [], ◌∷◌, ◌++◌,
  ltb, length, map, ◌==◌, nat_eq, string_eq, if◌then◌else◌,
}
use sts2_the_perfect_defect.Prelude.Result.{
  Error, Result, ok, err, boundary, ◌>>=◌, ◌>>◌, guard, branch, match_option,
}
use sts2_the_perfect_defect.Prelude.Table.{find}
use sts2_the_perfect_defect.Boundary.Json.{Json, json_eq}
use sts2_the_perfect_defect.Contracts.Runtime.{Runtime}
use sts2_the_perfect_defect.Data.WholeRuns.{Transition, Assignments, split_whole_runs}
use sts2_the_perfect_defect.Boundary.Texts.{named_in, less, sorted_set}
use sts2_the_perfect_defect.FullRun.Transition.{
  ResearchTransition, rank_eligible, transition_id, transition_to_dict,
}
use sts2_the_perfect_defect.FullRun.Views.{decision_fingerprint}

pub record RunProof : Type 0 where
  pub run_id : String
  pub started_ref : String
  pub terminal_ref : String
  pub record_count : ℕ

pub record SourceProjection : Type 0 where
  pub adapter_id : String
  pub source_sha256 : String
  pub scope : String
  pub run_proofs : List RunProof
  pub transitions : List ResearchTransition

pub record Intake : Type 0 where
  pub unique : List ResearchTransition
  pub duplicates : ℕ

pub record AdmittedDataset : Type 0 where
  pub records : List ResearchTransition
  pub splits : Assignments
  pub seed : Json
  pub scope : String
  pub exact_duplicates : ℕ

abbrev pub admission : String → Error
admission code = boundary "admission" code

abbrev pub run_of : ResearchTransition → String
run_of r = r.run_id

abbrev pub proof_run : RunProof → String
proof_run p = p.run_id

unfoldable pub all_named : List String → List String → Bool
unfolding named_in
all_named [] ns = true
all_named (v ∷ vs) ns = named_in v ns && all_named vs ns

-- `position in positions`
unfoldable pub is_taken : ResearchTransition → List ResearchTransition → Bool
is_taken r [] = false
is_taken r (u ∷ us) = (u.run_id == r.run_id && u.step_index == r.step_index) || is_taken r us

unfoldable pub of_run : String → List ResearchTransition → List ResearchTransition
of_run run [] = []
of_run run (r ∷ rs) = let rest = of_run run rs in if r.run_id == run then r ∷ rest else rest

-- `[record.step_index for record in run] == list(range(len(run)))`, from one index on
unfoldable pub counts_from : ℕ → List ResearchTransition → Bool
counts_from i [] = true
counts_from i (r ∷ rs) = r.step_index == i && counts_from (suc i) rs

-- `run[-1].terminal`
unfoldable pub ends_terminal : List ResearchTransition → Bool
ends_terminal [] = false
ends_terminal (r ∷ []) = r.terminal
ends_terminal (r ∷ s ∷ rs) = ends_terminal (s ∷ rs)

-- `any(record.terminal for record in run[:-1])`
unfoldable pub ends_before : List ResearchTransition → Bool
ends_before [] = false
ends_before (r ∷ []) = false
ends_before (r ∷ s ∷ rs) = r.terminal || ends_before (s ∷ rs)

unfoldable pub agrees : Option RunProof → ℕ → Bool
agrees none n = true
agrees (some p) n = p.record_count == n

unfoldable pub proofs_agree : String → ℕ → List SourceProjection → Bool
unfolding agrees
proofs_agree run n [] = true
proofs_agree run n (p ∷ ps) = agrees (find proof_run run p.run_proofs) n && proofs_agree run n ps

unfoldable pub check_run :
    List SourceProjection → List ResearchTransition → String → Result (Unit {0})
check_run ps records run = do
  let rs = of_run run records
  guard (counts_from 0 rs) (admission "missing_run_step")
  guard (ends_terminal rs) (admission "missing_terminal_disposition")
  guard (not (ends_before rs)) (admission "decision_after_terminal")
  guard (proofs_agree run (length rs) ps) (admission "source_disposition_count_mismatch")

-- The runs are a set in the source: which of several errors is raised is left to its order there.
unfoldable pub check_runs :
    List SourceProjection → List ResearchTransition → List String → Result (Unit {0})
check_runs ps records [] = ok tt
check_runs ps records (v ∷ vs) = do check_run ps records v; check_runs ps records vs

unfoldable pub one_scope : String → List SourceProjection → Bool
one_scope s [] = true
one_scope s (p ∷ ps) = p.scope == s && one_scope s ps

module _ (verify : SourceProjection → Result (Unit {0})) where
  unfoldable pub verify_all : List SourceProjection → Result (Unit {0})
  verify_all [] = ok tt
  verify_all (p ∷ ps) = do branch (p.scope == "engineering") (ok tt) (verify p); verify_all ps

module _ (rt : Runtime) where
  -- `(r.run_id, r.step_index, r.transition_id)`
  abbrev pub comes_before : ResearchTransition → ResearchTransition → Bool
  comes_before a b =
      less a.run_id b.run_id
      || (a.run_id == b.run_id
          && (ltb a.step_index b.step_index
              || (a.step_index == b.step_index && less (transition_id rt a) (transition_id rt b))))

  unfoldable pub insert_record :
      ResearchTransition → List ResearchTransition → List ResearchTransition
  insert_record r [] = r ∷ []
  insert_record r (s ∷ ss) =
      let rest = insert_record r ss in if comes_before s r then s ∷ rest else r ∷ s ∷ ss

  unfoldable pub sort_records : List ResearchTransition → List ResearchTransition
  sort_records [] = []
  sort_records (r ∷ rs) = insert_record r (sort_records rs)

  unfoldable pub take_record : ResearchTransition → Intake → Result Intake
  take_record r n = do
    guard (rank_eligible r) (admission "incomplete_or_uncommitted_decision")
    f ← decision_fingerprint rt r
    match_option (find (transition_id rt) (transition_id rt r) n.unique)
        (do
          guard (not (is_taken r n.unique)) (admission "run_step_collision")
          ok (record n { unique = n.unique ++ r ∷ [] }))
        (λ previous. do
          guard (transition_to_dict rt previous == transition_to_dict rt r)
              (admission "transition_identity_collision")
          ok (record n { duplicates = n.duplicates + 1 }))

  unfoldable pub take_records : List ResearchTransition → Intake → Result Intake
  take_records [] n = ok n
  take_records (r ∷ rs) n = do n' ← take_record r n; take_records rs n'

  unfoldable pub take_projections : List SourceProjection → Intake → Result Intake
  unfolding all_named
  take_projections [] n = ok n
  take_projections (p ∷ ps) n = do
    let proved = map proof_run p.run_proofs
    let projected = map run_of p.transitions
    guard (all_named proved projected && all_named projected proved)
        (admission "run_proof_inventory_mismatch")
    n' ← take_records p.transitions n
    take_projections ps n'

  -- The decisions of the records, as `split_whole_runs` reads them. Each fingerprint was computed
  -- when its record was taken, so that none is refused here.
  unfoldable pub decisions : List ResearchTransition → Result (List Transition)
  decisions [] = ok []
  decisions (r ∷ rs) = do
    f ← decision_fingerprint rt r
    rest ← decisions rs
    ok (record { run_id = r.run_id; fingerprint = f } ∷ rest)

  module _ (verify : SourceProjection → Result (Unit {0})) where
    unfoldable pub admit : List SourceProjection → Json → Result AdmittedDataset
    unfolding one_scope
    admit [] seed = err (admission "no_verified_source_projection")
    admit (p ∷ ps) seed = do
      guard (one_scope p.scope ps) (admission "mixed_engineering_and_qualified_sources")
      verify_all verify (p ∷ ps)
      n ← take_projections (p ∷ ps) (record { unique = []; duplicates = 0 })
      let records = sort_records n.unique
      guard (not (length records == 0)) (admission "empty_dataset")
      check_runs (p ∷ ps) records (sorted_set (map run_of records))
      ds ← decisions records
      splits ← split_whole_runs rt ds seed
      ok (record {
        records = records;
        splits = splits;
        seed = seed;
        scope = p.scope;
        exact_duplicates = n.duplicates;
      })
