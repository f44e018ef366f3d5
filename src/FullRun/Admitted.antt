-- ===== src/FullRun/Admitted.antt =====
-- What `admit` of stpd/fullrun/data.py admits: all records of its sources, in whole runs.
use mathlib.Core.Path.{subst}
use mathlib.Core.List.{Memᴰ}
use sts2_the_perfect_defect.Prelude.{
  get_elem?, ℕ, zero, suc, ◌+◌, ◌≡◌, refl, sym, ap, ◌∙◌, String, Bool, true, false, some, arith,
  Bool-cases, inl, inr, List, [], ◌∷◌, All, length, map, ◌==◌, nat_eq, string_eq, eq_iff,
  nat_beq_iff,
}
use sts2_the_perfect_defect.Prelude.Result.{
  Error, guard, ◌>>=◌, ok-injective, Result, ok, Ensures, Ensures-ok, Ensures-guard, Ensures-bind,
  Ensures-err, >>=-eq-ok,
}
use sts2_the_perfect_defect.Prelude.Table.{find}
use sts2_the_perfect_defect.Boundary.Json.{Json, num}
use sts2_the_perfect_defect.Boundary.Checks.{unsigned}
use sts2_the_perfect_defect.Contracts.Runtime.{Runtime}
use sts2_the_perfect_defect.Contracts.RoundTrip.{unsigned-num}
use sts2_the_perfect_defect.Data.WholeRuns.{Transition, Assignments, split_whole_runs}
use sts2_the_perfect_defect.Boundary.Texts.{named_in, sorted_set-named, sorted_set}
use sts2_the_perfect_defect.Data.WholeRuns.Isolation.{split_whole_runs-IsIsolated, IsIsolated}
use sts2_the_perfect_defect.FullRun.Transition.{
  ResearchTransition, rank_eligible, transition_to_dict,
}
use sts2_the_perfect_defect.FullRun.Admission.{
  SourceProjection, RunProof, AdmittedDataset, proof_run, run_of, of_run, counts_from,
  ends_terminal, ends_before, agrees, proofs_agree, check_run, check_runs, sort_records, decisions,
  admit,
}
use sts2_the_perfect_defect.FullRun.Gathering.{gathered, take_projections-Takes, sort-member}

same_some : {A : Type 0} {a b : A} → some a ≡ some b → a ≡ b
same_some e = cc

counts_from-step :
    (k i : ℕ) (rs : List ResearchTransition) (r : ResearchTransition)
    → counts_from k rs ≡ true
    → get_elem? rs i ≡ some r
    → r.step_index ≡ k + i
unfolding counts_from get_elem?
counts_from-step k i [] r c h = absurd (ground arith)
counts_from-step k zero (s ∷ rs) r c h =
    let at_k : s.step_index ≡ k = (nat_beq_iff s.step_index k).0 (ground arith) in
    ap (λ (t : ResearchTransition). t.step_index) (sym (same_some h)) ∙ (at_k ∙ omega arith)
counts_from-step k (suc i) (s ∷ rs) r c h =
    let rest = counts_from-step (suc k) i rs r (ground arith) h in omega (arith, rest)

ends-terminal :
    (i : ℕ) (rs : List ResearchTransition) (r : ResearchTransition)
    → ends_terminal rs ≡ true
    → ends_before rs ≡ false
    → get_elem? rs i ≡ some r
    → r.terminal ≡ (suc i == length rs)
unfolding ends_terminal ends_before get_elem?
ends-terminal i [] r e b h = absurd (ground arith)
ends-terminal zero (s ∷ []) r e b h =
    ap (λ (t : ResearchTransition). t.terminal) (sym (same_some h)) ∙ e
ends-terminal (suc i) (s ∷ []) r e b h = absurd (ground arith)
ends-terminal zero (s ∷ t ∷ rs) r e b h =
    let open_end : s.terminal ≡ false = ground arith in
    ap (λ (t : ResearchTransition). t.terminal) (sym (same_some h)) ∙ (open_end ∙ ground arith)
ends-terminal (suc i) (s ∷ t ∷ rs) r e b h =
    let rest = ends-terminal i (t ∷ rs) r e (ground arith) h in ground (arith, rest)

proofs_agree-counts :
    (run : String) (n : ℕ) (ps : List SourceProjection) (p : SourceProjection) (f : RunProof)
    → proofs_agree run n ps ≡ true
    → Memᴰ p ps
    → find proof_run run p.run_proofs ≡ some f
    → f.record_count ≡ n
unfolding proofs_agree agrees
proofs_agree-counts run n [] p f a m h = elim m [ ]
proofs_agree-counts run n (q ∷ ps) p f a (Memᴰ.head e) h =
    let here : agrees (find proof_run run p.run_proofs) n ≡ true = rw e (ground arith) in
    (nat_beq_iff f.record_count n).0 (rw h at here)
proofs_agree-counts run n (q ∷ ps) p f a (Memᴰ.tail m) h =
    proofs_agree-counts run n ps p f (ground arith) m h

-- A run that is all there: its steps count from zero, its last one alone is terminal, and each source
-- that proves it proves as many records.
pub record IsWhole (ps : List SourceProjection) (records : List ResearchTransition) (run : String)
    : Type 0 where
  pub steps :
      (i : ℕ) (r : ResearchTransition)
      → get_elem? (of_run run records) i ≡ some r
      → (r.step_index ≡ i) × (r.terminal ≡ (suc i == length (of_run run records)))
  pub counted :
      (p : SourceProjection) (f : RunProof)
      → Memᴰ p ps
      → find proof_run run p.run_proofs ≡ some f
      → f.record_count ≡ length (of_run run records)

last_guard :
    (b : Bool) (e : Error) (P : Type 0) → (b ≡ true → P) → Ensures (λ (_ : Unit {0}). P) (guard b e)
unfolding ◌>>=◌
last_guard true e P h = Ensures-ok tt (h refl)
last_guard false e P h = Ensures-err e

module _ (ps : List SourceProjection) (records : List ResearchTransition) where
  check_run-IsWhole :
      (run : String) → Ensures (λ _. IsWhole ps records run) (check_run ps records run)
  unfolding check_run
  check_run-IsWhole run = Ensures-guard _ _ _ λ counts. Ensures-guard _ _ _ λ ends.
      Ensures-guard _ _ _ λ before. last_guard _ _ _ λ agree.
        let rs = of_run run records in
        record {
          steps = λ i r h. (
            counts_from-step 0 i rs r counts h ∙ omega arith,
            ends-terminal i rs r ends (ground arith) h,
          );
          counted = λ p f m h. proofs_agree-counts run (length rs) ps p f agree m h;
        }

  check_runs-All :
      (vs : List String) → Ensures (λ _. All (IsWhole ps records) vs) (check_runs ps records vs)
  unfolding check_runs
  check_runs-All [] = Ensures-ok _ tt
  check_runs-All (v ∷ vs) = Ensures-bind _ _ λ u e. record {
    holds = λ w f. ((check_run-IsWhole v).holds u e, (check_runs-All vs).holds w f);
  }

All-named_in :
    (P : String → Type 0) (vs : List String) (v : String) → All P vs → named_in v vs ≡ true → P v
unfolding named_in
All-named_in P [] v a i = absurd (ground arith)
All-named_in P (w ∷ vs) v a i = elim (Bool-cases (w == v)) [
  | inl e ↦ subst P ((eq_iff w v).0 e) a.0
  | inr e ↦ All-named_in P vs v a.1 (rw e at i)
]

run_named :
    (rs : List ResearchTransition) (u : ResearchTransition)
    → Memᴰ u rs
    → named_in u.run_id (map run_of rs) ≡ true
unfolding named_in
run_named [] u m = elim m [ ]
run_named (r ∷ rs) u (Memᴰ.head e) =
    let same = (eq_iff r.run_id u.run_id).1 (ap run_of (sym e)) in ground (arith, same)
run_named (r ∷ rs) u (Memᴰ.tail m) = let rest = run_named rs u m in ground (arith, rest)

module _ (rt : Runtime) where
  -- A split that succeeds was given a number as its seed.
  split-IsIsolated :
      (ds : List Transition) (seed : Json) (m : Assignments)
      → split_whole_runs rt ds seed ≡ ok m
      → IsIsolated ds m
  unfolding split_whole_runs
  split-IsIsolated ds seed m h =
      let (n, e, _) = >>=-eq-ok (unsigned seed "split.seed") _ h in
      let at_n : split_whole_runs rt ds (num n) ≡ ok m = rw (unsigned-num seed _ n e) at h in
      elim (split_whole_runs-IsIsolated rt ds n) [
        | inl raised ↦ absurd (cc)
        | inr (m', answer, isolated) ↦
            let same : m' ≡ m = ok-injective (sym answer ∙ at_n) in rw same at isolated
      ]

  pub record IsAdmitted (ps : List SourceProjection) (d : AdmittedDataset) : Type 0 where
    pub covers :
        (r : ResearchTransition)
        → Memᴰ r (gathered ps)
        → (u : ResearchTransition) × Memᴰ u d.records
          × (transition_to_dict rt u ≡ transition_to_dict rt r)
    pub sourced :
        (u : ResearchTransition)
        → Memᴰ u d.records
        → Memᴰ u (gathered ps) × (rank_eligible u ≡ true)
    pub whole : (u : ResearchTransition) → Memᴰ u d.records → IsWhole ps d.records u.run_id
    pub isolated :
        (ds : List Transition) × (decisions rt d.records ≡ ok ds) × IsIsolated ds d.splits

  -- A dataset that is admitted has each record of its sources, by its document, and nothing else; each
  -- record is eligible, each run is whole, and the split keeps the runs of a decision together.
  pub admit-IsAdmitted :
      (verify : SourceProjection → Result (Unit {0})) (ps : List SourceProjection) (seed : Json)
      (d : AdmittedDataset)
      → admit rt verify ps seed ≡ ok d
      → IsAdmitted ps d
  unfolding admit
  admit-IsAdmitted verify [] seed d h = absurd (cc h)
  admit-IsAdmitted verify (p ∷ qs) seed d h =
      let ps = p ∷ qs in
      let admitted : Ensures (IsAdmitted ps) (admit rt verify ps seed) = Ensures-guard _ _ _ λ _.
        Ensures-bind _ _ λ _ _. Ensures-bind _ _ λ n taken. Ensures-guard _ _ _ λ _.
          Ensures-bind _ _ λ u checked. Ensures-bind _ _ λ ds listed. Ensures-bind _ _ λ m split.
            let takes = (take_projections-Takes rt ps _).holds n taken in
            let records = sort_records rt n.unique in
            let wholes =
              (check_runs-All ps records (sorted_set (map run_of records))).holds u checked in
            Ensures-ok _ (record {
              covers = λ r i.
                  let (u, there, e) = takes.took r i in (u, (sort-member rt u n.unique).1 there, e);
              sourced = λ u i. elim (takes.held u ((sort-member rt u n.unique).0 i)) [
                | inl none_yet ↦ elim none_yet [ ]
                | inr from ↦ from
              ];
              whole = λ u i.
                  All-named_in (IsWhole ps records) (sorted_set (map run_of records)) u.run_id
                    wholes (sorted_set-named u.run_id (map run_of records) ∙ run_named records u i);
              isolated = (ds, listed, split-IsIsolated ds seed m split);
            }) in
      admitted.holds d h
