-- ===== src/Data/WholeRuns/Merges.antt =====
-- The merges of all records end, and keep each run with the first run of its fingerprint.
use sts2_the_perfect_defect.Prelude.{
  ◌≡◌, refl, sym, ap, ◌∙◌, String, Option, none, some, ◌==◌, string_eq, eq_iff, Bool-cases, inl,
  inr, List, [], ◌∷◌, All, length,
}
use sts2_the_perfect_defect.Prelude.Result.{ok, ◌>>=◌}
use sts2_the_perfect_defect.Data.WholeRuns.Order.{rank-length}
use sts2_the_perfect_defect.Data.WholeRuns.Components.{
  Parents, Transition, link, root, joined, previous_of, merge_all,
}
use sts2_the_perfect_defect.Data.WholeRuns.Forest.{Leads, Leads-root, IsForest, Extends, some_same}
use sts2_the_perfect_defect.Data.WholeRuns.Merge.{
  root-Found, Found, Grows, grows_twice, joined-Joins,
}

abbrev pub IsRun : Parents → String → Type 0
IsRun p v = (u : String) × (p v ≡ some u)

abbrev pub Meet : Parents → String → String → Type 0
Meet p v w = (s : String) × Leads p v s × Leads p w s

-- The run of a record leads where the run does that its fingerprint stands for.
abbrev pub IsMet : Parents → (String → String) → Transition → Type 0
IsMet q stands r = Meet q r.run_id (stands r.fingerprint)

-- The merges of a list of records, and the run that each fingerprint stands for
pub record Merges (names : List String) (first : Parents) (rs : List Transition) (p q : Parents)
    : Type 0 where
  pub grows : Grows names p q
  pub stands : String → String
  stood : (k f : String) → first k ≡ some f → stands k ≡ f
  pub meets : All (IsMet q stands) rs

previous_of-IsRun :
    (p : Parents) (o : Option String) (run : String)
    → ((f : String) → o ≡ some f → IsRun p f)
    → IsRun p run
    → IsRun p (previous_of o run)
unfolding previous_of
previous_of-IsRun p none run firsts own_run = own_run
previous_of-IsRun p (some f) run firsts own_run = firsts f refl

previous_same : (o : Option String) (run f : String) → o ≡ some f → previous_of o run ≡ f
unfolding previous_of
previous_same none run f h = cc
previous_same (some g) run f h = some_same h

still_runs :
    (p q : Parents)
    → Extends p q
    → (rs : List Transition) → All (λ (r : Transition). IsRun p r.run_id) rs
    → All (λ (r : Transition). IsRun q r.run_id) rs
still_runs p q e [] a = tt
still_runs p q e (r ∷ rs) a = let (x, k) = a.0 in (e r.run_id x k, still_runs p q e rs a.1)

module _ (names : List String) where
  pub search :
      (p : Parents) (v : String)
      → IsForest names p
      → IsRun p v
      → (r : String) × (q : Parents) × (root (length names) p v ≡ ok (r, q)) × Found names p v r q
  search p v f (u, h) =
      root-Found names (length names) p v u f h (rank-length names v (f.named v u h))

  merge_step :
      (first : Parents) (r : Transition) (rs : List Transition) (p p1 p2 : Parents)
      (left right : String)
      → root (length names) p (previous_of (first r.fingerprint) r.run_id) ≡ ok (left, p1)
      → root (length names) p1 r.run_id ≡ ok (right, p2)
      → merge_all (length names) first (r ∷ rs) p
        ≡ merge_all
            (length names)
            (link r.fingerprint (previous_of (first r.fingerprint) r.run_id) first)
            rs
            (joined left right p2)
  unfolding merge_all ◌>>=◌
  merge_step first r rs p p1 p2 left right h k = rw (h, k) refl

  -- One merge: it grows the forest, keeps the first runs of the fingerprints in it, and leads the run
  -- of its record and the first run of the fingerprint to one root.
  record Merged (first : Parents) (r : Transition) (p q : Parents) : Type 0 where
    grown : Grows names p q
    firsts :
        (k f : String)
        → link r.fingerprint (previous_of (first r.fingerprint) r.run_id) first k ≡ some f
        → IsRun q f
    met : Meet q r.run_id (previous_of (first r.fingerprint) r.run_id)
    rest :
        (rs : List Transition)
        → merge_all (length names) first (r ∷ rs) p
          ≡ merge_all
              (length names)
              (link r.fingerprint (previous_of (first r.fingerprint) r.run_id) first)
              rs
              q

  merge_one :
      (first p : Parents) (r : Transition)
      → IsForest names p
      → IsRun p r.run_id
      → ((k f : String) → first k ≡ some f → IsRun p f)
      → (q : Parents) × Merged first r p q
  merge_one first p r f (u, h1) firsts =
      let previous = previous_of (first r.fingerprint) r.run_id in
      let is_run : IsRun p previous =
        previous_of-IsRun p (first r.fingerprint) r.run_id (firsts r.fingerprint) (u, h1) in
      let (left, p1, e1, found1) = search p previous f is_run in
      let left_run = found1.extends r.run_id u h1 in
      let (right, p2, e2, found2) = search p1 r.run_id found1.forest left_run in
      let to_left = found2.keeps previous left found1.leads in
      let (g, one) =
        joined-Joins names p2 found2.forest left right (Leads-root p2 previous left to_left)
          (Leads-root p2 r.run_id right found2.leads) in
      let grows : Grows names p (joined left right p2) = record {
        forest = g.forest;
        extends = λ v u e.
            let (x, k) = found1.extends v u e in
            let (y, k') = found2.extends v x k in g.extends v y k';
        moves = g.moves;
        keeps = λ w s l. g.keeps w s (found2.keeps w s (found1.keeps w s l));
      } in
      (
        joined left right p2,
        record {
          grown = grows;
          firsts = λ k f h. elim (Bool-cases (k == r.fingerprint)) [
            | inl i ↦
                let same : previous ≡ f = some_same (rw i at h) in
                let (x, e) = is_run in rw (← same) (grows.extends previous x e)
            | inr i ↦ let (x, e) = firsts k f (rw i at h) in grows.extends f x e
          ];
          met = (
            g.moves right,
            g.keeps r.run_id right found2.leads,
            rw (← one) (g.keeps previous left to_left),
          );
          rest = λ rs. merge_step first r rs p p1 p2 left right e1 e2;
        },
      )

  pub merge_all-Merges :
      (rs : List Transition) (first p : Parents)
      → IsForest names p
      → All (λ (r : Transition). IsRun p r.run_id) rs
      → ((k f : String) → first k ≡ some f → IsRun p f)
      → (q : Parents) × (merge_all (length names) first rs p ≡ ok q) × Merges names first rs p q
  unfolding merge_all previous_of
  merge_all-Merges [] first p f a firsts = (
    p,
    refl,
    record {
      grows = record { forest = f; extends = λ v u k. (u, k); moves = λ s. s; keeps = λ w s k. k };
      stands = λ k. previous_of (first k) "";
      stood = λ k f h. rw h refl;
      meets = tt;
    },
  )
  merge_all-Merges (r ∷ rs) first p f a firsts =
      let previous = previous_of (first r.fingerprint) r.run_id in
      let (p', x) = merge_one first p r f a.0 firsts in
      let (q, e, m) =
        merge_all-Merges rs (link r.fingerprint previous first) p' x.grown.forest
          (still_runs p p' x.grown.extends rs a.1) x.firsts in
      let (s, to_s, before_s) = x.met in
      let stands_for : m.stands r.fingerprint ≡ previous =
        m.stood r.fingerprint previous (rw (eq_iff r.fingerprint r.fingerprint).1 refl) in
      (
        q,
        x.rest rs ∙ e,
        record {
          grows = grows_twice names p p' q x.grown m.grows;
          stands = m.stands;
          stood = λ k f h. elim (Bool-cases (k == r.fingerprint)) [
            | inl i ↦
                let same = (eq_iff k r.fingerprint).0 i in
                m.stood k previous (rw i)
                ∙ previous_same (first r.fingerprint) r.run_id f (ap first (sym same) ∙ h)
            | inr i ↦ m.stood k f (rw i h)
          ];
          meets = (
            (
              m.grows.moves s,
              m.grows.keeps r.run_id s to_s,
              rw stands_for (m.grows.keeps previous s before_s),
            ),
            m.meets,
          );
        },
      )
