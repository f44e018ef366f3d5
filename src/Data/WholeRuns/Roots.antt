-- ===== src/Data/WholeRuns/Roots.antt =====
-- The loop that groups the runs finds the root of each, whatever the searches before it have halved.
use sts2_the_perfect_defect.Prelude.{ℕ, ◌≡◌, refl, ◌∙◌, String, List, [], ◌∷◌, All, length}
use sts2_the_perfect_defect.Prelude.Result.{Result, ok, err, ◌>>=◌}
use sts2_the_perfect_defect.Data.WholeRuns.{Parents, root, Group, add_run, group_all}
use sts2_the_perfect_defect.Data.WholeRuns.Order.{rank-length}
use sts2_the_perfect_defect.Data.WholeRuns.Forest.{
  Leads, Leads-unique, IsForest, Extends, Leads-exists,
}
use sts2_the_perfect_defect.Data.WholeRuns.Merges.{IsRun, search}
use sts2_the_perfect_defect.Data.WholeRuns.Groups.{collect}

unfoldable found_root : Result (String × Parents) → String
found_root (ok (r, q)) = r
found_root (err e) = ""

-- The root that a search answers
unfoldable pub top_of : ℕ → Parents → String → String
unfolding found_root
top_of n p v = found_root (root n p v)

module _ (names : List String) (p : Parents) (f : IsForest names p) where
  abbrev top : String → String
  top v = top_of (length names) p v

  pub Leads-top_of : (v : String) → IsRun p v → Leads p v (top_of (length names) p v)
  unfolding top_of
  Leads-top_of v (u, h) =
      let (r, q, e, found) = search names p v f (u, h) in
      let (s, l) =
        Leads-exists names p f (length names) v u h (rank-length names v (f.named v u h)) in
      let same : s ≡ r = Leads-unique q v s r (found.keeps v s l) found.leads in rw e (rw same at l)

  group_step :
      (q q' : Parents) (v r : String) (vs : List String) (gs : List Group)
      → root (length names) q v ≡ ok (r, q')
      → group_all (length names) q (v ∷ vs) gs ≡ group_all (length names) q' vs (add_run r v gs)
  unfolding group_all ◌>>=◌
  group_step q q' v r vs gs h = rw h refl

  pub group_all-collect :
      (q : Parents)
      → IsForest names q
      → Extends p q
      → ((w s : String) → Leads p w s → Leads q w s)
      → (vs : List String) → All (IsRun p) vs
      → (gs : List Group) → group_all (length names) q vs gs ≡ ok (collect top vs gs)
  unfolding group_all collect
  group_all-collect q fq ext keep [] a gs = refl
  group_all-collect q fq ext keep (v ∷ vs) a gs =
      let (u, h) = a.0 in
      let (r, q', e, found) = search names q v fq (ext v u h) in
      let to_top = found.keeps v (top v) (keep v (top v) (Leads-top_of v a.0)) in
      let same : r ≡ top v = Leads-unique q' v r (top v) found.leads to_top in
      let rest =
        group_all-collect q' found.forest (λ w x k. let (y, k') = ext w x k in found.extends w y k')
          (λ w s l. found.keeps w s (keep w s l)) vs a.1 (add_run (top v) v gs) in
      group_step q q' v r vs gs e ∙ rw same rest
