-- ===== src/FullRun/Views.antt =====
-- The model views of stpd/fullrun/representation.py, and the fingerprint of a decision.
use Prim.Native.String.{◌++◌ as join_text}
use sts2_the_perfect_defect.Prelude.{
  ℕ, String, Bool, true, false, ◌&&◌, ◌||◌, not, List, [], ◌∷◌, leb, ◌==◌, nat_eq, string_eq,
  if◌then◌else◌,
}
use sts2_the_perfect_defect.Prelude.Result.{
  Error, Result, ok, err, boundary, key_error, ◌>>=◌, ◌>>◌, guard,
}
use sts2_the_perfect_defect.Boundary.Json.{
  Json, Items, Fields, str, arr, obj, nil, cons, end, field,
}
use sts2_the_perfect_defect.Boundary.Checks.{codes}
use sts2_the_perfect_defect.Contracts.Runtime.{Runtime}
use sts2_the_perfect_defect.Contracts.Producer.{keep_plain, is_secret_in}
use sts2_the_perfect_defect.Boundary.Texts.{named_in, less}
use sts2_the_perfect_defect.FullRun.Semantic.{
  AdmittedRead, SemanticState, SemanticAction, semantic_dict, written,
}
use sts2_the_perfect_defect.FullRun.Transition.{ResearchTransition}

abbrev pub leak : Error
leak = boundary "model_view" "forbidden_runtime_or_future_feature"

abbrev pub forbidden : List String
forbidden =
    "outcome" ∷ "reward" ∷ "return" ∷ "label" ∷ "teacherconfidence" ∷ "sessionid" ∷ "runtimeid"
    ∷ "environmentidentity" ∷ "hostsourcerevision" ∷ "gameartifactsha256" ∷ "actionkey"
    ∷ "teachermetadata" ∷ "teacherlabel" ∷ "futurestate" ∷ "boundactionid" ∷ "snapshotid"
    ∷ "mutationrequestid" ∷ "requestid" ∷ "runtimeinstanceid" ∷ "processid" ∷ "controllerleaseid"
    ∷ "nativeobjectid" ∷ "nativeoperand" ∷ "teacheridentity" ∷ "modelidentity" ∷ "futureoutcome"
    ∷ "draworder" ∷ "hiddenrng" ∷ "timestamp" ∷ "createdat" ∷ "capturedat" ∷ "runid" ∷ "episodeid"
    ∷ "transitionid" ∷ "chosenkey" ∷ "chosenaction" ∷ "candidateindex" ∷ "candidateposition"
    ∷ "candidateorder" ∷ "selectedindex" ∷ "successor" ∷ "runoutcome" ∷ "provenance" ∷ "commitref"
    ∷ "evidenceref" ∷ []

-- `str.startswith`, on code points
unfoldable pub begins : List ℕ → List ℕ → Bool
begins s [] = true
begins [] (p ∷ ps) = false
begins (c ∷ s) (p ∷ ps) = c == p && begins s ps

-- `PROFILE_LEVEL`
unfoldable pub level : String → Result ℕ
level profile =
    if profile == "lite"
    then ok 0
    else if profile == "standard"
    then ok 1
    else if profile == "full"
    then ok 2
    else err key_error

abbrev lite_names : List String
lite_names = "character" ∷ "act" ∷ "floor" ∷ "hp" ∷ "max_hp" ∷ "gold" ∷ "run_modifiers" ∷ []

unfoldable pub lite_fields : Fields → Fields
unfolding named_in
lite_fields end = end
lite_fields (field k v fs) =
    let rest = lite_fields fs in if named_in k lite_names then field k v rest else rest

-- `READS`: the reads whose level is at most that of the profile
unfoldable pub shown_reads : ℕ → List AdmittedRead → Result Items
unfolding level
shown_reads limit [] = ok nil
shown_reads limit (r ∷ rs) = do
  n ← level r.minimum_profile
  rest ← shown_reads limit rs
  ok (
      if leb n limit
      then cons (obj (field "content" (obj r.content) (field "kind" (str r.kind) end))) rest
      else rest)

unfoldable pub insert_text : String → List String → List String
insert_text v [] = v ∷ []
insert_text v (n ∷ ns) = let rest = insert_text v ns in if less v n then v ∷ n ∷ ns else n ∷ rest

unfoldable pub text_items : List String → Items
text_items [] = nil
text_items (v ∷ vs) = cons (str v) (text_items vs)

module _ (rt : Runtime) where
  -- A key that no model view may hold
  unfoldable pub is_leak : String → Bool
  unfolding keep_plain is_secret_in begins
  is_leak key =
      let plain = keep_plain (codes (rt.lower key)) in
      is_secret_in forbidden plain || begins plain (codes "native")

  unfoldable mutual
    pub reject_leakage : Json → Result (Unit {0})
    reject_leakage (obj fs) = reject_fields fs
    reject_leakage (arr xs) = reject_items xs
    reject_leakage _ = ok tt

    pub reject_fields : Fields → Result (Unit {0})
    reject_fields end = ok tt
    reject_fields (field k v fs) = do
      guard (not (is_leak k)) leak
      reject_leakage v
      reject_fields fs

    pub reject_items : Items → Result (Unit {0})
    reject_items nil = ok tt
    reject_items (cons v xs) = do reject_leakage v; reject_items xs

  unfoldable pub state_content : String → SemanticState → Result Json
  state_content profile s = do
    limit ← level profile
    reads ← shown_reads limit s.reads
    let run = if profile == "lite" then lite_fields s.run else s.run
    let result = obj (
        field "DECISION" (obj s.decision) (
          field "READS" (arr reads) (
            field "RUN" (obj run)
              (field "VISIBLE_ENTITIES" (arr (written obj s.visible_entities)) end))))
    reject_leakage result
    ok result

  unfoldable pub serialize_action : SemanticAction → Result String
  serialize_action a = do
    reject_leakage (semantic_dict a)
    ok (
        join_text "[STPD_ACTION version=stpd-fullrun-provisional-v1]\n"
          (join_text (rt.canonical_json (semantic_dict a)) "\n[/STPD_ACTION]"))

  -- `sorted(serializer.serialize_action(a) for a in actions)`
  unfoldable pub serialized : List SemanticAction → Result (List String)
  serialized [] = ok []
  serialized (a ∷ as') = do s ← serialize_action a; rest ← serialized as'; ok (insert_text s rest)

  unfoldable pub decision_fingerprint : ResearchTransition → Result String
  decision_fingerprint t = do
    state ← state_content "full" t.state
    actions ← serialized t.actions
    ok (
        rt.semantic_hash
          (obj (field "actions" (arr (text_items actions)) (field "state" state end))))
