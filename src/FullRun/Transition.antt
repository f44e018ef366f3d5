-- ===== src/FullRun/Transition.antt =====
-- `ResearchTransitionV1` of stpd/fullrun/contracts.py: its checks, its document and its decoder, past
-- the branch for documents of the second schema.
use sts2_the_perfect_defect.Prelude.{
  ℕ, String, Bool, true, false, ◌&&◌, ◌||◌, not, Option, none, some, List, [], ◌∷◌, leb, length,
  ◌==◌, nat_eq, string_eq,
}
use sts2_the_perfect_defect.Prelude.Result.{
  Error, Result, ok, err, boundary, ◌>>=◌, ◌>>◌, guard, branch,
}
use sts2_the_perfect_defect.Boundary.Json.{
  Json, null, flag, num, str, arr, obj, end, field, json_eq,
}
use sts2_the_perfect_defect.Boundary.Checks.{text, unsigned, array, object_fields, item}
use sts2_the_perfect_defect.Contracts.Runtime.{Runtime}
use sts2_the_perfect_defect.Contracts.Request.{member_of, optional, opt_str, present}
use sts2_the_perfect_defect.FullRun.Semantic.{
  SemanticState, SemanticAction, EvidenceLink, expect_text, each, written, state_to_dict,
  state_decode, action_to_dict, action_decode, link_to_dict, link_decode,
}

pub record ResearchTransition : Type 0 where
  pub run_id : String
  pub episode_id : String
  pub step_index : ℕ
  pub domain : String
  pub family : String
  pub surface : String
  pub state : SemanticState
  pub actions : List SemanticAction
  pub catalog_complete : Bool
  pub catalog_count : ℕ
  pub chosen_key : Option String
  pub successor : Option SemanticState
  pub terminal : Bool
  pub disposition : String
  pub provenance : EvidenceLink

-- `_boolean`
unfoldable pub boolean : Json → String → Result Bool
boolean (flag b) stage = ok b
boolean _ stage = err (boundary stage "expected_boolean")

abbrev pub action_key : SemanticAction → String
action_key a = a.key

unfoldable pub is_key : String → List SemanticAction → Bool
is_key k [] = false
is_key k (a ∷ as') = a.key == k || is_key k as'

-- `len(keys) == len(set(keys))`
unfoldable pub are_distinct : List SemanticAction → Bool
unfolding is_key
are_distinct [] = true
are_distinct (a ∷ as') = not (is_key a.key as') && are_distinct as'

abbrev pub bad : String → Error
bad code = boundary "transition" code

-- `self.chosen_key is not None and self.chosen_key not in keys`, where a value that is no text is
-- equal to no key
unfoldable pub chosen : Json → List SemanticAction → Result (Option String)
chosen null as' = ok none
chosen (str k) as' = do guard (is_key k as') (bad "chosen_action_not_in_catalog"); ok (some k)
chosen _ as' = err (bad "chosen_action_not_in_catalog")

abbrev pub dispositions : List String
dispositions = "committed" ∷ "cancelled" ∷ "unknown" ∷ "unsupported" ∷ []

-- A committed transition has evidence of its choice, its commit and its successor.
unfoldable pub is_evidenced :
    Option String → Option SemanticState → Bool → EvidenceLink → Result (Unit {0})
is_evidenced key successor terminal link = do
  guard (present key && present link.commit_ref) (bad "missing_chosen_or_commit_evidence")
  guard ((present successor || terminal) && present link.successor_ref)
      (bad "missing_causal_successor_evidence")

unfoldable pub transition_init :
    Json
    → Json
    → Json
    → Json
    → Json
    → Json
    → SemanticState
    → List SemanticAction
    → Json
    → Json
    → Json
    → Option SemanticState
    → Json
    → Json
    → EvidenceLink
    → Result ResearchTransition
transition_init run episode step domain family surface state actions complete count key successor
      terminal disposition link =
    do
      r ← text run "transition.run_id" 4096
      e ← text episode "transition.episode_id" 4096
      d ← text domain "transition.domain" 4096
      f ← text family "transition.family" 4096
      s ← text surface "transition.surface" 4096
      i ← unsigned step "transition.step"
      n ← unsigned count "transition.catalog_count"
      c ← boolean complete "transition.catalog_complete"
      t ← boolean terminal "transition.terminal"
      guard (are_distinct actions) (bad "duplicate_candidate_key")
      guard (not c || (leb 1 (length actions) && (n == length actions && present link.catalog_ref)))
          (bad "unproved_complete_catalog")
      p ← member_of disposition dispositions "transition" "unknown_disposition"
      k ← chosen key actions
      branch (p == "committed") (is_evidenced k successor t link) (ok tt)
      ok (record {
        run_id = r;
        episode_id = e;
        step_index = i;
        domain = d;
        family = f;
        surface = s;
        state = state;
        actions = actions;
        catalog_complete = c;
        catalog_count = n;
        chosen_key = k;
        successor = successor;
        terminal = t;
        disposition = p;
        provenance = link;
      })

abbrev pub rank_eligible : ResearchTransition → Bool
rank_eligible t = t.disposition == "committed" && t.catalog_complete

abbrev pub transition_schema : String
transition_schema = "stpd/research-transition-v1"

abbrev pub opt_state : Option SemanticState → Json
opt_state none = null
opt_state (some s) = state_to_dict s

abbrev transition_names : List String
transition_names =
    "actions" ∷ "catalog_complete" ∷ "catalog_count" ∷ "catalog_source" ∷ "chosen_key"
    ∷ "disposition" ∷ "domain" ∷ "episode_id" ∷ "family" ∷ "provenance" ∷ "run_id" ∷ "schema"
    ∷ "state" ∷ "step_index" ∷ "successor" ∷ "surface" ∷ "terminal" ∷ "transition_id" ∷ []

module _ (rt : Runtime) where
  unfoldable pub transition_id : ResearchTransition → String
  transition_id t = rt.semantic_hash (
      obj (
        field "bundle" (str t.provenance.bundle_sha256) (
          field "record" (str t.provenance.record_id)
            (field "schema" (str transition_schema) end))))

  unfoldable pub transition_to_dict : ResearchTransition → Json
  transition_to_dict t = obj (
      field "actions" (arr (written action_to_dict t.actions)) (
        field "catalog_complete" (flag t.catalog_complete) (
          field "catalog_count" (num t.catalog_count) (
            field "catalog_source" (str "platform_semantic_catalog") (
              field "chosen_key" (opt_str t.chosen_key) (
                field "disposition" (str t.disposition) (
                  field "domain" (str t.domain) (
                    field "episode_id" (str t.episode_id) (
                      field "family" (str t.family) (
                        field "provenance" (link_to_dict t.provenance) (
                          field "run_id" (str t.run_id) (
                            field "schema" (str transition_schema) (
                              field "state" (state_to_dict t.state) (
                                field "step_index" (num t.step_index) (
                                  field "successor" (opt_state t.successor) (
                                    field "surface" (str t.surface) (
                                      field "terminal" (flag t.terminal) (
                                        field "transition_id" (str (transition_id t))
                                          end))))))))))))))))))

  -- `ResearchTransitionV1.decode` of a document whose schema is not that of the second version
  unfoldable pub transition_decode : Json → Result ResearchTransition
  transition_decode value = do
    o ← object_fields value transition_names "transition"
    schema ← item o "schema"
    expect_text schema transition_schema (bad "unsupported_schema")
    source ← item o "catalog_source"
    expect_text source "platform_semantic_catalog" (bad "public_actions_are_not_semantic_actions")
    run ← item o "run_id"
    episode ← item o "episode_id"
    step ← item o "step_index"
    domain ← item o "domain"
    family ← item o "family"
    surface ← item o "surface"
    s ← item o "state"
    state ← state_decode s
    a ← item o "actions"
    listed ← array a "actions"
    actions ← each action_decode listed
    complete ← item o "catalog_complete"
    count ← item o "catalog_count"
    key ← item o "chosen_key"
    after ← item o "successor"
    successor ← optional state_decode after
    terminal ← item o "terminal"
    disposition ← item o "disposition"
    p ← item o "provenance"
    link ← link_decode p
    t ←
        transition_init run episode step domain family surface state actions complete count key
          successor terminal disposition link
    id ← item o "transition_id"
    expect_text id (transition_id t) (bad "identity_mismatch")
    ok t
