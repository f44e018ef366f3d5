-- ===== src/FullRun/RoundTrip.antt =====
-- A transition that its constructors accept is written to a document that decodes to it.
use sts2_the_perfect_defect.Prelude.{
  ◌≡◌, refl, String, Option, none, some, List, [], ◌∷◌, All, eq_iff,
}
use sts2_the_perfect_defect.Prelude.Result.{Result, ok, ◌>>=◌}
use sts2_the_perfect_defect.Boundary.Json.{Json, Fields, flag, num, str, obj}
use sts2_the_perfect_defect.Boundary.Checks.{array, object_fields, item}
use sts2_the_perfect_defect.Contracts.Runtime.{Runtime}
use sts2_the_perfect_defect.Contracts.Request.{optional, opt_str}
use sts2_the_perfect_defect.FullRun.Semantic.{
  AdmittedRead, SemanticState, SemanticAction, EvidenceLink, as_object, expect_text, each, written,
  read_init, read_to_dict, read_decode, state_to_dict, state_decode, action_init, action_to_dict,
  action_decode, link_init, link_to_dict, link_decode,
}
use sts2_the_perfect_defect.FullRun.Transition.{
  ResearchTransition, transition_init, transition_id, transition_to_dict, transition_decode,
  opt_state,
}

-- What each constructor accepts
abbrev pub IsRead : AdmittedRead → Type 0
IsRead r = read_init (str r.kind) r.content (str r.evidence_ref) (str r.minimum_profile) ≡ ok r

abbrev pub IsState : SemanticState → Type 0
IsState s = All IsRead s.reads

abbrev pub IsAction : SemanticAction → Type 0
IsAction a = action_init (str a.key) (str a.kind) a.subject a.arguments ≡ ok a

abbrev pub IsLink : EvidenceLink → Type 0
IsLink l =
    link_init (str l.bundle_sha256) (str l.record_id) (str l.environment_identity) (str l.scope)
      (str l.qualification_ref) (str l.native_root_ref) (opt_str l.catalog_ref)
      (opt_str l.commit_ref) (opt_str l.successor_ref)
    ≡ ok l

abbrev pub IsSuccessor : Option SemanticState → Type 0
IsSuccessor none = Unit
IsSuccessor (some s) = IsState s

pub record IsTransition (t : ResearchTransition) : Type 0 where
  pub state : IsState t.state
  pub actions : All IsAction t.actions
  pub successor : IsSuccessor t.successor
  pub link : IsLink t.provenance
  pub accepted :
      transition_init
        (str t.run_id)
        (str t.episode_id)
        (num t.step_index)
        (str t.domain)
        (str t.family)
        (str t.surface)
        t.state
        t.actions
        (flag t.catalog_complete)
        (num t.catalog_count)
        (opt_str t.chosen_key)
        t.successor
        (flag t.terminal)
        (str t.disposition)
        t.provenance
      ≡ ok t

each-written :
    {A : Type 0} (decode : Json → Result A) (write : A → Json) (P : A → Type 0)
    → ((a : A) → P a → decode (write a) ≡ ok a)
    → (as' : List A) → All P as'
    → each decode (written write as') ≡ ok as'
unfolding each written ◌>>=◌
each-written decode write P reads [] h = refl
each-written decode write P reads (a ∷ as') h =
    rw (reads a h.0, each-written decode write P reads as' h.1) refl

each-obj :
    (fs : List Fields) (stage : String) → each (λ e. as_object e stage) (written obj fs) ≡ ok fs
unfolding as_object
each-obj fs stage =
    each-written (λ e. as_object e stage) obj (λ f. Unit) (λ f h. refl) fs (every fs)
  where
    every : (fs : List Fields) → All (λ (f : Fields). Unit {0}) fs
    every [] = tt
    every (f ∷ fs) = (tt, every fs)

read_decode-read_to_dict : (r : AdmittedRead) → IsRead r → read_decode (read_to_dict r) ≡ ok r
unfolding read_decode read_to_dict object_fields item as_object ◌>>=◌
read_decode-read_to_dict r h = h

state_decode-state_to_dict : (s : SemanticState) → IsState s → state_decode (state_to_dict s) ≡ ok s
unfolding state_decode state_to_dict object_fields item as_object expect_text array ◌>>=◌
state_decode-state_to_dict s h =
    rw
      (
        each-obj s.visible_entities "state.entity",
        each-written read_decode read_to_dict IsRead read_decode-read_to_dict s.reads h,
      )
      refl

action_decode-action_to_dict :
    (a : SemanticAction) → IsAction a → action_decode (action_to_dict a) ≡ ok a
unfolding action_decode action_to_dict object_fields item as_object ◌>>=◌
action_decode-action_to_dict a h = h

link_decode-link_to_dict : (l : EvidenceLink) → IsLink l → link_decode (link_to_dict l) ≡ ok l
unfolding link_decode link_to_dict object_fields item ◌>>=◌
link_decode-link_to_dict l h = h

optional-opt_state :
    (o : Option SemanticState) → IsSuccessor o → optional state_decode (opt_state o) ≡ ok o
unfolding optional state_to_dict ◌>>=◌
optional-opt_state none h = refl
optional-opt_state (some s) h = rw (state_decode-state_to_dict s h) refl

module _ (rt : Runtime) where
  -- A transition that its constructors accept, with all its parts, is written to a document that
  -- decodes to the same transition.
  pub transition_decode-transition_to_dict :
      (t : ResearchTransition)
      → IsTransition t
      → transition_decode rt (transition_to_dict rt t) ≡ ok t
  unfolding transition_decode transition_to_dict object_fields item expect_text array ◌>>=◌
  transition_decode-transition_to_dict t h =
      rw
        (
          state_decode-state_to_dict t.state h.state,
          each-written action_decode action_to_dict IsAction action_decode-action_to_dict t.actions
              h.actions,
          optional-opt_state t.successor h.successor,
          link_decode-link_to_dict t.provenance h.link,
          h.accepted,
          (eq_iff (transition_id rt t) (transition_id rt t)).1 refl,
        )
        refl
