-- ===== src/FullRun/Semantic.antt =====
-- `AdmittedRead`, `SemanticState`, `SemanticAction` and `EvidenceLink` of stpd/fullrun/contracts.py.
-- A `FrozenObject` is the fields of its document.
use sts2_the_perfect_defect.Prelude.{String, Option, List, [], ◌∷◌, ◌==◌, string_eq}
use sts2_the_perfect_defect.Prelude.Result.{Error, Result, ok, err, boundary, ◌>>=◌, ◌>>◌, guard}
use sts2_the_perfect_defect.Boundary.Json.{
  Json, Items, Fields, str, arr, obj, nil, cons, end, field,
}
use sts2_the_perfect_defect.Boundary.Checks.{text, digest, array, object_fields, item}
use sts2_the_perfect_defect.Contracts.Request.{member_of, optional, opt_str}

pub record AdmittedRead : Type 0 where
  pub kind : String
  pub content : Fields
  pub evidence_ref : String
  pub minimum_profile : String

pub record SemanticState : Type 0 where
  pub run : Fields
  pub decision : Fields
  pub visible_entities : List Fields
  pub reads : List AdmittedRead

pub record SemanticAction : Type 0 where
  pub key : String
  pub kind : String
  pub subject : Fields
  pub arguments : Fields

pub record EvidenceLink : Type 0 where
  pub bundle_sha256 : String
  pub record_id : String
  pub environment_identity : String
  pub scope : String
  pub qualification_ref : String
  pub native_root_ref : String
  pub catalog_ref : Option String
  pub commit_ref : Option String
  pub successor_ref : Option String

-- `_object`
unfoldable pub as_object : Json → String → Result Fields
as_object (obj fs) stage = ok fs
as_object _ stage = err (boundary stage "expected_object")

-- `if value != expected: raise error`
unfoldable pub expect_text : Json → String → Error → Result (Unit {0})
expect_text (str s) expected e = guard (s == expected) e
expect_text _ expected e = err e

module _ {A : Type 0} where
  -- `tuple(decode(v) for v in values)`
  unfoldable pub each : (Json → Result A) → Items → Result (List A)
  each decode nil = ok []
  each decode (cons v vs) = do a ← decode v; rest ← each decode vs; ok (a ∷ rest)

  -- `[write(v) for v in values]`
  unfoldable pub written : (A → Json) → List A → Items
  written write [] = nil
  written write (a ∷ as') = cons (write a) (written write as')

abbrev pub profiles : List String
profiles = "lite" ∷ "standard" ∷ "full" ∷ []

unfoldable pub read_init : Json → Fields → Json → Json → Result AdmittedRead
read_init kind content evidence_ref minimum_profile = do
  k ← text kind "read.kind" 4096
  e ← digest evidence_ref "read.evidence" 64
  p ← member_of minimum_profile profiles "read" "unknown_profile"
  ok (record { kind = k; content = content; evidence_ref = e; minimum_profile = p })

unfoldable pub read_to_dict : AdmittedRead → Json
read_to_dict r = obj (
    field "content" (obj r.content) (
      field "evidence_ref" (str r.evidence_ref)
        (field "kind" (str r.kind) (field "minimum_profile" (str r.minimum_profile) end))))

unfoldable pub read_decode : Json → Result AdmittedRead
read_decode value = do
  o ← object_fields value ("content" ∷ "evidence_ref" ∷ "kind" ∷ "minimum_profile" ∷ []) "read"
  kind ← item o "kind"
  c ← item o "content"
  content ← as_object c "read.content"
  evidence_ref ← item o "evidence_ref"
  minimum_profile ← item o "minimum_profile"
  read_init kind content evidence_ref minimum_profile

unfoldable pub state_to_dict : SemanticState → Json
state_to_dict s = obj (
    field "boundary" (str "semantic_execution") (
      field "decision" (obj s.decision) (
        field "reads" (arr (written read_to_dict s.reads)) (
          field "run" (obj s.run)
            (field "visible_entities" (arr (written obj s.visible_entities)) end)))))

unfoldable pub state_decode : Json → Result SemanticState
state_decode value = do
  o ←
      object_fields value ("boundary" ∷ "decision" ∷ "reads" ∷ "run" ∷ "visible_entities" ∷ [])
        "state"
  mark ← item o "boundary"
  expect_text mark "semantic_execution" (boundary "state" "human_observation_is_not_semantic_state")
  r ← item o "run"
  run ← as_object r "state.run"
  d ← item o "decision"
  decision ← as_object d "state.decision"
  v ← item o "visible_entities"
  entities ← array v "state"
  visible_entities ← each (λ e. as_object e "state.entity") entities
  rs ← item o "reads"
  reads' ← array rs "state.reads"
  reads ← each read_decode reads'
  ok (record { run = run; decision = decision; visible_entities = visible_entities; reads = reads })

unfoldable pub action_init : Json → Json → Fields → Fields → Result SemanticAction
action_init key kind subject arguments = do
  k ← text key "action.key" 4096
  n ← text kind "action.kind" 4096
  ok (record { key = k; kind = n; subject = subject; arguments = arguments })

-- `semantic_dict`, an action without its key
unfoldable pub semantic_dict : SemanticAction → Json
semantic_dict a = obj (
    field "arguments" (obj a.arguments)
      (field "kind" (str a.kind) (field "subject" (obj a.subject) end)))

unfoldable pub action_to_dict : SemanticAction → Json
action_to_dict a = obj (
    field "arguments" (obj a.arguments)
      (field "key" (str a.key) (field "kind" (str a.kind) (field "subject" (obj a.subject) end))))

unfoldable pub action_decode : Json → Result SemanticAction
action_decode value = do
  o ← object_fields value ("arguments" ∷ "key" ∷ "kind" ∷ "subject" ∷ []) "action"
  key ← item o "key"
  kind ← item o "kind"
  s ← item o "subject"
  subject ← as_object s "action.subject"
  a ← item o "arguments"
  arguments ← as_object a "action.arguments"
  action_init key kind subject arguments

abbrev pub scopes : List String
scopes = "engineering" ∷ "platform_qualified" ∷ "platform_verified" ∷ []

abbrev pub witness : Json → Result (Option String)
witness v = optional (λ w. digest w "source.witness" 64) v

unfoldable pub link_init :
    Json → Json → Json → Json → Json → Json → Json → Json → Json → Result EvidenceLink
link_init bundle record_id environment scope qualification root catalog commit successor = do
  b ← digest bundle "source.bundle" 64
  e ← digest environment "source.environment" 64
  q ← digest qualification "source.qualification" 64
  i ← text record_id "source.record" 4096
  r ← text root "source.root" 4096
  s ← member_of scope scopes "source" "unknown_evidence_scope"
  a ← witness catalog
  c ← witness commit
  u ← witness successor
  ok (record {
    bundle_sha256 = b;
    record_id = i;
    environment_identity = e;
    scope = s;
    qualification_ref = q;
    native_root_ref = r;
    catalog_ref = a;
    commit_ref = c;
    successor_ref = u;
  })

unfoldable pub link_to_dict : EvidenceLink → Json
link_to_dict l = obj (
    field "bundle_sha256" (str l.bundle_sha256) (
      field "catalog_ref" (opt_str l.catalog_ref) (
        field "commit_ref" (opt_str l.commit_ref) (
          field "environment_identity" (str l.environment_identity) (
            field "native_root_ref" (str l.native_root_ref) (
              field "qualification_ref" (str l.qualification_ref) (
                field "record_id" (str l.record_id) (
                  field "scope" (str l.scope)
                    (field "successor_ref" (opt_str l.successor_ref) end)))))))))

abbrev link_names : List String
link_names =
    "bundle_sha256" ∷ "catalog_ref" ∷ "commit_ref" ∷ "environment_identity" ∷ "native_root_ref"
    ∷ "qualification_ref" ∷ "record_id" ∷ "scope" ∷ "successor_ref" ∷ []

unfoldable pub link_decode : Json → Result EvidenceLink
link_decode value = do
  o ← object_fields value link_names "source"
  bundle ← item o "bundle_sha256"
  record_id ← item o "record_id"
  environment ← item o "environment_identity"
  scope ← item o "scope"
  qualification ← item o "qualification_ref"
  root ← item o "native_root_ref"
  catalog ← item o "catalog_ref"
  commit ← item o "commit_ref"
  successor ← item o "successor_ref"
  link_init bundle record_id environment scope qualification root catalog commit successor
