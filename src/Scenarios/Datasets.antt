-- ===== src/Scenarios/Datasets.antt =====
-- Three runs of one decision each, as one source, and what is admitted of it.
use mathlib.Core.List.{Permᴰ}
use sts2_the_perfect_defect.Prelude.{
  ◌≡◌, refl, String, true, none, some, List, [], ◌∷◌, nat_eq, string_eq,
}
use sts2_the_perfect_defect.Prelude.Result.{Result, ok, err, ◌>>=◌}
use sts2_the_perfect_defect.Boundary.Json.{Json, num, str, arr, obj, field, end, json_beq}
use sts2_the_perfect_defect.Prelude.Table.{find, update}
use sts2_the_perfect_defect.Boundary.Checks.{
  text, check_text, digest, check_digest, is_digest, unsigned,
}
use sts2_the_perfect_defect.Contracts.Request.{member_of, optional}
use sts2_the_perfect_defect.Contracts.Runtime.{Runtime}
use sts2_the_perfect_defect.Contracts.Producer.{is_secret_in, keep_plain}
use sts2_the_perfect_defect.Data.WholeRuns.{
  components, merge_all, previous_of, root, add_found, assign_groups, assign_runs, group_all,
  insert_group, sort_groups, split_whole_runs, texts,
}
use sts2_the_perfect_defect.Boundary.Texts.{named_in, before, insert_once, sorted_set}
use sts2_the_perfect_defect.FullRun.Semantic.{
  SemanticAction, EvidenceLink, semantic_dict, action_init, link_init, written, action_to_dict,
  link_to_dict, read_to_dict, state_to_dict,
}
use sts2_the_perfect_defect.FullRun.Transition.{
  ResearchTransition, transition_init, transition_to_dict, transition_decode, boolean, are_distinct,
  chosen, is_evidenced, transition_id,
}
use sts2_the_perfect_defect.FullRun.RoundTrip.{transition_decode-transition_to_dict, IsTransition}
use sts2_the_perfect_defect.FullRun.Views.{
  decision_fingerprint, state_content, level, shown_reads, reject_leakage, reject_fields,
  reject_items, is_leak, serialized, serialize_action, begins, insert_text, lite_fields, text_items,
}
use sts2_the_perfect_defect.FullRun.Fingerprint.{decision_fingerprint-Perm}
use sts2_the_perfect_defect.FullRun.Admission.{
  SourceProjection, AdmittedDataset, admit, verify_all, take_projections, take_records, take_record,
  is_taken, agrees, all_named, check_run, check_runs, counts_from, decisions, ends_before,
  ends_terminal, insert_record, of_run, one_scope, proofs_agree, sort_records,
}
use sts2_the_perfect_defect.FullRun.Admitted.{admit-IsAdmitted, IsAdmitted}
use sts2_the_perfect_defect.Scenarios.Data.{rt, sha_a}

abbrev link : String → EvidenceLink
link id = record {
  bundle_sha256 = sha_a;
  record_id = id;
  environment_identity = sha_a;
  scope = "engineering";
  qualification_ref = sha_a;
  native_root_ref = "root";
  catalog_ref = some sha_a;
  commit_ref = some sha_a;
  successor_ref = some sha_a;
}

abbrev play : String → SemanticAction
play key = record { key = key; kind = "play"; subject = end; arguments = end }

abbrev skip : String → SemanticAction
skip key = record { key = key; kind = "skip"; subject = end; arguments = end }

abbrev decided : String → List SemanticAction → ResearchTransition
decided id actions = record {
  run_id = id;
  episode_id = "episode";
  step_index = 0;
  domain = "combat";
  family = "cards";
  surface = "hand";
  state = record {
    run = end;
    decision = field "room" (str id) end;
    visible_entities = [];
    reads = [];
  };
  actions = actions;
  catalog_complete = true;
  catalog_count = 2;
  chosen_key = some "a";
  successor = none;
  terminal = true;
  disposition = "committed";
  provenance = link id;
}

abbrev turn : String → ResearchTransition
turn id = decided id (play "a" ∷ skip "b" ∷ [])

turn-IsTransition : IsTransition (turn "one")
unfolding transition_init action_init link_init text check_text digest check_digest is_digest
    member_of optional unsigned boolean are_distinct chosen is_evidenced ◌>>=◌
turn-IsTransition = record {
  state = tt;
  actions = (refl, (refl, tt));
  successor = tt;
  link = refl;
  accepted = refl;
}

transition_decode-transition_to_dict_example :
    transition_decode rt (transition_to_dict rt (turn "one")) ≡ ok (turn "one")
transition_decode-transition_to_dict_example =
    transition_decode-transition_to_dict rt (turn "one") turn-IsTransition

decision_fingerprint-Perm_example :
    decision_fingerprint rt (turn "one")
    ≡ decision_fingerprint rt (decided "one" (skip "c" ∷ play "d" ∷ []))
unfolding semantic_dict
decision_fingerprint-Perm_example =
    decision_fingerprint-Perm rt (turn "one") (decided "one" (skip "c" ∷ play "d" ∷ [])) refl
      (Permᴰ.swap refl refl)

-- A hash that tells records and decisions by the text in them
abbrev told_by : Json → String
told_by (obj (field k (str b) (field l (str id) fs))) = id
told_by (obj (field k (arr xs) (field l (obj (field m (obj (field n (str room) f)) g)) h))) = room
told_by _ = sha_a

abbrev telling : Runtime
telling = record rt { semantic_hash = told_by }

abbrev source : SourceProjection
source = record {
  adapter_id = "synthetic";
  source_sha256 = sha_a;
  scope = "engineering";
  run_proofs =
      record { run_id = "one"; started_ref = sha_a; terminal_ref = sha_a; record_count = 1 }
      ∷ record { run_id = "three"; started_ref = sha_a; terminal_ref = sha_a; record_count = 1 }
      ∷ record { run_id = "two"; started_ref = sha_a; terminal_ref = sha_a; record_count = 1 }
      ∷ [];
  transitions = turn "one" ∷ turn "two" ∷ turn "three" ∷ turn "one" ∷ [];
}

abbrev trusted : SourceProjection → Result (Unit {0})
trusted p = ok tt

abbrev value_of : Result AdmittedDataset → AdmittedDataset
value_of (ok d) = d
value_of (err e) = record {
  records = [];
  splits = λ v. none;
  seed = num 0;
  scope = "";
  exact_duplicates = 0;
}

abbrev dataset : AdmittedDataset
dataset = value_of (admit telling trusted (source ∷ []) (num 7))

admitted : admit telling trusted (source ∷ []) (num 7) ≡ ok dataset
unfolding admit ◌>>=◌ verify_all take_projections take_records take_record decision_fingerprint
    state_content level shown_reads reject_leakage reject_fields reject_items is_leak written
    serialized serialize_action semantic_dict find is_taken unsigned json_beq is_secret_in
    keep_plain components merge_all previous_of root before named_in add_found assign_groups
    assign_runs group_all insert_group insert_once sort_groups sorted_set split_whole_runs texts
    agrees all_named check_run check_runs counts_from decisions ends_before ends_terminal
    insert_record of_run one_scope proofs_agree sort_records action_to_dict link_to_dict
    read_to_dict state_to_dict transition_id transition_to_dict begins insert_text lite_fields
    text_items update
admitted = refl

admit-IsAdmitted_example : IsAdmitted telling (source ∷ []) dataset
admit-IsAdmitted_example = admit-IsAdmitted telling trusted (source ∷ []) (num 7) dataset admitted
