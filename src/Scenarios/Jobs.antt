-- ===== src/Scenarios/Jobs.antt =====
-- One job, from its request to its cancellation.
use sts2_the_perfect_defect.Prelude.{
  ◌+◌, ◌<◌, ◌≡◌, ◌≢◌, refl, true, some, List, [], ◌∷◌, arith, eq_iff,
}
use sts2_the_perfect_defect.Prelude.Result.{ok, ◌>>=◌}
use sts2_the_perfect_defect.Prelude.Table.{find, update, first_where}
use sts2_the_perfect_defect.Boundary.Json.{null, obj, end, json_beq}
use sts2_the_perfect_defect.Boundary.Checks.{
  check_text, text, check_digest, is_digest, digest, object_fields, item,
}
use sts2_the_perfect_defect.Contracts.Producer.{
  producer_init, producer_decode, producer_to_dict, validate_durable_metadata,
}
use sts2_the_perfect_defect.Contracts.Request.{
  request_to_dict, request_decode, request_init, member_of, optional, expect_schema, request_id,
}
use sts2_the_perfect_defect.Hub.Schema.{
  at, seconds, Job, ComputeAttempt, Db, job_id, attempt_job, log_event, cancelling, is_settled,
}
use sts2_the_perfect_defect.Hub.Jobs.{new_job}
use sts2_the_perfect_defect.Contracts.Call.{call_decode, call_to_dict, call_id_text}
use sts2_the_perfect_defect.Hub.Jobs
use sts2_the_perfect_defect.Hub.Compute
use sts2_the_perfect_defect.Hub.Calls.{
  Call, perform, perform_all, enqueue, claim, prepare_compute, bind_compute_handle, cancel,
  begin_compute_cancel, recover_compute,
}
use sts2_the_perfect_defect.Hub.Runs.{IsSound, perform_all-IsSound}
use sts2_the_perfect_defect.Scenarios.Data.{rt, sha_a, request, empty, handle}

pub empty-IsSound : IsSound empty
empty-IsSound = record {
  keyed_jobs = tt;
  keyed_attempts = tt;
  single = omega arith;
  counted = tt;
  leased = tt;
}

abbrev pub asked : Call
asked = enqueue "training" sha_a "key" 3600 5 10 (obj end) "job"

abbrev pub started : List Call
started = asked ∷ claim "worker" (at 0) 120 "token" "attempt" ∷ []

abbrev pub running_db : Db
running_db = perform_all rt started empty

pub running-IsSound : IsSound running_db
running-IsSound = perform_all-IsSound rt started empty empty-IsSound

abbrev pub intent : Call
intent = prepare_compute "job" "token" (request_to_dict request) sha_a (at 1)

abbrev pub bound : Call
bound = bind_compute_handle "job" "token" "attempt" 1 (call_to_dict handle)

abbrev pub submitted_db : Db
submitted_db = perform_all rt (intent ∷ bound ∷ []) running_db

pub submitted-IsSound : IsSound submitted_db
submitted-IsSound = perform_all-IsSound rt (intent ∷ bound ∷ []) running_db running-IsSound

abbrev pub stopping_db : Db
stopping_db = perform_all rt (cancel "job" ∷ []) submitted_db

pub stopping-IsSound : IsSound stopping_db
stopping-IsSound = perform_all-IsSound rt (cancel "job" ∷ []) submitted_db submitted-IsSound

abbrev pub cancelled_db : Db
cancelled_db = perform_all rt (asked ∷ cancel "job" ∷ []) empty

pub cancelled-IsSound : IsSound cancelled_db
cancelled-IsSound = perform_all-IsSound rt (asked ∷ cancel "job" ∷ []) empty empty-IsSound

-- The one job and the one attempt of a database
abbrev pub the_job : Db → Job
the_job db = elim db.jobs [ [] ↦ new_job "" "" "" "" 0 0 null | j ∷ js ↦ j ]

abbrev pub the_attempt : Db → ComputeAttempt
the_attempt db = elim db.attempts [ [] ↦ Compute.new_attempt "" "" null 0 rt request | a ∷ as' ↦ a ]

pub asked_answer :
    Jobs.enqueue "training" sha_a "key" 3600 5 10 (obj end) "job" empty
    ≡ ok ("job", perform_all rt (asked ∷ []) empty)
unfolding perform_all perform ◌>>=◌ Jobs.enqueue Jobs.claim Jobs.live Jobs.get Jobs.insert_job
    Jobs.cancel Compute.prepare_compute Compute.compute_fenced Compute.bind_compute_handle
    Compute.begin_compute_cancel Compute.recover_compute find update first_where log_event
    request_decode request_init request_to_dict member_of optional expect_schema request_id
    call_decode call_to_dict call_id_text producer_init producer_decode producer_to_dict
    validate_durable_metadata check_text text check_digest is_digest digest object_fields item
    json_beq
asked_answer = refl

pub claim_answer :
    Jobs.claim rt "worker" (at 0) 120 "token" "attempt" (perform_all rt (asked ∷ []) empty)
    ≡ ok (some (the_job running_db), running_db)
unfolding perform_all perform ◌>>=◌ Jobs.enqueue Jobs.claim Jobs.live Jobs.get Jobs.insert_job
    Jobs.cancel Compute.prepare_compute Compute.compute_fenced Compute.bind_compute_handle
    Compute.begin_compute_cancel Compute.recover_compute find update first_where log_event
    request_decode request_init request_to_dict member_of optional expect_schema request_id
    call_decode call_to_dict call_id_text producer_init producer_decode producer_to_dict
    validate_durable_metadata check_text text check_digest is_digest digest object_fields item
    json_beq
claim_answer = refl

pub intent_answer :
    Compute.prepare_compute rt "job" "token" (request_to_dict request) sha_a (at 1) running_db
    ≡ ok (true, perform_all rt (intent ∷ []) running_db)
unfolding perform_all perform ◌>>=◌ Jobs.enqueue Jobs.claim Jobs.live Jobs.get Jobs.insert_job
    Jobs.cancel Compute.prepare_compute Compute.compute_fenced Compute.bind_compute_handle
    Compute.begin_compute_cancel Compute.recover_compute find update first_where log_event
    request_decode request_init request_to_dict member_of optional expect_schema request_id
    call_decode call_to_dict call_id_text producer_init producer_decode producer_to_dict
    validate_durable_metadata check_text text check_digest is_digest digest object_fields item
    json_beq
intent_answer = refl

pub submitted_found : find attempt_job "job" submitted_db.attempts ≡ some (the_attempt submitted_db)
unfolding perform_all perform ◌>>=◌ Jobs.enqueue Jobs.claim Jobs.live Jobs.get Jobs.insert_job
    Jobs.cancel Compute.prepare_compute Compute.compute_fenced Compute.bind_compute_handle
    Compute.begin_compute_cancel Compute.recover_compute find update first_where log_event
    request_decode request_init request_to_dict member_of optional expect_schema request_id
    call_decode call_to_dict call_id_text producer_init producer_decode producer_to_dict
    validate_durable_metadata check_text text check_digest is_digest digest object_fields item
    json_beq
submitted_found = refl

pub submitted_handle : (the_attempt submitted_db).handle ≡ some (call_to_dict handle)
unfolding perform_all perform ◌>>=◌ Jobs.enqueue Jobs.claim Jobs.live Jobs.get Jobs.insert_job
    Jobs.cancel Compute.prepare_compute Compute.compute_fenced Compute.bind_compute_handle
    Compute.begin_compute_cancel Compute.recover_compute find update first_where log_event
    request_decode request_init request_to_dict member_of optional expect_schema request_id
    call_decode call_to_dict call_id_text producer_init producer_decode producer_to_dict
    validate_durable_metadata check_text text check_digest is_digest digest object_fields item
    json_beq
submitted_handle = refl

pub stopping_found : find job_id "job" stopping_db.jobs ≡ some (the_job stopping_db)
unfolding perform_all perform ◌>>=◌ Jobs.enqueue Jobs.claim Jobs.live Jobs.get Jobs.insert_job
    Jobs.cancel Compute.prepare_compute Compute.compute_fenced Compute.bind_compute_handle
    Compute.begin_compute_cancel Compute.recover_compute find update first_where log_event
    request_decode request_init request_to_dict member_of optional expect_schema request_id
    call_decode call_to_dict call_id_text producer_init producer_decode producer_to_dict
    validate_durable_metadata check_text text check_digest is_digest digest object_fields item
    json_beq
stopping_found = refl

pub stopping_status : (the_job stopping_db).status ≡ cancelling
unfolding perform_all perform ◌>>=◌ Jobs.enqueue Jobs.claim Jobs.live Jobs.get Jobs.insert_job
    Jobs.cancel Compute.prepare_compute Compute.compute_fenced Compute.bind_compute_handle
    Compute.begin_compute_cancel Compute.recover_compute find update first_where log_event
    request_decode request_init request_to_dict member_of optional expect_schema request_id
    call_decode call_to_dict call_id_text producer_init producer_decode producer_to_dict
    validate_durable_metadata check_text text check_digest is_digest digest object_fields item
    json_beq
stopping_status = refl

pub cancelled_found : find job_id "job" cancelled_db.jobs ≡ some (the_job cancelled_db)
unfolding perform_all perform ◌>>=◌ Jobs.enqueue Jobs.claim Jobs.live Jobs.get Jobs.insert_job
    Jobs.cancel Compute.prepare_compute Compute.compute_fenced Compute.bind_compute_handle
    Compute.begin_compute_cancel Compute.recover_compute find update first_where log_event
    request_decode request_init request_to_dict member_of optional expect_schema request_id
    call_decode call_to_dict call_id_text producer_init producer_decode producer_to_dict
    validate_durable_metadata check_text text check_digest is_digest digest object_fields item
    json_beq
cancelled_found = refl

pub cancelled_status : is_settled (the_job cancelled_db).status ≡ true
unfolding perform_all perform ◌>>=◌ Jobs.enqueue Jobs.claim Jobs.live Jobs.get Jobs.insert_job
    Jobs.cancel Compute.prepare_compute Compute.compute_fenced Compute.bind_compute_handle
    Compute.begin_compute_cancel Compute.recover_compute find update first_where log_event
    request_decode request_init request_to_dict member_of optional expect_schema request_id
    call_decode call_to_dict call_id_text producer_init producer_decode producer_to_dict
    validate_durable_metadata check_text text check_digest is_digest digest object_fields item
    json_beq
cancelled_status = refl

pub stop_answer :
    Compute.begin_compute_cancel rt "job" "token" "attempt" 1 stopping_db
    ≡ ok (true, perform_all rt (begin_compute_cancel "job" "token" "attempt" 1 ∷ []) stopping_db)
unfolding perform_all perform ◌>>=◌ Jobs.enqueue Jobs.claim Jobs.live Jobs.get Jobs.insert_job
    Jobs.cancel Compute.prepare_compute Compute.compute_fenced Compute.bind_compute_handle
    Compute.begin_compute_cancel Compute.recover_compute find update first_where log_event
    request_decode request_init request_to_dict member_of optional expect_schema request_id
    call_decode call_to_dict call_id_text producer_init producer_decode producer_to_dict
    validate_durable_metadata check_text text check_digest is_digest digest object_fields item
    json_beq
stop_answer = refl

pub recover_answer :
    Compute.recover_compute rt "job" "attempt" 1 (at 5) "fresh" running_db
    ≡ ok (
      the_job (perform_all rt (recover_compute "job" "attempt" 1 (at 5) "fresh" ∷ []) running_db),
      perform_all rt (recover_compute "job" "attempt" 1 (at 5) "fresh" ∷ []) running_db,
    )
unfolding perform_all perform ◌>>=◌ Jobs.enqueue Jobs.claim Jobs.live Jobs.get Jobs.insert_job
    Jobs.cancel Compute.prepare_compute Compute.compute_fenced Compute.bind_compute_handle
    Compute.begin_compute_cancel Compute.recover_compute find update first_where log_event
    request_decode request_init request_to_dict member_of optional expect_schema request_id
    call_decode call_to_dict call_id_text producer_init producer_decode producer_to_dict
    validate_durable_metadata check_text text check_digest is_digest digest object_fields item
    json_beq
recover_answer = refl

pub within_budget : 7 < 0 + seconds (the_job running_db).max_seconds
unfolding perform_all perform ◌>>=◌ Jobs.enqueue Jobs.claim Jobs.live Jobs.get Jobs.insert_job
    Jobs.cancel Compute.prepare_compute Compute.compute_fenced Compute.bind_compute_handle
    Compute.begin_compute_cancel Compute.recover_compute find update first_where log_event
    request_decode request_init request_to_dict member_of optional expect_schema request_id
    call_decode call_to_dict call_id_text producer_init producer_decode producer_to_dict
    validate_durable_metadata check_text text check_digest is_digest digest object_fields item
    json_beq
within_budget = omega arith

pub other_secret : rt.sha256 "token" ≢ rt.sha256 "fresh"
other_secret e = absurd (cc ((eq_iff "token" "fresh").1 e))

-- The examples of the theorems on runs of calls.
