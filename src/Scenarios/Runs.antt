-- ===== src/Scenarios/Runs.antt =====
-- The theorems of Hub/Runs, on the job of Jobs.
use sts2_the_perfect_defect.Prelude.{◌≤◌, ◌≡◌, ◌≢◌, ◌⊎◌, true, some, [], ◌∷◌, arith}
use sts2_the_perfect_defect.Prelude.Result.{ok, err}
use sts2_the_perfect_defect.Prelude.Table.{find}
use sts2_the_perfect_defect.Boundary.Json.{obj, end}
use sts2_the_perfect_defect.Contracts.Request.{request_to_dict}
use sts2_the_perfect_defect.Hub.Schema.{
  at, Job, ComputeAttempt, Db, job_id, attempt_job, cancelling, cancelled,
}
use sts2_the_perfect_defect.Hub.Jobs.{new_job}
use sts2_the_perfect_defect.Hub.Lifecycle.{units}
use sts2_the_perfect_defect.Contracts.Call.{call_to_dict}
use sts2_the_perfect_defect.Hub.Jobs
use sts2_the_perfect_defect.Hub.Compute
use sts2_the_perfect_defect.Hub.Calls.{perform_all, begin_compute_cancel, recover_compute, expire}
use sts2_the_perfect_defect.Hub.Runs.{
  IsSound, perform_all-IsSound, budget_kept, settled_is_final, cancelling_ends_cancelled,
  handle_is_final, prepare_once, cancel_once, recover_fences_out, claim-live, enqueue_idem,
}
use sts2_the_perfect_defect.Scenarios.Data.{rt, sha_a, request, empty, handle}
use sts2_the_perfect_defect.Scenarios.Jobs.{
  empty-IsSound, asked, started, running_db, running-IsSound, intent, submitted_db,
  submitted-IsSound, stopping_db, stopping-IsSound, cancelled_db, cancelled-IsSound, the_job,
  the_attempt, asked_answer, claim_answer, intent_answer, submitted_found, submitted_handle,
  stopping_found, stopping_status, cancelled_found, cancelled_status, stop_answer, recover_answer,
  within_budget, other_secret,
}

perform_all-IsSound_example : IsSound (perform_all rt started empty)
perform_all-IsSound_example = perform_all-IsSound rt started empty empty-IsSound

budget_kept_example : units (perform_all rt started empty) ≤ 10
budget_kept_example =
    budget_kept rt 10 started empty empty-IsSound (omega arith, (omega arith, tt)) (omega arith)

settled_is_final_example :
    (k : Job) × (find job_id "job" (perform_all rt started cancelled_db).jobs ≡ some k)
    × (k.status ≡ (the_job cancelled_db).status)
    × (k.result ≡ (the_job cancelled_db).result)
settled_is_final_example =
    settled_is_final rt started cancelled_db cancelled-IsSound "job" (the_job cancelled_db)
      cancelled_found cancelled_status

cancelling_ends_cancelled_example :
    (k : Job) × (find job_id "job" (perform_all rt started stopping_db).jobs ≡ some k)
    × ((k.status ≡ cancelling) ⊎ (k.status ≡ cancelled))
cancelling_ends_cancelled_example =
    cancelling_ends_cancelled rt started stopping_db stopping-IsSound "job" (the_job stopping_db)
      stopping_found stopping_status

handle_is_final_example :
    (b : ComputeAttempt) × (find attempt_job "job" (perform_all rt started submitted_db).attempts
      ≡ some b)
    × (b.handle ≡ some (call_to_dict handle))
    × (b.request ≡ (the_attempt submitted_db).request)
    × (b.target_id ≡ (the_attempt submitted_db).target_id)
handle_is_final_example =
    handle_is_final rt started submitted_db submitted-IsSound "job" (the_attempt submitted_db)
      (call_to_dict handle) submitted_found submitted_handle

prepare_once_example :
    Compute.prepare_compute rt "job" "fresh"
      (request_to_dict request)
      sha_a
      (at 3)
      (perform_all rt (expire (at 2) ∷ []) (perform_all rt (intent ∷ []) running_db))
    ≢ ok (true, empty)
prepare_once_example =
    prepare_once rt "job" "token" "fresh" (request_to_dict request) (request_to_dict request) sha_a
      sha_a (at 1) (at 3) (expire (at 2) ∷ []) running_db (perform_all rt (intent ∷ []) running_db)
      empty running-IsSound intent_answer

cancel_once_example :
    Compute.begin_compute_cancel rt "job" "token" "attempt" 1 (
      perform_all rt
        (expire (at 2) ∷ [])
        (perform_all rt (begin_compute_cancel "job" "token" "attempt" 1 ∷ []) stopping_db))
    ≢ ok (true, empty)
cancel_once_example =
    cancel_once rt "job" "token" "token" "attempt" "attempt" 1 1 (expire (at 2) ∷ []) stopping_db
      (perform_all rt (begin_compute_cancel "job" "token" "attempt" 1 ∷ []) stopping_db) empty
      stopping-IsSound stop_answer

abbrev recovered_db : Db
recovered_db = perform_all rt (recover_compute "job" "attempt" 1 (at 5) "fresh" ∷ []) running_db

recover_fences_out_example :
    (Compute.compute_fenced rt recovered_db "job" "token" "attempt" 1
      ≡ err (Jobs.hub "stale_attempt"))
    × (Jobs.live rt recovered_db "job" "token" (at 6) ≡ err (Jobs.hub "stale_attempt"))
recover_fences_out_example =
    recover_fences_out rt "job" "attempt" 1 (at 5) "fresh" running_db (the_job recovered_db)
      recovered_db "token" "attempt" 1 (at 6) recover_answer other_secret

claim-live_example :
    Jobs.live rt running_db (the_job running_db).id "token" (at 7) ≡ ok (the_job running_db)
claim-live_example =
    claim-live rt "worker" 0 120 "token" "attempt" (perform_all rt (asked ∷ []) empty) running_db
      (the_job running_db) 7 (perform_all-IsSound rt (asked ∷ []) empty empty-IsSound) claim_answer
      (omega arith) within_budget

enqueue_idem_example :
    Jobs.enqueue "training" sha_a "key" 3600 5 10
      (obj end)
      "other"
      (perform_all rt (asked ∷ []) empty)
    ≡ ok ("job", perform_all rt (asked ∷ []) empty)
enqueue_idem_example =
    enqueue_idem "training" sha_a "key" 3600 5 10 (obj end) "job" "other" "job" empty
      (perform_all rt (asked ∷ []) empty) asked_answer
