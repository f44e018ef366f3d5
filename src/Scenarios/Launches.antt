-- ===== src/Scenarios/Launches.antt =====
-- A scheduler that launches one job, is started again, and ticks once more.
use sts2_the_perfect_defect.Prelude.{◌≤◌, refl, true, false, none, some, List, [], ◌∷◌, arith}
use sts2_the_perfect_defect.Prelude.Result.{ok}
use sts2_the_perfect_defect.Prelude.Table.{find}
use sts2_the_perfect_defect.Boundary.Json.{obj, end}
use sts2_the_perfect_defect.Hub.Schema.{at, attempt_job}
use sts2_the_perfect_defect.Hub.Calls.{Call, perform_all, enqueue}
use sts2_the_perfect_defect.Hub.Runs.{IsSound, perform_all-IsSound}
use sts2_the_perfect_defect.Hub.Scheduler.{
  State, Config, World, Turn, ticking, restarting, run, submits, cancels, intents, cancel_requests,
  launched_once,
}
use sts2_the_perfect_defect.Scenarios.Data.{rt, sha_a, empty, producer, handle}

abbrev config : Config
config = record {
  runtime = rt;
  target = record {
    producer = producer;
    image = "image";
    gpu = "T4";
    timeout_seconds = 600;
    storage_secret_name = "secret";
    qwen_volume_name = none;
  };
  budget_limit = 10;
}

abbrev world : World
world = record {
  lease_token = "token";
  attempt_id = "attempt";
  recovered_token = "fresh";
  admit = λ r. ok tt;
  submit = λ r. some handle;
  poll = λ c. ok none;
  cancel = λ c. true;
  validate = λ r t. ok tt;
  indexed = true;
  index_event = true;
}

abbrev asked : List Call
asked = enqueue "training" sha_a "key" 3600 5 10 (obj end) "job" ∷ []

abbrev start : State
start = record {
  db = perform_all rt asked empty;
  tokens = [];
  closed = false;
  calls = [];
  others = [];
}

start-IsSound : IsSound start.db
start-IsSound = perform_all-IsSound rt asked empty (record {
  keyed_jobs = tt;
  keyed_attempts = tt;
  single = omega arith;
  counted = tt;
  leased = tt;
})

abbrev turns : List Turn
turns = ticking world [] (at 0) ∷ restarting ∷ ticking world [] (at 1000000) ∷ []

launched_once_example :
    (submits "job" (run config turns start).calls ≤ 1)
    × (cancels "job" (run config turns start).calls ≤ 1)
    × (submits "job" (run config turns start).calls
        ≤ intents (find attempt_job "job" (run config turns start).db.attempts))
    × (cancels "job" (run config turns start).calls
        ≤ cancel_requests (find attempt_job "job" (run config turns start).db.attempts))
launched_once_example = launched_once config turns start "job" start-IsSound refl
