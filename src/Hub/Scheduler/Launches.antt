-- ===== src/Hub/Scheduler/Launches.antt =====
-- A scheduler that runs for ever, that may be closed and started again at any point, beside other
-- clients of the same database.
use sts2_the_perfect_defect.Prelude.{
  ◌≤◌, ◌≡◌, refl, String, Bool, true, false, Option, none, some, List, [], ◌∷◌, arith,
  if◌then◌else◌,
}
use sts2_the_perfect_defect.Prelude.Table.{find}
use sts2_the_perfect_defect.Hub.Schema.{Instant, ComputeAttempt, attempt_job}
use sts2_the_perfect_defect.Hub.Calls.{Call}
use sts2_the_perfect_defect.Hub.Runs.{IsSound}
use sts2_the_perfect_defect.Hub.Scheduler.Base.{State, Config, World}
use sts2_the_perfect_defect.Hub.Scheduler.Tick.{tick, close}
use sts2_the_perfect_defect.Hub.Scheduler.Keeps.{IsOnce, submits, cancels, intents, cancel_requests}
use sts2_the_perfect_defect.Hub.Scheduler.Turns.{tick-IsOnce}

-- A tick, with what is answered to it and with what the others do before each of its transactions;
-- the end of the scheduler by `close`; or a new `Scheduler` on the same database, after a crash too.
pub data Turn : Type 0 where
  ticking : World → List (List Call) → Instant → Turn
  closing : Turn
  restarting : Turn

same_calls : (s t : State) → t.db ≡ s.db → t.calls ≡ s.calls → IsOnce s → IsOnce t
same_calls s t db calls h = record {
  sound = rw db h.sound;
  submitted = λ job. rw (db, calls) (h.submitted job);
  cancelled = λ job. rw (db, calls) (h.cancelled job);
}

closed-IsOnce :
    (b : Bool) (s : State)
    → IsOnce s
    → IsOnce (if b then s else record s { closed = true; tokens = [] })
closed-IsOnce true s h = h
closed-IsOnce false s h = same_calls s _ refl refl h

start-IsOnce : (s : State) → IsSound s.db → s.calls ≡ [] → IsOnce s
start-IsOnce s sound start = record {
  sound = sound;
  submitted = λ job. rw start (omega arith);
  cancelled = λ job. rw start (omega arith);
}

intents_bound : (o : Option ComputeAttempt) → intents o ≤ 1
intents_bound none = omega arith
intents_bound (some a) = omega arith

cancel_requests_bound : (o : Option ComputeAttempt) → cancel_requests o ≤ 1
cancel_requests_bound o = ground arith

module _ (c : Config) where
  unfoldable pub turn : Turn → State → State
  unfolding tick
  turn (ticking w others now) s = (tick c w now (record s { others = others })).1
  turn closing s = close s
  turn restarting s = record s { tokens = []; closed = false; others = [] }

  unfoldable pub run : List Turn → State → State
  run [] s = s
  run (t ∷ ts) s = run ts (turn t s)

  turn-IsOnce : (t : Turn) (s : State) → IsOnce s → IsOnce (turn t s)
  unfolding turn close
  turn-IsOnce (ticking w others now) s h =
      (tick-IsOnce c w now).step (record s { others = others }) (same_calls s _ refl refl h)
  turn-IsOnce closing s h = closed-IsOnce s.closed s h
  turn-IsOnce restarting s h = same_calls s _ refl refl h

  run-IsOnce : (ts : List Turn) (s : State) → IsOnce s → IsOnce (run ts s)
  unfolding run
  run-IsOnce [] s h = h
  run-IsOnce (t ∷ ts) s h = run-IsOnce ts (turn t s) (turn-IsOnce t s h)

  -- From a sound database, whatever ticks, restarts and calls of others follow, in any order, and
  -- whatever the provider answers: the provider is asked to run a job at most once, and to cancel
  -- it at most once, never without the intent and the request to cancel that are on record.
  pub launched_once :
      (ts : List Turn) (s : State) (job : String)
      → IsSound s.db
      → s.calls ≡ []
      → (submits job (run ts s).calls ≤ 1)
        × (cancels job (run ts s).calls ≤ 1)
        × (submits job (run ts s).calls ≤ intents (find attempt_job job (run ts s).db.attempts))
        × (cancels job (run ts s).calls
            ≤ cancel_requests (find attempt_job job (run ts s).db.attempts))
  launched_once ts s job sound start =
      let once = run-IsOnce ts s (start-IsOnce s sound start) in
      let attempt = find attempt_job job (run ts s).db.attempts in
      (
        omega (arith, once.submitted job, intents_bound attempt),
        omega (arith, once.cancelled job, cancel_requests_bound attempt),
        once.submitted job,
        once.cancelled job,
      )
