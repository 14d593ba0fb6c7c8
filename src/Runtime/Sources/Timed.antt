-- ===== src/Runtime/Sources/Timed.antt =====
-- core/src/observable.c with core/src/task.c: what `interval` emits as its task comes due again and
-- again on the worker, whatever the worker's waits and the clock do.
use functional_c.Prelude.{
  ◌>>=◌, ℕ, zero, suc, ◌+◌, ◌-◌, ◌*◌, ◌^◌, ◌≤◌, ◌<◌, ◌≡◌, refl, true, false, Option, some, List, [],
  ◌∷◌, ◌++◌, leb, ltb, ◌==◌, arith,
}
use functional_c.Runtime.Value.{Value, word}
use functional_c.Runtime.Observable.{Observable, create_observable, push_observable, pop_all}
use functional_c.Runtime.Task.{
  TimedTask, TaskSystem, Round, waiting, ran, worker_round, insert_task_in,
}
use functional_c.Runtime.Sources.{TimedSource, addnext}

-- How `pthread_cond_timedwait` ends: by its timeout, which is not before the time asked for, but may
-- be some ms late; or by a signal or for no reason, after any time.
pub data Wake : Type 0 where
  timed_out woken : ℕ → Wake

-- The time that passes in a round besides: before the action reads the clock, and at the end.
pub record Pace : Type 0 where
  pub busy : ℕ
  pub wake : Wake
  pub rest : ℕ

passes : ℕ → TaskSystem → TaskSystem
passes ms s = record s { now = s.now + ms }

unfoldable pub asleep : ℕ → Wake → ℕ
asleep ms (timed_out late) = ms + late
asleep ms (woken early) = early

-- What the worker's round comes to: a task is run, or the worker sleeps.
taken : (ℕ → ℕ) → Pace → TimedSource → Round × TaskSystem → Option (TimedSource × List Value)
unfolding passes asleep
taken blocks p t (ran task, s) = do
  r ← addnext blocks (record t { system = passes p.busy s })
  some (record r.0 { system = passes p.rest (r.0).system }, r.1)
taken blocks p t (waiting ms, s) = some (record t { system = passes (asleep ms p.wake) s }, [])
taken blocks p t (_, s) = some (record t { system = s }, [])

-- The rounds of the worker at these paces, with all that reaches the subscriber.
unfoldable pub rounds : (ℕ → ℕ) → List Pace → TimedSource → Option (TimedSource × List Value)
unfolding taken worker_round
rounds blocks [] t = some (t, [])
rounds blocks (p ∷ ps) t = do
  r ← taken blocks p t (worker_round t.system)
  rest ← rounds blocks ps r.0
  some (rest.0, r.1 ++ rest.1)

abbrev pub subscribed : Observable
unfolding create_observable
subscribed = record create_observable { subscriber = true }

unfoldable pub task_at : ℕ → TimedTask
task_at due = record { time_ms = due; ctx = 0; action = 0 }

-- The source waits for its next task, which is due at `due`.
unfoldable pub at_period : ℕ → ℕ → ℕ → ℕ → List TimedTask → TimedSource
unfolding task_at
at_period ms due now amt done = record {
  system = record { tasks = task_at due ∷ []; running = true; now = now; done = done };
  observable = subscribed;
  ms = ms;
  amt = amt;
}

push_subscribed :
    (blocks : ℕ → ℕ) (n : ℕ)
    → n < 0xDEADBEEF
    → push_observable blocks subscribed (word n) ≡ some (subscribed, word n ∷ [])
unfolding push_observable pop_all create_observable
push_subscribed blocks n h = let other : (n == 0xDEADBEEF) ≡ false = ground arith in rw other refl

-- The task is due, and is run.
pub run_due :
    (blocks : ℕ → ℕ) (p : Pace) (ps : List Pace) (ms due now amt : ℕ) (done : List TimedTask)
    (t : TimedSource) (out : List Value)
    → 1 ≤ ms
    → ms * amt < 0xDEADBEEF
    → amt + 1 < 2 ^ 31
    → due ≤ now
    → rounds blocks ps
        (at_period ms (now + p.busy + ms) (now + p.busy + p.rest) (amt + 1) (task_at due ∷ done))
      ≡ some (t, out)
    → rounds blocks (p ∷ ps) (at_period ms due now amt done) ≡ some (t, word (ms * amt) ∷ out)
unfolding rounds at_period worker_round addnext insert_task_in task_at
run_due blocks p ps ms due now amt done t out h k small past later =
    let late : leb due now ≡ true = ground arith in
    let period : (ms == 0) ≡ false = ground arith in
    let fits : ltb (amt + 1) (2 ^ 31) ≡ true = ground arith in
    rw late (rw (push_subscribed blocks (ms * amt) k) (rw period (rw fits (rw later refl))))

-- The task is not due, and the worker sleeps.
pub run_early :
    (blocks : ℕ → ℕ) (p : Pace) (ps : List Pace) (ms due now amt : ℕ) (done : List TimedTask)
    (t : TimedSource) (out : List Value)
    → now < due
    → rounds blocks ps (at_period ms due (now + asleep (due - now) p.wake) amt done) ≡ some (t, out)
    → rounds blocks (p ∷ ps) (at_period ms due now amt done) ≡ some (t, out)
unfolding rounds at_period worker_round task_at
run_early blocks p ps ms due now amt done t out h later =
    let early : leb due now ≡ false = ground arith in rw early (rw later refl)

-- The words of `ms * amt`, `ms * (amt + 1)`, ...
unfoldable pub multiples : ℕ → ℕ → ℕ → List Value
multiples ms amt zero = []
multiples ms amt (suc k) = word (ms * amt) ∷ multiples ms (amt + 1) k
