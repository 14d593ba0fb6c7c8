-- ===== src/Runtime/Sources/Interval.antt =====
-- core/src/observable.c with core/src/task.c: the values of an interval, in time and with no gap.
use functional_c.Prelude.{
  ℕ, suc, ◌+◌, ◌-◌, ◌*◌, ◌^◌, ◌≤◌, ◌<◌, ◌≡◌, refl, some, none, List, [], ◌∷◌, leb, arith, length,
  Bool-cases, inl, inr,
}
use functional_c.Runtime.Observable.{create_observable, pop_all, subscribe}
use functional_c.Runtime.Task.{TimedTask, insert_task_in, start_task_system}
use functional_c.Runtime.Sources.{TimedSource, interval}
use functional_c.Runtime.Sources.Timed.{
  Wake, timed_out, woken, Pace, asleep, rounds, subscribed, task_at, at_period, run_due, run_early,
  multiples,
}

-- Every wait ends by its timeout.
abbrev pub IsTimedOut : Wake → Type 0
IsTimedOut (timed_out late) = Unit
IsTimedOut (woken early) = ⊥

abbrev pub AllTimedOut : List Pace → Type 0
AllTimedOut [] = Unit
AllTimedOut (p ∷ ps) = IsTimedOut p.wake × AllTimedOut ps

-- What the rounds at these paces come to: `values` numbers are emitted, none of them early, and one
-- in two rounds at least if no wait ends early.
record Emits (blocks : ℕ → ℕ) (ps : List Pace) (ms begin due now amt : ℕ) (done : List TimedTask)
    : Type 0 where
  last : TimedSource
  values : ℕ
  run : rounds blocks ps (at_period ms due now amt done) ≡ some (last, multiples ms amt values)
  count : last.amt ≡ amt + values
  in_time : begin + ms * (amt + values) ≤ last.system.now
  lively : AllTimedOut ps → length ps ≤ 2 * values + 1
  lively_due : AllTimedOut ps → due ≤ now → length ps ≤ 2 * values

Emits-due :
    {blocks : ℕ → ℕ} (p : Pace) {ps : List Pace} {ms begin due now amt : ℕ} {done : List TimedTask}
    → 1 ≤ ms
    → ms * (amt + suc (length ps)) ≤ 0xDEADBEEF
    → amt + suc (length ps) < 2 ^ 31
    → due ≤ now
    → Emits blocks ps ms begin
        (now + p.busy + ms)
        (now + p.busy + p.rest)
        (amt + 1)
        (task_at due ∷ done)
    → Emits blocks (p ∷ ps) ms begin due now amt done
unfolding multiples
Emits-due {blocks} p {ps} {ms} {begin} {due} {now} {amt} {done} h k small past later = record {
  last = later.last;
  values = suc later.values;
  run =
      run_due blocks p ps ms due now amt done later.last (multiples ms (amt + 1) later.values) h
        (omega arith) (omega arith) past later.run;
  count = omega (arith, later.count);
  in_time = omega (arith, later.in_time);
  lively = λ all. omega (arith, later.lively all.1);
  lively_due = λ all is_due. omega (arith, later.lively all.1);
}

Emits-early :
    {blocks : ℕ → ℕ} (p : Pace) {ps : List Pace} {ms begin due now amt : ℕ} {done : List TimedTask}
    → now < due
    → Emits blocks ps ms begin due (now + asleep (due - now) p.wake) amt done
    → Emits blocks (p ∷ ps) ms begin due now amt done
unfolding asleep
Emits-early {blocks} p {ps} {ms} {begin} {due} {now} {amt} {done} early later = record {
  last = later.last;
  values = later.values;
  run =
      run_early blocks p ps ms due now amt done later.last (multiples ms amt later.values) early
        later.run;
  count = later.count;
  in_time = later.in_time;
  lively = λ all. omega (arith, later.lively_due all.1 (slept p.wake all.0));
  lively_due = λ all is_due. absurd (omega arith);
}
  where
    slept : (w : Wake) → IsTimedOut w → due ≤ now + asleep (due - now) w
    slept (timed_out late) h = omega arith
    slept (woken soon) h = absurd h

emits :
    (blocks : ℕ → ℕ) (ps : List Pace) (ms begin due now amt : ℕ) (done : List TimedTask)
    → 1 ≤ ms
    → ms * (amt + length ps) ≤ 0xDEADBEEF
    → amt + length ps < 2 ^ 31
    → begin + ms * (amt + 1) ≤ due
    → begin + ms * amt ≤ now
    → Emits blocks ps ms begin due now amt done
unfolding rounds multiples at_period
emits blocks [] ms begin due now amt done h k small later passed = record {
  last = at_period ms due now amt done;
  values = 0;
  run = refl;
  count = omega arith;
  in_time = omega arith;
  lively = λ all. omega arith;
  lively_due = λ all is_due. omega arith;
}
emits blocks (p ∷ ps) ms begin due now amt done h k small later passed =
    elim (Bool-cases (leb due now)) [
      | inl is_due ↦ Emits-due p h k small (ground arith) (
          emits blocks ps ms begin (now + p.busy + ms) (now + p.busy + p.rest) (amt + 1)
            (task_at due ∷ done) h (omega arith) (omega arith) (ground arith) (ground arith))
      | inr early ↦ Emits-early p (ground arith) (
          emits blocks ps ms begin due (now + asleep (due - now) p.wake) amt done h (omega arith)
            (omega arith) later (omega arith))
    ]

-- An interval of `ms` ms, not 0, that is subscribed to emits 0, ms, 2 * ms, ... with no gap,
-- whatever the clock and the ends of the worker's waits do, and n values not before n * ms have
-- passed: in so many rounds of the worker that `amt` stays an `int` and no value is the end marker.
pub interval-in_time :
    (blocks : ℕ → ℕ) (ms now : ℕ) (ps : List Pace)
    → 1 ≤ ms
    → ms * length ps ≤ 0xDEADBEEF
    → length ps < 2 ^ 31
    → (subscribe blocks none (interval (start_task_system now) ms).observable
        ≡ some (subscribed, []))
      × (t : TimedSource) × (n : ℕ) × (rounds blocks ps
            (record (interval (start_task_system now) ms) { observable = subscribed })
          ≡ some (t, multiples ms 0 n))
      × (t.amt ≡ n)
      × (now + ms * n ≤ t.system.now)
unfolding interval start_task_system subscribe pop_all create_observable insert_task_in at_period
    task_at
interval-in_time blocks ms now ps h le small =
    let e =
      emits blocks ps ms now (now + ms) now 0 [] h (omega arith) (omega arith) (omega arith)
        (omega arith) in
    (refl, e.last, e.values, e.run, omega (arith, e.count), omega (arith, e.in_time))
