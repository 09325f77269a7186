-- ===== src/Tests/Locks.antt =====
-- The theorem on the payment lock, where two calls for one payment come and the first one runs.
use qrib.Common.{[], ◌∷◌, ◌≤◌, refl}
use qrib.Engine.Lock.{
  Locks, Phase, Steps, caller, no_calls, count_running, arrive, enter, none_yet, then_step,
}
use qrib.Engine.Lock.Excludes.{lock_excludes}
use qrib.Tests.Sample.{payment}

abbrev one_waits : Locks
one_waits = record { held = []; callers = caller payment Phase.waiting ∷ [] }

abbrev two_wait : Locks
two_wait = record {
  held = [];
  callers = caller payment Phase.waiting ∷ caller payment Phase.waiting ∷ [];
}

abbrev one_runs : Locks
one_runs = record {
  held = payment ∷ [];
  callers = caller payment Phase.running ∷ caller payment Phase.waiting ∷ [];
}

double_tap : Steps no_calls one_runs
double_tap =
    then_step no_calls two_wait one_runs
      (then_step no_calls one_waits two_wait
        (then_step no_calls no_calls one_waits (none_yet no_calls) (arrive no_calls payment))
        (arrive one_waits payment))
      (enter two_wait [] (caller payment Phase.waiting ∷ []) payment refl refl)

lock_excludes_example : count_running payment one_runs.callers ≤ 1
lock_excludes_example = lock_excludes one_runs double_tap payment
