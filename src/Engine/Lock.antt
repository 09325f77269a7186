-- ===== src/Engine/Lock.antt =====
-- `withPaymentLock` of src/engine/service.ts: the calls of `execute` that run at the same time, and
-- the locks that they hold.
pub mod Excludes
use qrib.Common.{
  Text, List, [], Bool, any, select, ◌++◌, ◌≡◌, true, ℕ, text_eq, not, ◌∷◌, false, ◌&&◌,
  if◌then◌else◌, ◌+◌,
}

-- A call waits in its loop, runs its function, or has left it, with a result or with a throw.
pub data Phase : Type 0 where
  waiting running left : Phase

pub record Caller : Type 0 where
  pub payment : Text
  pub phase : Phase

-- The keys of `locks`, and the calls.
pub record Locks : Type 0 where
  pub held : List Text
  pub callers : List Caller

abbrev pub no_calls : Locks
no_calls = record { held = []; callers = [] }

abbrev pub caller : Text → Phase → Caller
caller id phase = record { payment = id; phase = phase }

-- `locks.has(id)`
abbrev pub is_held : Text → List Text → Bool
is_held id held = any (text_eq id) held

-- `locks.delete(id)`
abbrev pub release : Text → List Text → List Text
release id held = select (λ k. not (text_eq id k)) held

abbrev pub with_caller : Locks → List Text → List Caller → Caller → List Caller → Locks
with_caller s held before c after = record { held = held; callers = before ++ c ∷ after }

-- One step of the event loop: between two awaits no other call runs. A call that wakes up and finds
-- the lock taken waits again, which changes nothing.
pub data Step : Locks → Locks → Type 0 where
  arrive : (s : Locks) (id : Text) → Step s (with_caller s s.held s.callers (caller id waiting) [])
  enter :
      (s : Locks) (before after : List Caller) (id : Text)
      → s.callers ≡ before ++ caller id waiting ∷ after
      → is_held id s.held ≡ false
      → Step s (with_caller s (id ∷ s.held) before (caller id running) after)
  leave :
      (s : Locks) (before after : List Caller) (id : Text)
      → s.callers ≡ before ++ caller id running ∷ after
      → Step s (with_caller s (release id s.held) before (caller id left) after)

-- Any number of steps, the last one first.
pub data Steps : Locks → Locks → Type 0 where
  none_yet : (s : Locks) → Steps s s
  then_step : (s t u : Locks) → Steps s t → Step t u → Steps s u

abbrev pub is_running : Text → Caller → Bool
is_running id c = text_eq id c.payment && runs c.phase
  where
    runs : Phase → Bool
    runs running = true
    runs _ = false

-- How many calls run for a payment.
abbrev pub count_running : Text → List Caller → ℕ
count_running id [] = 0
count_running id (c ∷ rest) = (if is_running id c then 1 else 0) + count_running id rest
