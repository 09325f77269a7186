-- ===== src/States/Graph.antt =====
-- src/engine/states.ts: the states, the edges, `canTransition` and the dwell limits.
use qrib.Common.{ℕ, ◌≡◌, Bool, true, List, [], ◌∷◌, Option, none, some, arith, ◌==◌, any}

pub data State : Type 0 where
  created quoted authorized crypto_submitted crypto_confirmed conversion_pending : State
  fiat_settlement_pending refund_required reconciliation_required : State
  completed expired failed refunded : State

abbrev code_of : State → ℕ
code_of created = 0
code_of quoted = 1
code_of authorized = 2
code_of crypto_submitted = 3
code_of crypto_confirmed = 4
code_of conversion_pending = 5
code_of fiat_settlement_pending = 6
code_of refund_required = 7
code_of reconciliation_required = 8
code_of completed = 9
code_of expired = 10
code_of failed = 11
code_of refunded = 12

-- `a === b` on two states.
unfoldable pub state_eq : State → State → Bool
state_eq a b = code_of a == code_of b

pub State-discrete : Discrete State
State-discrete = hlevel

pub state_eq→eq : (a b : State) → state_eq a b ≡ true → a ≡ b
unfolding state_eq
state_eq→eq a b h = ground arith

pub state_eq_refl : (a : State) → state_eq a a ≡ true
unfolding state_eq
state_eq_refl a = ground arith

-- `TERMINAL`
abbrev pub terminal : List State
terminal = completed ∷ expired ∷ failed ∷ refunded ∷ []

-- `EDGES`
abbrev pub edges : State → List State
edges created = quoted ∷ failed ∷ []
edges quoted = authorized ∷ expired ∷ failed ∷ []
edges authorized = crypto_submitted ∷ failed ∷ []
edges crypto_submitted = crypto_confirmed ∷ reconciliation_required ∷ []
edges crypto_confirmed = conversion_pending ∷ reconciliation_required ∷ []
edges conversion_pending = fiat_settlement_pending ∷ refund_required ∷ reconciliation_required ∷ []
edges fiat_settlement_pending = completed ∷ refund_required ∷ reconciliation_required ∷ []
edges refund_required = refunded ∷ reconciliation_required ∷ []
edges reconciliation_required = authorized ∷ failed ∷ refund_required ∷ []
edges completed = []
edges expired = []
edges failed = []
edges refunded = []

-- `xs.includes(s)`
abbrev pub includes : List State → State → Bool
includes xs s = any (λ x. state_eq x s) xs

-- `canTransition`
unfoldable pub can_transition : State → State → Bool
unfolding state_eq
can_transition from to = includes (edges from) to

-- `DWELL_SEC`: the longest stay in a state, in seconds.
abbrev pub dwell_sec : State → Option ℕ
dwell_sec quoted = some 90
dwell_sec crypto_submitted = some 600
dwell_sec conversion_pending = some 1800
dwell_sec fiat_settlement_pending = some 1800
dwell_sec _ = none
