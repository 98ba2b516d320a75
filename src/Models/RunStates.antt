-- ===== src/Models/RunStates.antt =====
-- models.py: RunState, RUN_STATE_TRANSITIONS, can_transition, ExecutionState.
pub mod Table
use claudeagentsdk_cloudrun.Prelude.{
  ℕ, String, ◌≡◌, refl, ◌↔◌, Bool, true, false, not, List, [], ◌∷◌, arith, Eq, nat_beq, ◌||◌,
}

pub data RunState : Type 0 where
  requested dispatching pending running cancel_requested dispatch_failed : RunState
  cancelled completed failed timed_out persistence_failed : RunState

abbrev pub rank : RunState → ℕ
rank requested = 0
rank dispatching = 1
rank pending = 2
rank running = 3
rank cancel_requested = 4
rank dispatch_failed = 5
rank cancelled = 6
rank completed = 7
rank failed = 8
rank timed_out = 9
rank persistence_failed = 10

abbrev pub state_beq : RunState → RunState → Bool
state_beq s t = nat_beq (rank s) (rank t)

pub state_beq_iff : (s t : RunState) → (state_beq s t ≡ true) ↔ (s ≡ t)
state_beq_iff s t = ground arith

instance abbrev pub state_eq : Eq RunState
state_eq = record { beq = state_beq; beq_iff = state_beq_iff }

-- The wire value, RunState.value.
unfoldable pub value : RunState → String
value requested = "requested"
value dispatching = "dispatching"
value pending = "pending"
value running = "running"
value cancel_requested = "cancel_requested"
value dispatch_failed = "dispatch_failed"
value cancelled = "cancelled"
value completed = "completed"
value failed = "failed"
value timed_out = "timed_out"
value persistence_failed = "persistence_failed"

abbrev pub active : RunState → Bool
active requested = true
active dispatching = true
active pending = true
active running = true
active cancel_requested = true
active _ = false

abbrev pub terminal : RunState → Bool
terminal s = not (active s)

-- state in states
abbrev pub contains : List RunState → RunState → Bool
contains [] s = false
contains (t ∷ ts) s = state_beq t s || contains ts s

unfoldable pub run_state_transitions : RunState → List RunState
run_state_transitions requested = dispatching ∷ dispatch_failed ∷ cancelled ∷ []
run_state_transitions dispatching = pending ∷ dispatch_failed ∷ cancel_requested ∷ []
run_state_transitions pending = running ∷ cancel_requested ∷ cancelled ∷ failed ∷ []
run_state_transitions running = completed ∷ failed ∷ cancel_requested ∷ timed_out ∷ []
run_state_transitions cancel_requested = cancelled ∷ failed ∷ timed_out ∷ []
run_state_transitions _ = []

unfoldable pub can_transition : RunState → RunState → Bool
unfolding run_state_transitions
can_transition current target = contains (run_state_transitions current) target

pub data ExecutionState : Type 0 where
  pending running succeeded failed cancelled : ExecutionState
