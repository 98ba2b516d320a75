-- ===== src/Fakes/Starts.antt =====
-- A run is started once, and an execution that has ended stays as it is.
use claudeagentsdk_cloudrun.Prelude.{
  ◌≡◌, ◌∙◌, ap, refl, true, some, nat_eq, string_eq, length, Option-cases, Bool-cases, inl, inr,
}
use claudeagentsdk_cloudrun.Exec.{ok}
use claudeagentsdk_cloudrun.Dict.{get, get-put_self}
use claudeagentsdk_cloudrun.Models.RunStates.{ExecutionState}
use claudeagentsdk_cloudrun.Models.Records.{Uuid, ExecutionReference}
use claudeagentsdk_cloudrun.Fakes.Executions.{
  Executions, has_ended, new_reference, use_or_start, start, state_of, cancel,
}

-- The execution that a run was given is given again, and nothing is started.
start_again :
    (run_id : Uuid) (reference : ExecutionReference) (s : Executions)
    → (start run_id s).0 ≡ ok reference
    → get (start run_id s).1.references_by_run run_id ≡ some reference
unfolding start use_or_start
start_again run_id reference s started = elim (Option-cases (get s.references_by_run run_id)) [
  | inr (existing, there) ↦ rw there (there ∙ ap some (cc (rw there at started)))
  | inl new ↦ rw new (
      get-put_self s.references_by_run run_id (new_reference run_id (length s.states))
      ∙ ap some (cc (rw new at started)))
]

started_twice :
    (run_id : Uuid) (reference : ExecutionReference) (s : Executions)
    → get s.references_by_run run_id ≡ some reference
    → start run_id s ≡ (ok reference, s)
unfolding start use_or_start
started_twice run_id reference s there = rw there refl

-- Where the fake backend has started a run, a second start of the run gives the same execution
-- and changes nothing.
pub start_once :
    (run_id : Uuid) (reference : ExecutionReference) (s : Executions)
    → (start run_id s).0 ≡ ok reference
    → start run_id (start run_id s).1 ≡ (ok reference, (start run_id s).1)
start_once run_id reference s started =
    started_twice run_id reference (start run_id s).1 (start_again run_id reference s started)

-- An execution after its cancel has ended: as it had before, or as cancelled. Every later cancel
-- and every look at it say the same and change nothing.
pub cancel_settles :
    (reference : ExecutionReference) (state : ExecutionState) (s : Executions)
    → (cancel reference s).0 ≡ ok state
    → let t = (cancel reference s).1 in
      (has_ended state ≡ true)
      × (state_of reference t ≡ (ok state, t))
      × (cancel reference t ≡ (ok state, t))
unfolding cancel state_of
cancel_settles reference state s done = elim (Option-cases (get s.states reference.name)) [
  | inl absent ↦ cc (rw absent at done)
  | inr (before, there) ↦ elim (Bool-cases (has_ended before)) [
    | inl over ↦
        let same : before ≡ state = cc (rw (there, over) at done) in
        rw (there, over) (rw (← same) (over, rw there refl, rw (there, over) refl))
    | inr going ↦
        let same : ExecutionState.cancelled ≡ state = cc (rw (there, going) at done) in
        rw (there, going, get-put_self) (rw (← same) (refl, refl, refl))
  ]
]
