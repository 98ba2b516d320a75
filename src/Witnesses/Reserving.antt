-- ===== src/Witnesses/Reserving.antt =====
-- Reserving and claiming.
use claudeagentsdk_cloudrun.Prelude.{◌≡◌, ◌≢◌, refl, true, false, ◌⊎◌}
use claudeagentsdk_cloudrun.Exec.{ok}
use claudeagentsdk_cloudrun.Dict.{get, put}
use claudeagentsdk_cloudrun.Models.RunStates.{RunState, value}
use claudeagentsdk_cloudrun.InMemory.Sessions.{create_session, put_session}
use claudeagentsdk_cloudrun.InMemory.Runs.{claim_run, heartbeat_run}
use claudeagentsdk_cloudrun.InMemory.Runs.Reserve.{reserve_run, reserve_in}
use claudeagentsdk_cloudrun.InMemory.Runs.Reservation.{
  reserve_run-retry, reserve_run_effect, IsInSlot,
}
use claudeagentsdk_cloudrun.InMemory.Runs.Ownership.{single_winner}
use claudeagentsdk_cloudrun.InMemory.Invariant.{IsWf}
use claudeagentsdk_cloudrun.InMemory.Invariant.Reachable.{Reach-IsWf}
use claudeagentsdk_cloudrun.InMemory.Steps.{here}
use claudeagentsdk_cloudrun.Witnesses.Data.{
  apart, event_named, run_of, run_7, with_session, with_run, with_owner, with_session-IsWf,
  owner_reached,
}

Reach-IsWf_example : IsWf with_owner
Reach-IsWf_example = Reach-IsWf owner_reached

claimed : (claim_run 7 "job-1" with_run).0 ≡ ok true
unfolding claim_run reserve_run reserve_in create_session put_session get put
claimed = refl

single_winner_example :
    let t = with_owner in
    ((claim_run 7 "job-2" t).0 ≢ ok true)
    × ((claim_run 7 "job-2" t).1 ≡ t)
    × (heartbeat_run 7 "job-2" t ≡ (ok false, t))
    × (heartbeat_run 7 "job-1" t ≡ (ok true, t))
single_winner_example =
    single_winner 7 "job-1" "job-2" with_run with_owner claimed here (apart "job-1" "job-2" refl)

reserved : (reserve_run run_7 (event_named "e") with_session).0 ≡ ok run_7
unfolding reserve_run reserve_in create_session put_session get put value
reserved = refl

-- The retry has an id and a time of its own.
reserve_run-retry_example :
    reserve_run (run_of 8 "k" RunState.requested) (event_named "f") with_run ≡ (ok run_7, with_run)
unfolding create_session put_session get
reserve_run-retry_example =
    reserve_run-retry run_7 (run_of 8 "k" RunState.requested) run_7 (event_named "e")
      (event_named "f") with_session with_session-IsWf tt reserved refl refl refl

reserve_run_effect_example :
    (with_run ≡ with_session) ⊎ IsInSlot run_7 (event_named "e") with_session with_run
reserve_run_effect_example =
    reserve_run_effect run_7 (event_named "e") with_session with_run with_session-IsWf refl
