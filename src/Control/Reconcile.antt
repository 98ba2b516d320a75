-- ===== src/Control/Reconcile.antt =====
-- ControlClient.reconcile over the in-memory store: what it makes of the provider's answer.
use Prim.Native.String.{◌++◌ as str_append}
use claudeagentsdk_cloudrun.Prelude.{
  ℕ, beq_refl, String, ◌≡◌, ◌∙◌, refl, ap, true, false, ◌&&◌, List, Option, none, some, arith,
  string_eq, nat_eq, if◌then◌else◌, Bool-cases, inl, inr,
}
use claudeagentsdk_cloudrun.Errors.{ErrorClass, Error, execution_not_found, execution_temporary}
use claudeagentsdk_cloudrun.Exec.{Result, ok, err, pure, on_left, ◌>>=◌, ◌>>◌}
use claudeagentsdk_cloudrun.Dict.{Dict, get, put, remove, values, get-put_self}
use claudeagentsdk_cloudrun.Models.RunStates.{RunState, ExecutionState, active, state_eq}
use claudeagentsdk_cloudrun.Models.Records.{Uuid, ChatEvent, Run, Session, ExecutionReference}
use claudeagentsdk_cloudrun.Ports.{ExecutionBackend}
use claudeagentsdk_cloudrun.InMemory.State.{Store}
use claudeagentsdk_cloudrun.InMemory.Port.{in_memory}
use claudeagentsdk_cloudrun.InMemory.Events.Order.{list_all}
use claudeagentsdk_cloudrun.InMemory.Leases.{blocks, held_by}
use claudeagentsdk_cloudrun.InMemory.Leases.Exclusion.{leased, lease_of, acquire-free, release-held}
use claudeagentsdk_cloudrun.InMemory.Runs.{get_run_for_job, is_some}
use claudeagentsdk_cloudrun.InMemory.Runs.Ends.{reconcile-active, home_unique, freed}
use claudeagentsdk_cloudrun.InMemory.Runs.Ends.Written.{written}
use claudeagentsdk_cloudrun.InMemory.Invariant.{IsWf}
use claudeagentsdk_cloudrun.Control

-- The state that a run is to end in, and the error code, where the provider's answer ends it.
abbrev pub verdict_of_loss : String → RunState → RunState × String
verdict_of_loss backend_name RunState.cancel_requested =
    (RunState.cancelled, "execution_cancelled_after_deletion")
verdict_of_loss backend_name _ = (RunState.failed, str_append backend_name "_execution_not_found")

abbrev pub verdict_of_error : String → RunState → ErrorClass → Option (RunState × String)
verdict_of_error backend_name state execution_not_found = some (verdict_of_loss backend_name state)
verdict_of_error backend_name state _ = none

-- An execution that succeeded is not enough: the run must have its snapshot and its final event.
abbrev pub verdict_of_success : Run → List ChatEvent → Option (RunState × String)
verdict_of_success run events =
    if is_some run.snapshot && Control.has_final events
    then none
    else some (RunState.persistence_failed, "persistence_failed")

abbrev pub verdict :
    String → Run → List ChatEvent → Result ExecutionState → Option (RunState × String)
verdict backend_name run events (ok ExecutionState.pending) = none
verdict backend_name run events (ok ExecutionState.running) = none
verdict backend_name run events (ok ExecutionState.cancelled) =
    some (RunState.cancelled, "cloud_run_execution_cancelled")
verdict backend_name run events (ok ExecutionState.failed) =
    some (RunState.failed, "cloud_run_execution_failed")
verdict backend_name run events (ok ExecutionState.succeeded) = verdict_of_success run events
verdict backend_name run events (err e) = verdict_of_error backend_name run.state e.kind

-- What a call says that ends nothing: an error but a temporary one goes through.
abbrev pub reply_to_error : Run → Error → ErrorClass → Result Run
reply_to_error run e execution_temporary = ok run
reply_to_error run e _ = err e

abbrev pub reply : Run → Result ExecutionState → Result Run
reply run (ok answer) = ok run
reply run (err e) = reply_to_error run e e.kind

abbrev pub ended : Run → RunState × String → ℕ → Run
ended run (target, code) now = record run {
  state = target;
  error_code = some code;
  finished_at = some now;
}

no_target :
    (run : Run) (events : List ChatEvent)
    → is_some run.snapshot && Control.has_final events ≡ true
    → Control.succeeded_target run events ≡ none
no_target run events saved = ground arith

lost_target :
    (run : Run) (events : List ChatEvent)
    → is_some run.snapshot && Control.has_final events ≡ false
    → Control.succeeded_target run events ≡ some RunState.persistence_failed
lost_target run events lost = ground arith

loss-failed :
    (backend_name : String) (state : RunState)
    → state_eq.beq state RunState.cancel_requested ≡ false
    → verdict_of_loss backend_name state
      ≡ (RunState.failed, str_append backend_name "_execution_not_found")
loss-failed backend_name state other = ground arith

module _ (r : Uuid) (run : Run) (holder : String) (s : Store) (x : Session) where
  -- The lease was taken and given back.
  abbrev pub unlocked : Store → Store
  unlocked t = record t { leases = remove (put s.leases r (lease_of r holder s.clock)) r }

  abbrev pub outcome :
      {B : Type 0}
      → B
      → Result ExecutionState
      → Option (RunState × String)
      → Result Run × (Store × B)
  outcome b answer none = (reply run answer, (unlocked s, b))
  outcome b answer (some v) =
      let run' = ended run v s.clock in
      (ok run', (unlocked (written s r run' run.session_id (freed x v.0 s.clock)), b))

module _ {B : Type 0} (backend : ExecutionBackend B) (r : Uuid) (run : Run)
    (execution : ExecutionReference) (holder : String) (s : Store) (inv : IsWf s)
    (found : get s.runs r ≡ some run) (x : Session)
    (lives : get s.sessions run.session_id ≡ some x) where
  mine : held_by (get (leased r holder s).leases r) holder ≡ true
  mine = rw get-put_self (beq_refl holder)

  settle-none :
      (b : B)
      → Control.settle in_memory backend r run holder none (leased r holder s, b)
        ≡ (ok run, (unlocked r run holder s x s, b))
  unfolding Control.settle
  settle-none b = rw (release-held r holder (leased r holder s) mine)

  module _ (going : active run.state ≡ true) where
    -- The run is ended and the lease given back.
    end_run :
        (target : RunState) (code : String) (b : B)
        → active target ≡ false
        → (on_left {B = B} (in_memory.reconcile_terminal r holder target (some code)) >>= λ result.
              on_left (in_memory.release_reconciliation_lease r holder) >> pure result)
            (leased r holder s, b)
          ≡ (let run' = ended run (target, code) s.clock in
              (
                ok run',
                (
                  unlocked r run holder s x
                      (written s r run' run.session_id (freed x target s.clock)),
                  b,
                ),
              ))
    end_run target code b over =
        let t = leased r holder s in
        let run' = ended run (target, code) s.clock in
        let u = written t r run' run.session_id (freed x target s.clock) in
        rw
          (
            reconcile-active r run t inv found holder target (some code) mine over going,
            home_unique r run t inv found x lives,
            release-held r holder u mine,
          )
          refl

    settle-lost :
        (e : Error) (b : B)
        → Control.settle_error in_memory backend r run holder e execution_not_found
            (leased r holder s, b)
          ≡ outcome r run holder s x b
              (err e)
              (some (verdict_of_loss backend.backend_name run.state))
    unfolding Control.settle_error
    settle-lost e b = elim (Bool-cases (state_eq.beq run.state RunState.cancel_requested)) [
      | inl asked ↦
          rw (asked, (state_eq.beq_iff run.state RunState.cancel_requested).0 asked)
            (end_run RunState.cancelled "execution_cancelled_after_deletion" b refl)
      | inr not_asked ↦
          rw (not_asked, loss-failed backend.backend_name run.state not_asked)
            (end_run RunState.failed (str_append backend.backend_name "_execution_not_found") b
              refl)
    ]

    settle-error :
        (e : Error) (kind : ErrorClass) (b : B)
        → e.kind ≡ kind
        → Control.settle_error in_memory backend r run holder e kind (leased r holder s, b)
          ≡ outcome r run holder s x b
              (err e)
              (verdict_of_error backend.backend_name run.state kind)
    unfolding Control.settle_error
    settle-error e execution_not_found b same = settle-lost e b
    settle-error e execution_temporary b same =
        rw (release-held r holder (leased r holder s) mine, same) refl
    settle-error e kind b same = rw (release-held r holder (leased r holder s) mine, same) refl

    settled :
        (d : Dict String ChatEvent) (b : B) (answer : Result ExecutionState)
        → get s.events r ≡ some d
        → Control.settle_status in_memory backend r run holder answer (leased r holder s, b)
          ≡ outcome r run holder s x b answer (verdict backend.backend_name run (values d) answer)
    unfolding Control.settle_status Control.provider_target Control.settle Control.reconciled_code
    settled d b (ok ExecutionState.pending) logged = settle-none b
    settled d b (ok ExecutionState.running) logged = settle-none b
    settled d b (ok ExecutionState.cancelled) logged =
        end_run RunState.cancelled "cloud_run_execution_cancelled" b refl
    settled d b (ok ExecutionState.failed) logged =
        end_run RunState.failed "cloud_run_execution_failed" b refl
    settled d b (ok ExecutionState.succeeded) logged =
        rw (list_all r d (leased r holder s) inv logged)
          (elim (Bool-cases (is_some run.snapshot && Control.has_final (values d))) [
            | inl saved ↦ rw (saved, no_target run (values d) saved) (settle-none b)
            | inr lost ↦
                rw (lost, lost_target run (values d) lost)
                  (end_run RunState.persistence_failed "persistence_failed" b refl)
          ])
    settled d b (err e) logged = settle-error e e.kind b refl

    reconcile_in_lem :
        (d : Dict String ChatEvent) (b b' : B) (answer : Result ExecutionState)
        → get s.events r ≡ some d
        → blocks (get s.leases r) holder s.clock ≡ false
        → backend.get execution b ≡ (answer, b')
        → Control.reconcile_in in_memory backend r run (some execution) holder (s, b)
          ≡ outcome r run holder s x b' answer (verdict backend.backend_name run (values d) answer)
    unfolding Control.reconcile_in Control.reconcile_with
    reconcile_in_lem d b b' answer logged free said =
        rw (going, acquire-free r holder s free, said) (settled d b' answer logged)

    -- Over a well-formed in-memory store, for a run that is stored under its id, is active and
    -- has an execution, and whose lease is free: the provider is asked once, and the run is ended
    -- exactly as its answer calls for (`verdict`): cancelled, failed, failed to persist where the
    -- execution succeeded and the run has no snapshot or no final event, cancelled or failed
    -- where the execution is gone. Any other answer ends nothing; an error that is not temporary
    -- goes through. The lease is given back in every case, and besides it only the run that is
    -- ended and its session are written.
    pub reconcile_lem :
        (d : Dict String ChatEvent) (b b' : B) (answer : Result ExecutionState)
        → get s.events r ≡ some d
        → run.execution ≡ some execution
        → blocks (get s.leases r) holder s.clock ≡ false
        → backend.get execution b ≡ (answer, b')
        → Control.reconcile in_memory backend r holder (s, b)
          ≡ outcome r run holder s x b' answer (verdict backend.backend_name run (values d) answer)
    unfolding Control.reconcile get_run_for_job
    reconcile_lem d b b' answer logged has free said = rw found (
        ap (λ o. Control.reconcile_in in_memory backend r run o holder (s, b)) has
        ∙ reconcile_in_lem d b b' answer logged free said)
