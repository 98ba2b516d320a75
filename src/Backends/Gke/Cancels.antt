-- ===== src/Backends/Gke/Cancels.antt =====
-- How a cancellation ends, and what the backend then remembers.
pub mod Polling
use claudeagentsdk_cloudrun.Prelude.{◌≡◌, ◌⊎◌, inl, inr, true, refl, string_eq, Bool-cases}
use claudeagentsdk_cloudrun.Exec.{Result, ok}
use claudeagentsdk_cloudrun.Text.Search.{is_in}
use claudeagentsdk_cloudrun.Models.RunStates.{ExecutionState}
use claudeagentsdk_cloudrun.Models.Records.{ExecutionReference}
use claudeagentsdk_cloudrun.Fakes.Executions.{has_ended}
use claudeagentsdk_cloudrun.Backends.Provider.{Memory}
use claudeagentsdk_cloudrun.Backends.Gke.{
  KubernetesBatchClient, validate_reference, state_of, cancel,
}
use claudeagentsdk_cloudrun.Backends.Gke.Manifests.{Settings}
use claudeagentsdk_cloudrun.Backends.Gke.Cancels.Polling.{
  marked, SaidGone, cancel-IsSettled, is_in-add,
}

module _ {C : Type 0} (client : KubernetesBatchClient C) (self : Settings)
    (reference : ExecutionReference) where
  cancel-ok :
      (state : ExecutionState) (s : Memory × C)
      → (cancel client self reference s).0 ≡ ok state
      → string_eq.beq reference.backend "gke" ≡ true
  unfolding cancel validate_reference
  cancel-ok state s done = elim (Bool-cases (string_eq.beq reference.backend "gke")) [
    | inl right ↦ right
    | inr wrong ↦ cc (rw wrong at done)
  ]

  cancelled_before :
      (s : Memory × C)
      → string_eq.beq reference.backend "gke" ≡ true
      → is_in s.0.cancelled reference.name ≡ true
      → (state_of client self reference s ≡ (ok ExecutionState.cancelled, s))
        × (cancel client self reference s ≡ (ok ExecutionState.cancelled, s))
  unfolding cancel state_of validate_reference
  cancelled_before s right over = (rw (right, over) refl, rw (right, over) refl)

  -- For every client: a state that `cancel` returns has ended. The backend's memory is as it was, or
  -- it has got the reference among the cancelled ones. The latter only where the provider answered a
  -- look at the Job or its deletion by saying that the Job is gone; then CANCELLED is returned, and
  -- every later look at the execution and every later cancel return CANCELLED with no call and no
  -- change.
  pub cancel_lem :
      (m : Memory) (c : C)
      → let after = cancel client self reference (m, c) in
        ((state : ExecutionState) → after.0 ≡ ok state → has_ended state ≡ true)
        × ((after.1.0 ≡ m)
            ⊎ ((after.1.0 ≡ marked reference.name m)
                × (after.0 ≡ ok ExecutionState.cancelled)
                × SaidGone client reference
                × (state_of client self reference after.1 ≡ (ok ExecutionState.cancelled, after.1))
                × (cancel client self reference after.1 ≡ (ok ExecutionState.cancelled, after.1))))
  cancel_lem m c =
      let after = cancel client self reference (m, c) in
      let (ends, memory) = cancel-IsSettled client self reference m (m, c) refl in
      (
        ends,
        elim memory [
          | inl same ↦ inl same
          | inr (new, done, gone) ↦
              let over : is_in after.1.0.cancelled reference.name ≡ true =
                rw new (is_in-add reference.name m.cancelled) in
              let (looked, again) =
                cancelled_before after.1 (cancel-ok ExecutionState.cancelled (m, c) done) over in
              inr (new, done, gone, looked, again)
        ],
      )
