-- ===== src/Backends/Gke/Cancels/Polling.antt =====
-- What a cancellation does to the memory, step by step: the look at the state, the rounds of polling,
-- the deletion.
use claudeagentsdk_cloudrun.Prelude.{
  ℕ, zero, suc, String, Option, List, beq_refl, true, false, ◌≡◌, refl, ap, ◌⊎◌, inl, inr, none,
  some, arith, string_eq, Bool-cases, Option-cases,
}
use claudeagentsdk_cloudrun.Errors.{Error}
use claudeagentsdk_cloudrun.Exec.{Exec, Result, ok, err, Result-cases}
use claudeagentsdk_cloudrun.Exec.Keeps.{Keeps, Keeps-raise, Keeps-pure, keeps_rules}
use claudeagentsdk_cloudrun.Text.Search.{is_in}
use claudeagentsdk_cloudrun.Models.RunStates.{ExecutionState}
use claudeagentsdk_cloudrun.Models.Records.{ExecutionReference}
use claudeagentsdk_cloudrun.Fakes.Executions.{has_ended}
use claudeagentsdk_cloudrun.Backends.Provider.{
  Fault, Answer, returned, failed, Answer-cases, Call, ask, Memory, add,
}
use claudeagentsdk_cloudrun.Backends.Gke.{
  KubernetesBatchClient, is_execution_not_found, validate_reference, observed, get_failed, state_of,
  confirm, polled, poll, deleted, cancel,
}
use claudeagentsdk_cloudrun.Backends.Gke.Manifests.{Settings}
use claudeagentsdk_cloudrun.Backends.Gke.States.{
  Job, split_reference, split_reference_fails, is_not_found, map_kubernetes_error,
}

not_found_kind :
    (fault : Fault) (message : String)
    → is_execution_not_found (map_kubernetes_error fault message).kind ≡ is_not_found fault
unfolding map_kubernetes_error is_not_found
not_found_kind fault message = ground arith

split-kind :
    (reference : ExecutionReference) (e : Error)
    → split_reference reference ≡ err e
    → is_execution_not_found e.kind ≡ false
split-kind reference e h = ground (arith, split_reference_fails reference e)

abbrev pub marked : String → Memory → Memory
marked name m = record m { cancelled = add name m.cancelled }

-- The provider said that the Job is gone: a look at it or its deletion was answered so.
pub record SaidGone {C : Type 0} (client : KubernetesBatchClient C) (reference : ExecutionReference)
    : Type 0 where
  pub cloud : C
  pub parts : String × String
  pub fault : Fault
  pub split : split_reference reference ≡ ok parts
  pub answer :
      ((client.get_job parts.0 parts.1 cloud).0 ≡ failed fault)
      ⊎ ((client.delete_job parts.0 parts.1 cloud).0 ≡ failed fault)
  pub gone : is_not_found fault ≡ true

module _ {C : Type 0} (client : KubernetesBatchClient C) (self : Settings)
    (reference : ExecutionReference) (m : Memory) where
  -- A returned state has ended, and the memory is as it was, or has the reference as cancelled where
  -- that was returned and the provider said that the Job is gone.
  abbrev pub IsSettled : Result ExecutionState × (Memory × C) → Type 0
  IsSettled after =
      ((state : ExecutionState) → after.0 ≡ ok state → has_ended state ≡ true)
      × ((after.1.0 ≡ m)
          ⊎ ((after.1.0 ≡ marked reference.name m)
              × (after.0 ≡ ok ExecutionState.cancelled)
              × (SaidGone client reference)))

  abbrev Same : Memory × C → Type 0
  Same s = s.0 ≡ m

  ask-Keeps : {A : Type 0} (call : Call C A) → Keeps Same (ask call)
  ask-Keeps call = record { at = λ s kept. kept }

  get_failed-Keeps :
      (fault : Fault) (message : Option String) → Keeps Same (get_failed client self fault message)
  unfolding get_failed
  get_failed-Keeps fault none = Keeps-raise _
  get_failed-Keeps fault (some message) = Keeps-raise _

  observed-Keeps : (answer : Answer Job) → Keeps Same (observed client self answer)
  unfolding observed
  observed-Keeps (returned job) = Keeps-pure _
  observed-Keeps (failed fault) = get_failed-Keeps fault fault.temporary

  state_of-Keeps : Keeps Same (state_of client self reference)
  unfolding state_of validate_reference
  state_of-Keeps = search (keeps_rules, ask-Keeps, observed-Keeps) depth 12

  state_of-gone :
      (e : Error) (s : Memory × C)
      → (state_of client self reference s).0 ≡ err e
      → is_execution_not_found e.kind ≡ true
      → (SaidGone client reference)
  unfolding state_of validate_reference observed get_failed
  state_of-gone e s raised gone = elim (Bool-cases (string_eq.beq reference.backend "gke")) [
    | inr wrong ↦ cc (rw wrong at raised)
    | inl right ↦ elim (Bool-cases (is_in s.0.cancelled reference.name)) [
      | inl over ↦ cc (rw (right, over) at raised)
      | inr going ↦ elim (Result-cases (split_reference reference)) [
        | inr (e', wrong) ↦ cc (rw (right, going, wrong) at raised, split-kind reference e' wrong)
        | inl (parts, split) ↦ elim (Answer-cases (client.get_job parts.0 parts.1 s.1).0) [
          | inl (job, answer) ↦ cc (rw (right, going, split, answer) at raised)
          | inr (fault, answer) ↦ elim (Option-cases fault.temporary) [
            | inr (message, temporary) ↦ cc (rw (right, going, split, answer, temporary) at raised)
            | inl other ↦
                let kind = not_found_kind fault "GKE Job get failed" in
                let same = rw (right, going, split, answer, other) at raised in
                record {
                  cloud = s.1;
                  parts = parts;
                  fault = fault;
                  split = split;
                  answer = inl answer;
                  gone = cc;
                }
          ]
        ]
      ]
    ]
  ]

  confirm-IsSettled :
      (s : Memory × C)
      → Same s
      → (SaidGone client reference)
      → IsSettled (confirm client self reference s)
  unfolding confirm
  confirm-IsSettled s kept gone =
      (λ state e. ground (arith, e), inr (ap (marked reference.name) kept, refl, gone))

  polled-IsSettled :
      (again : Exec (Memory × C) ExecutionState) (r : Result ExecutionState) (s : Memory × C)
      → Same s
      → ((e : Error)
          → r ≡ err e
          → is_execution_not_found e.kind ≡ true
          → (SaidGone client reference))
      → IsSettled (again s)
      → IsSettled (polled client self reference again r s)
  unfolding polled
  polled-IsSettled again (err e) s kept said ih =
      elim (Bool-cases (is_execution_not_found e.kind)) [
        | inl gone ↦ rw gone (confirm-IsSettled s kept (said e refl gone))
        | inr other ↦ rw other (λ state e'. cc, inl kept)
      ]
  polled-IsSettled again (ok ExecutionState.succeeded) s kept said ih =
      (λ state e. ground arith, inl kept)
  polled-IsSettled again (ok ExecutionState.failed) s kept said ih =
      (λ state e. ground arith, inl kept)
  polled-IsSettled again (ok ExecutionState.pending) s kept said ih = ih
  polled-IsSettled again (ok ExecutionState.running) s kept said ih = ih
  polled-IsSettled again (ok ExecutionState.cancelled) s kept said ih = ih

  poll-IsSettled : (n : ℕ) (s : Memory × C) → Same s → IsSettled (poll client self reference n s)
  unfolding poll
  poll-IsSettled zero s kept = (λ state e. cc, inl kept)
  poll-IsSettled (suc n) s kept =
      let seen = state_of client self reference s in
      let after = state_of-Keeps.at s kept in
      polled-IsSettled (poll client self reference n) seen.0 seen.1 after
        (λ e raised gone. state_of-gone e s raised gone) (poll-IsSettled n seen.1 after)

  -- `deleted` after the call of delete_job for the parts of the reference.
  deleted-IsSettled :
      (parts : String × String) (c : C) (answer : Answer (Unit {0})) (s : Memory × C)
      → split_reference reference ≡ ok parts
      → (client.delete_job parts.0 parts.1 c).0 ≡ answer
      → Same s
      → IsSettled (deleted client self reference answer s)
  unfolding deleted
  deleted-IsSettled parts c (returned _) s split said kept =
      poll-IsSettled self.cancel_poll_attempts s kept
  deleted-IsSettled parts c (failed fault) s split said kept =
      elim (Bool-cases (is_not_found fault)) [
        | inl gone ↦ rw gone (
            confirm-IsSettled s kept (record {
              cloud = c;
              parts = parts;
              fault = fault;
              split = split;
              answer = inr said;
              gone = gone;
            }))
        | inr other ↦ rw other (λ state e. cc, inl kept)
      ]

  pub cancel-IsSettled : (s : Memory × C) → Same s → IsSettled (cancel client self reference s)
  unfolding cancel validate_reference
  cancel-IsSettled s kept =
      let seen = state_of client self reference s in
      let after = state_of-Keeps.at s kept in
      elim (Bool-cases (string_eq.beq reference.backend "gke")) [
        | inr wrong ↦ rw wrong (λ state e. cc, inl kept)
        | inl right ↦ elim (Bool-cases (is_in s.0.cancelled reference.name)) [
          | inl over ↦ rw (right, over) (λ state e. ground (arith, e), inl kept)
          | inr going ↦ elim (Result-cases seen.0) [
            | inr (e, raised) ↦ rw (right, going, raised) (λ state e'. cc, inl after)
            | inl (state, looked) ↦ elim (Bool-cases (has_ended state)) [
              | inl ended ↦
                  rw (right, going, looked, ended) (λ other e. ground (arith, e), inl after)
              | inr runs ↦ elim (Result-cases (split_reference reference)) [
                | inr (e, wrong) ↦
                    rw (right, going, looked, runs, wrong) (λ other e'. cc, inl after)
                | inl (parts, split) ↦
                    rw (right, going, looked, runs, split)
                      (deleted-IsSettled parts seen.1.1
                        (client.delete_job parts.0 parts.1 seen.1.1).0
                        (seen.1.0, (client.delete_job parts.0 parts.1 seen.1.1).1) split refl after)
              ]
            ]
          ]
        ]
      ]

pub is_in-add : (name : String) (names : List String) → is_in (add name names) name ≡ true
unfolding add
is_in-add name names = elim (Bool-cases (is_in names name)) [
  | inl there ↦ rw there there
  | inr new ↦ rw new (rw (beq_refl name) refl)
]
