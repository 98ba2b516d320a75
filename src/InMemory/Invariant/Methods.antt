-- ===== src/InMemory/Invariant/Methods.antt =====
-- Each method on runs keeps the invariant.
use claudeagentsdk_cloudrun.Prelude.{
  String, ◌≡◌, refl, sym, inl, inr, true, Option, none, some, Option-cases, Bool-cases, arith,
  nat_eq, string_eq,
}
use claudeagentsdk_cloudrun.Dict.{get}
use claudeagentsdk_cloudrun.Models.RunStates.{RunState, active, state_eq}
use claudeagentsdk_cloudrun.Models.Records.{Uuid, Session, Run, ExecutionReference}
use claudeagentsdk_cloudrun.InMemory.State.{Store}
use claudeagentsdk_cloudrun.InMemory.Runs.{
  save_execution, fail_dispatch, request_cancel, claim_run, commit_terminal, other_owner, owned_by,
  replaces_snapshot, same_owner,
}
use claudeagentsdk_cloudrun.InMemory.Leases.{reconcile_terminal, held_by}
use claudeagentsdk_cloudrun.InMemory.Invariant.{IsWf}
use claudeagentsdk_cloudrun.InMemory.Invariant.Updates.{update_at, update_run}

-- The session of a run is there.
pub home_session :
    (s : Store) (r : Uuid) (run : Run)
    → IsWf s
    → get s.runs r ≡ some run
    → (x : Session) × (get s.sessions run.session_id ≡ some x)
home_session s r run inv found = go (get s.sessions run.session_id) refl
  where
    go :
        (o : Option Session)
        → get s.sessions run.session_id ≡ o
        → (x : Session) × (get s.sessions run.session_id ≡ some x)
    go (some x) e = (x, e)
    go none e = ground (arith, inv.home r run found)

pub save_execution-IsWf :
    (r : Uuid) (execution : ExecutionReference) (s : Store)
    → IsWf s
    → IsWf (save_execution r execution s).1
unfolding save_execution
save_execution-IsWf r execution s inv = elim (Option-cases (get s.runs r)) [
  | inl absent ↦ rw absent inv
  | inr (run, found) ↦
      let (x, here) = home_session s r run inv found in
      rw (found, here)
        (update_at inv r run _ found refl refl refl x _ here refl refl (inr (refl, ground arith)))
]

pub fail_dispatch-IsWf :
    (r : Uuid) (error_code : String) (s : Store) → IsWf s → IsWf (fail_dispatch r error_code s).1
unfolding fail_dispatch
fail_dispatch-IsWf r error_code s inv = elim (Option-cases (get s.runs r)) [
  | inl absent ↦ rw absent inv
  | inr (run, found) ↦
      let (x, here) = home_session s r run inv found in
      rw (found, here) (update_at inv r run _ found refl refl refl x _ here refl refl (inl refl))
]

pub request_cancel-IsWf : (r : Uuid) (s : Store) → IsWf s → IsWf (request_cancel r s).1
unfolding request_cancel
request_cancel-IsWf r s inv = elim (Option-cases (get s.runs r)) [
  | inl absent ↦ rw absent inv
  | inr (run, found) ↦
      let (x, here) = home_session s r run inv found in
      elim (Bool-cases (active run.state)) [
        | inl going ↦
            rw (found, going, here)
              (update_at inv r run _ found refl refl refl x _ here refl refl
                (inr (refl, λ _. refl)))
        | inr over ↦ rw (found, over) inv
      ]
]

pub claim_run-IsWf :
    (r : Uuid) (identity : String) (s : Store) → IsWf s → IsWf (claim_run r identity s).1
unfolding claim_run
claim_run-IsWf r identity s inv = elim (Option-cases (get s.runs r)) [
  | inl absent ↦ rw absent inv
  | inr (run, found) ↦ elim (Bool-cases (other_owner (get s.owners r) identity)) [
    | inl taken ↦ rw (found, taken) inv
    | inr free ↦ rw (found, free) (update_run inv r run _ found refl refl refl refl)
  ]
]

pub reconcile_terminal-IsWf :
    (r : Uuid) (holder : String) (state : RunState) (error_code : Option String) (s : Store)
    → IsWf s
    → IsWf (reconcile_terminal r holder state error_code s).1
unfolding reconcile_terminal
reconcile_terminal-IsWf r holder state error_code s inv = elim (Bool-cases (active state)) [
  | inl going ↦ rw going inv
  | inr over ↦ elim (Bool-cases (held_by (get s.leases r) holder)) [
    | inr other ↦ rw (over, other) inv
    | inl held ↦ elim (Option-cases (get s.runs r)) [
      | inl absent ↦ rw (over, held, absent) inv
      | inr (run, found) ↦
          let (x, here) = home_session s r run inv found in
          elim (Bool-cases (active run.state)) [
            | inr ended ↦ rw (over, held, found, ended) inv
            | inl going ↦
                rw (over, held, found, going, here)
                  (update_at inv r run _ found refl refl refl x _ here refl refl (inl refl))
          ]
    ]
  ]
]

pub same_owner-eq :
    (run : Run) (user_id session_id : String)
    → same_owner run user_id session_id ≡ true
    → (run.user_id ≡ user_id) × (run.session_id ≡ session_id)
same_owner-eq run user_id session_id h =
    ground
      (arith, string_eq.beq_iff run.user_id user_id, string_eq.beq_iff run.session_id session_id)

pub commit_terminal-IsWf :
    (run : Run) (identity : String) (s : Store) → IsWf s → IsWf (commit_terminal run identity s).1
unfolding commit_terminal
commit_terminal-IsWf run identity s inv = elim (Bool-cases (active run.state)) [
  | inl going ↦ rw going inv
  | inr over ↦ elim (Option-cases (get s.runs run.id)) [
    | inl absent ↦ rw (over, absent) inv
    | inr (current, found) ↦ elim (Bool-cases (owned_by (get s.owners run.id) identity)) [
      | inr other ↦ rw (over, found, other) inv
      | inl owned ↦ elim (Bool-cases (same_owner current run.user_id run.session_id)) [
        | inr stranger ↦ rw (over, found, owned, stranger) inv
        | inl same ↦
            let (user, place) = same_owner-eq current run.user_id run.session_id same in
            let (x, here) = home_session s run.id current inv found in
            let there = rw place at here in
            let closed =
              update_at inv run.id current run found (sym (inv.run_key run.id current found))
                (sym place) (sym user) x in
            elim (Bool-cases (replaces_snapshot run)) [
              | inl new ↦
                  rw (over, found, owned, same, there, new) (closed _ here refl refl (inl refl))
              | inr old ↦
                  rw (over, found, owned, same, there, old) (closed _ here refl refl (inl refl))
            ]
      ]
    ]
  ]
]
