-- ===== src/InMemory/Runs/Ends.antt =====
-- How runs end: cancel requests, terminal commits and reconciliation, each by what it writes.
pub mod Written
pub mod Commits
use claudeagentsdk_cloudrun.Prelude.{
  ℕ, String, ◌≡◌, ◌≢◌, refl, sym, ap, ◌∙◌, inl, inr, ◌⊎◌, Bool, true, false, not, ◌&&◌, Option,
  none, some, Option-cases, Bool-cases, arith, nat_eq, string_eq, if◌then◌else◌,
}
use claudeagentsdk_cloudrun.Errors.{error, session_ownership, value_error}
use claudeagentsdk_cloudrun.Exec.{Result, ok, err}
use claudeagentsdk_cloudrun.Dict.{get, put, get-put, get-put_self}
use claudeagentsdk_cloudrun.Models.RunStates.{RunState, active, terminal, value}
use claudeagentsdk_cloudrun.Models.Ids.{str}
use claudeagentsdk_cloudrun.Models.Records.{Uuid, Run, Session}
use claudeagentsdk_cloudrun.InMemory.State.{Store}
use claudeagentsdk_cloudrun.InMemory.Runs.{
  request_cancel, commit_terminal, fail_dispatch, owned_by, same_owner, replaces_snapshot,
}
use claudeagentsdk_cloudrun.InMemory.Leases.{reconcile_terminal, held_by}
use claudeagentsdk_cloudrun.InMemory.Invariant.{IsWf}
use claudeagentsdk_cloudrun.InMemory.Invariant.Methods.{home_session, same_owner-eq}
use Written.{written, state_in, slot_in, state_in-written, slot_in-written, slot_in-same}

-- The slot is freed, and shows how the run ended.
abbrev pub freed : Session → RunState → ℕ → Session
freed x state now = record x {
  active_run_id = none;
  latest_run_state = some (value state);
  updated_at = now;
}

module _ (r : Uuid) (run : Run) (s : Store) (inv : IsWf s) (found : get s.runs r ≡ some run) where
  abbrev pub home : Session
  home = (home_session s r run inv found).0

  abbrev touched : Session
  touched = record home { updated_at = s.clock }

  abbrev pub at_home : get s.sessions run.session_id ≡ some home
  at_home = (home_session s r run inv found).1

  pub home_unique : (x : Session) → get s.sessions run.session_id ≡ some x → home ≡ x
  home_unique x there = cc (sym at_home ∙ there)

  abbrev home_key : home.id ≡ run.session_id
  home_key = inv.session_key run.session_id home at_home

  pub request_cancel-active :
      active run.state ≡ true
      → request_cancel r s ≡ (
          let run' = record run { state = RunState.cancel_requested } in
          (ok run', written s r run' run.session_id (record home { updated_at = s.clock })))
  unfolding request_cancel
  request_cancel-active going = rw (found, going, at_home, home_key)

  pub request_cancel-ended : active run.state ≡ false → request_cancel r s ≡ (ok run, s)
  unfolding request_cancel
  request_cancel-ended over = rw (found, over)

  pub fail_dispatch_lem :
      (code : String)
      → fail_dispatch r code s ≡ (
          let run' = record run { state = RunState.dispatch_failed; error_code = some code } in
          (ok run', written s r run' run.session_id (freed home RunState.dispatch_failed s.clock)))
  unfolding fail_dispatch
  fail_dispatch_lem code = rw (found, at_home, home_key)

  module _ (holder : String) (state : RunState) (code : Option String)
      (held : held_by (get s.leases r) holder ≡ true) (over : active state ≡ false) where
    pub reconcile-active :
        active run.state ≡ true
        → reconcile_terminal r holder state code s ≡ (
            let run' = record run {
              state = state;
              error_code = code;
              finished_at = some s.clock;
            } in
            (ok run', written s r run' run.session_id (freed home state s.clock)))
    unfolding reconcile_terminal
    reconcile-active going = rw (over, held, found, going, at_home, home_key)

    pub reconcile-ended :
        active run.state ≡ false → reconcile_terminal r holder state code s ≡ (ok run, s)
    unfolding reconcile_terminal
    reconcile-ended done = rw (over, held, found, done)

-- In a well-formed store a cancel request never fails on a run that is there. A run that has ended stays as it was, and
-- the store with it. Any other run waits for its cancel, and no other state and no slot changes.
pub request_cancel_lem :
    (r : Uuid) (run : Run) (s : Store)
    → IsWf s
    → get s.runs r ≡ some run
    → if terminal run.state
      then request_cancel r s ≡ (ok run, s)
      else ((request_cancel r s).0 ≡ ok (record run { state = RunState.cancel_requested }))
        × ((q : Uuid)
            → state_in (request_cancel r s).1 q
              ≡ (if nat_eq.beq r q then some RunState.cancel_requested else state_in s q))
        × ((k : String) → slot_in (request_cancel r s).1 k ≡ slot_in s k)
request_cancel_lem r run s inv found = elim (Bool-cases (active run.state)) [
  | inr over ↦ rw over (request_cancel-ended r run s inv found over)
  | inl going ↦
      let same = request_cancel-active r run s inv found going in
      rw (going, same)
        (
          refl,
          λ q. state_in-written s r _ run.session_id (touched r run s inv found) q,
          λ k.
              slot_in-same s r run run.session_id (touched r run s inv found)
                (rw (at_home r run s inv found)) k,
        )
]

module _ (q r : Uuid) (holder : String) (target last : RunState) (code : Option String) (s : Store)
    (at : state_in s q ≡ some last) (ended : active last ≡ false) where
  cancel_keeps : state_in (request_cancel r s).1 q ≡ some last
  unfolding request_cancel
  cancel_keeps = elim (Option-cases (get s.runs r)) [
    | inl absent ↦ rw absent at
    | inr (run, found) ↦ ground (
      arith,
      found,
      nat_eq.beq_iff r q,
      get-put s.runs r q (record run { state = RunState.cancel_requested }),
    )
  ]

  reconcile_keeps : state_in (reconcile_terminal r holder target code s).1 q ≡ some last
  unfolding reconcile_terminal
  reconcile_keeps = elim (Bool-cases (active target)) [
    | inl going ↦ rw going at
    | inr over ↦ elim (Bool-cases (held_by (get s.leases r) holder)) [
      | inr other ↦ rw (over, other) at
      | inl held ↦ elim (Option-cases (get s.runs r)) [
        | inl absent ↦ rw (over, held, absent) at
        | inr (run, found) ↦ elim (Bool-cases (active run.state)) [
          | inr done ↦ rw (over, held, found, done) at
          | inl going ↦
              rw (over, held, found, going)
                (ground (
                  arith,
                  nat_eq.beq_iff r q,
                  get-put s.runs r q (record run {
                    state = target;
                    error_code = code;
                    finished_at = some s.clock;
                  }),
                ))
        ]
      ]
    ]
  ]

  -- Neither a cancel request nor a reconciliation changes the state of a run that has ended, this
  -- run's or any other's, whatever the call is given and however it comes out.
  pub ended_stays :
      (state_in (request_cancel r s).1 q ≡ some last)
      × (state_in (reconcile_terminal r holder target code s).1 q ≡ some last)
  ended_stays = (cancel_keeps, reconcile_keeps)

-- In a well-formed store, reconciliation to a terminal state by the holder of the run's lease ends
-- a run that is active: it alone changes state, with the error code and the time, the slot of its
-- session is free, and no other slot changes.
pub reconcile_terminal_lem :
    (r : Uuid) (run : Run) (holder : String) (target : RunState) (code : Option String) (s : Store)
    → IsWf s
    → get s.runs r ≡ some run
    → held_by (get s.leases r) holder ≡ true
    → active run.state ≡ true
    → active target ≡ false
    → ((reconcile_terminal r holder target code s).0
        ≡ ok (record run { state = target; error_code = code; finished_at = some s.clock }))
      × ((q : Uuid)
          → state_in (reconcile_terminal r holder target code s).1 q
            ≡ (if nat_eq.beq r q then some target else state_in s q))
      × ((k : String)
          → slot_in (reconcile_terminal r holder target code s).1 k
            ≡ (if string_eq.beq run.session_id k then some none else slot_in s k))
reconcile_terminal_lem r run holder target code s inv found held going over =
    rw (reconcile-active r run s inv found holder target code held over going) (
      refl,
      λ q. state_in-written s r _ run.session_id (freed (home r run s inv found) target s.clock) q,
      λ k. slot_in-written s r run run.session_id (freed (home r run s inv found) target s.clock) k,
    )
