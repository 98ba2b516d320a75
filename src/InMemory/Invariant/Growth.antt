-- ===== src/InMemory/Invariant/Growth.antt =====
-- The methods that add sessions, runs and events keep the invariant.
use claudeagentsdk_cloudrun.Prelude.{
  String, ◌≡◌, ◌⊎◌, refl, ◌∙◌, inl, inr, true, Option, none, some, Option-cases, Bool-cases, arith,
  nat_eq, string_eq, first, length,
}
use claudeagentsdk_cloudrun.Dict.{Dict, get, values}
use claudeagentsdk_cloudrun.Dict.Entries.{first-values_of_get}
use claudeagentsdk_cloudrun.Models.RunStates.{active}
use claudeagentsdk_cloudrun.Models.Records.{Uuid, Session, Run, ChatEvent}
use claudeagentsdk_cloudrun.InMemory.State.{Store}
use claudeagentsdk_cloudrun.InMemory.Sessions.{create_session, put_session}
use claudeagentsdk_cloudrun.InMemory.Runs.Reserve.{
  reserve_run, reserve_initial_run, reserve_new, same_request, references_match,
}
use claudeagentsdk_cloudrun.InMemory.Events.{append_event}
use claudeagentsdk_cloudrun.InMemory.Events.Log.{notify_lem}
use claudeagentsdk_cloudrun.InMemory.Invariant.{IsWf}
use claudeagentsdk_cloudrun.InMemory.Invariant.Updates.{replace_session}
use claudeagentsdk_cloudrun.InMemory.Invariant.Additions.{
  add_session, add_run, add_event, IsNewOrOf,
}

pub create_session-IsWf :
    (id workspace_id user_id title : String) (s : Store)
    → get s.sessions id ≡ none
    → IsWf s
    → IsWf (create_session id workspace_id user_id title s).1
unfolding create_session
create_session-IsWf id workspace_id user_id title s fresh inv = add_session inv _ fresh refl

-- What a caller of put_session brings: a new session without a run, or one that keeps its user, and
-- its slot or frees it.
abbrev pub IsKeptFrom : Session → Option Session → Type 0
IsKeptFrom x none = x.active_run_id ≡ none
IsKeptFrom x (some old) =
    (x.user_id ≡ old.user_id) × ((x.active_run_id ≡ none) ⊎ (x.active_run_id ≡ old.active_run_id))

pub put_session-IsWf :
    (x : Session) (s : Store)
    → IsKeptFrom x (get s.sessions x.id)
    → IsWf s
    → IsWf (put_session x s).1
unfolding put_session
put_session-IsWf x s kept inv = elim (Option-cases (get s.sessions x.id)) [
  | inl fresh ↦ add_session inv x fresh (rw fresh at kept)
  | inr (old, found) ↦
      let (user, slot) = rw found at kept in replace_session inv x old found user slot
]

pub append_event-IsWf : (event : ChatEvent) (s : Store) → IsWf s → IsWf (append_event event s).1
unfolding append_event
append_event-IsWf event s inv = elim (Option-cases (get s.events event.run_id)) [
  | inl absent ↦ rw absent inv
  | inr (d, found) ↦ elim (Option-cases (get d event.id)) [
    | inr (old, here) ↦ rw (found, here) inv
    | inl new ↦
        rw (found, new, notify_lem)
          (add_event inv event.run_id d (record event { sequence = length d }) found new refl refl)
  ]
]

-- The id of a run is new, or the request that the run stands for has come before.
abbrev pub IsNewOrRetry : Run → Option Run → Type 0
IsNewOrRetry run none = Unit
IsNewOrRetry run (some old) = same_request run.session_id run.idempotency_key old ≡ true

pub fresh_of_unseen :
    (run : Run) (runs : Dict Uuid Run)
    → IsNewOrRetry run (get runs run.id)
    → first (same_request run.session_id run.idempotency_key) (values runs) ≡ none
    → get runs run.id ≡ none
fresh_of_unseen run runs new unseen = elim (Option-cases (get runs run.id)) [
  | inl absent ↦ absent
  | inr (old, found) ↦ absurd (first-values_of_get runs run.id old _ found (rw found at new) unseen)
]

-- What a caller of reserve_run brings: a new id, an active state, and an event of the run.
pub record IsNewRun (s : Store) (run : Run) (event : ChatEvent) : Type 0 where
  pub fresh : IsNewOrRetry run (get s.runs run.id)
  pub going : active run.state ≡ true
  pub own_event : event.run_id ≡ run.id
  pub numbered : event.sequence ≡ 0

pub reserve_run-IsWf :
    (run : Run) (event : ChatEvent) (s : Store)
    → IsNewRun s run event
    → IsWf s
    → IsWf (reserve_run run event s).1
unfolding reserve_run
reserve_run-IsWf run event s new inv = elim (Option-cases (get s.sessions run.session_id)) [
  | inl absent ↦ rw absent inv
  | inr (x, found) ↦ elim (Bool-cases (string_eq.beq x.user_id run.user_id)) [
    | inr stranger ↦ rw (found, stranger) inv
    | inl own ↦
        elim (Option-cases
          (first (same_request run.session_id run.idempotency_key) (values s.runs))) [
            | inr (before, again) ↦ rw (found, own, again) inv
            | inl unseen ↦ elim (Option-cases x.active_run_id) [
              | inr (busy, taken) ↦ rw (found, own, unseen, taken) inv
              | inl free ↦
                  rw (found, own, unseen, free)
                    (add_run inv run _ event (fresh_of_unseen run s.runs new.fresh unseen) new.going
                      (inv.session_key run.session_id x found)
                      ((string_eq.beq_iff x.user_id run.user_id).0 own) refl
                      (rw (inv.session_key run.session_id x found, found)) new.own_event
                      new.numbered)
            ]
          ]
  ]
]

pub reserve_new-IsWf :
    (x : Session) (run : Run) (event : ChatEvent) (s : Store)
    → get s.runs run.id ≡ none
    → active run.state ≡ true
    → event.run_id ≡ run.id
    → x.id ≡ run.session_id
    → x.user_id ≡ run.user_id
    → IsNewOrOf x.user_id (get s.sessions x.id)
    → IsWf s
    → IsWf (reserve_new x run event s).1
unfolding reserve_new
reserve_new-IsWf x run event s fresh going own_event place user before inv =
    add_run inv run _ (record event { sequence = 0 }) fresh going place user refl before own_event
      refl

-- The references of a new session, its run and its event fit together.
pub references_match-eq :
    (x : Session) (run : Run) (event : ChatEvent)
    → references_match x run event ≡ true
    → (x.user_id ≡ run.user_id) × (x.id ≡ run.session_id) × (event.run_id ≡ run.id)
references_match-eq x run event h = ground (
  arith,
  string_eq.beq_iff x.user_id run.user_id,
  string_eq.beq_iff x.id run.session_id,
  nat_eq.beq_iff event.run_id run.id,
)

-- The branch in which the session is there already.
reserve_found :
    (x y : Session) (run : Run) (event : ChatEvent) (s : Store)
    → IsNewOrRetry run (get s.runs run.id)
    → active run.state ≡ true
    → references_match x run event ≡ true
    → get s.sessions x.id ≡ some y
    → IsWf s
    → IsWf (reserve_initial_run x run event s).1
unfolding reserve_initial_run
reserve_found x y run event s new going fits found inv =
    elim (Bool-cases (string_eq.beq y.user_id x.user_id)) [
      | inr stranger ↦ rw (fits, found, stranger) inv
      | inl same ↦
          elim (Option-cases (first (same_request x.id run.idempotency_key) (values s.runs))) [
            | inr (before, again) ↦ rw (fits, found, same, again) inv
            | inl unseen ↦ elim (Option-cases y.active_run_id) [
              | inr (busy, taken) ↦ rw (fits, found, same, unseen, taken) inv
              | inl free ↦
                  let (user, place, own) = references_match-eq x run event fits in
                  rw (fits, found, same, unseen, free)
                    (reserve_new-IsWf y run event s
                      (fresh_of_unseen run s.runs new (rw place at unseen)) going own
                      (inv.session_key x.id y found ∙ place)
                      ((string_eq.beq_iff y.user_id x.user_id).0 same ∙ user)
                      (rw (inv.session_key x.id y found, found)) inv)
            ]
          ]
    ]

-- Where the session is not there, no run of it is.
fresh_of_absent :
    (x : Session) (run : Run) (s : Store)
    → IsWf s
    → IsNewOrRetry run (get s.runs run.id)
    → x.id ≡ run.session_id
    → get s.sessions x.id ≡ none
    → get s.runs run.id ≡ none
fresh_of_absent x run s inv new place absent = elim (Option-cases (get s.runs run.id)) [
  | inl none_yet ↦ none_yet
  | inr (old, found) ↦
      let retry = rw found at new in
      ground (arith, inv.home run.id old, string_eq.beq_iff old.session_id run.session_id)
]

pub reserve_initial_run-IsWf :
    (x : Session) (run : Run) (event : ChatEvent) (s : Store)
    → IsNewOrRetry run (get s.runs run.id)
    → active run.state ≡ true
    → IsWf s
    → IsWf (reserve_initial_run x run event s).1
unfolding reserve_initial_run
reserve_initial_run-IsWf x run event s new going inv =
    elim (Bool-cases (references_match x run event)) [
      | inr bad ↦ rw bad inv
      | inl fits ↦
          let (user, place, own) = references_match-eq x run event fits in
          elim (Option-cases (get s.sessions x.id)) [
            | inl absent ↦
                rw (fits, absent)
                  (reserve_new-IsWf x run event s (fresh_of_absent x run s inv new place absent)
                    going own place user (rw absent tt) inv)
            | inr (y, found) ↦ reserve_found x y run event s new going fits found inv
          ]
    ]
