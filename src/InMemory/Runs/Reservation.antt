-- ===== src/InMemory/Runs/Reservation.antt =====
-- Reserving a run: once for a request, and one at a time for a session.
use claudeagentsdk_cloudrun.Prelude.{
  String, ◌≡◌, ◌∙◌, ap, inl, inr, ◌⊎◌, true, [], ◌∷◌, Option, none, some, Option-cases, Bool-cases,
  arith, nat_eq, string_eq, first, beq_refl,
}
use claudeagentsdk_cloudrun.Exec.{ok}
use claudeagentsdk_cloudrun.Dict.{get, put, values, get-put_self}
use claudeagentsdk_cloudrun.Dict.Entries.{first-values-put}
use claudeagentsdk_cloudrun.Models.RunStates.{value}
use claudeagentsdk_cloudrun.Models.Records.{Session, Run, ChatEvent}
use claudeagentsdk_cloudrun.InMemory.State.{Store}
use claudeagentsdk_cloudrun.InMemory.Runs.Reserve.{reserve_run, same_request}
use claudeagentsdk_cloudrun.InMemory.Invariant.{IsWf}
use claudeagentsdk_cloudrun.InMemory.Invariant.Growth.{IsNewOrRetry, fresh_of_unseen}

-- The run that a request made before, if it did.
abbrev pub earlier : Run → Store → Option Run
earlier run s = first (same_request run.session_id run.idempotency_key) (values s.runs)

-- The session that a run names is there and its user's.
abbrev pub IsOwned : String → Option Session → Type 0
IsOwned user_id none = ⊥
IsOwned user_id (some x) = x.user_id ≡ user_id

pub reserve_known :
    (run a : Run) (event : ChatEvent) (s : Store)
    → IsOwned run.user_id (get s.sessions run.session_id)
    → earlier run s ≡ some a
    → reserve_run run event s ≡ (ok a, s)
unfolding reserve_run
reserve_known run a event s owned again = elim (Option-cases (get s.sessions run.session_id)) [
  | inl absent ↦ absurd (rw absent at owned)
  | inr (x, found) ↦
      rw (found, (string_eq.beq_iff x.user_id run.user_id).1 (rw found at owned), again)
]

own_request : (run : Run) → same_request run.session_id run.idempotency_key run ≡ true
own_request run = rw (beq_refl run.session_id, beq_refl run.idempotency_key)

-- After a call that returned, the session is there and the request is known.
pub record IsReserved (run a : Run) (t : Store) : Type 0 where
  pub owned : IsOwned run.user_id (get t.sessions run.session_id)
  pub known : earlier run t ≡ some a

reserve_run-IsReserved :
    (run a : Run) (event : ChatEvent) (s : Store)
    → IsWf s
    → IsNewOrRetry run (get s.runs run.id)
    → (reserve_run run event s).0 ≡ ok a
    → IsReserved run a (reserve_run run event s).1
unfolding reserve_run
reserve_run-IsReserved run a event s inv new done =
    elim (Option-cases (get s.sessions run.session_id)) [
      | inl absent ↦ cc (rw absent at done)
      | inr (x, found) ↦ elim (Bool-cases (string_eq.beq x.user_id run.user_id)) [
        | inr stranger ↦ cc (rw (found, stranger) at done)
        | inl own ↦
            let user = (string_eq.beq_iff x.user_id run.user_id).0 own in
            elim (Option-cases (earlier run s)) [
              | inr (before, again) ↦
                  rw (found, own, again)
                    (record {
                      owned = rw found user;
                      known = again ∙ ground (arith, rw (found, own, again) at done);
                    })
              | inl unseen ↦ elim (Option-cases x.active_run_id) [
                | inr (busy, taken) ↦ cc (rw (found, own, unseen, taken) at done)
                | inl free ↦
                    let place = inv.session_key run.session_id x found in
                    rw (found, own, unseen, free, place)
                      (record {
                        owned = rw get-put_self user;
                        known =
                            first-values-put s.runs run.id run _
                              (fresh_of_unseen run s.runs new unseen) unseen (own_request run)
                            ∙ ground (arith, rw (found, own, unseen, free) at done);
                      })
              ]
            ]
      ]
    ]

-- Where a run was reserved in a well-formed store, under an id that was new or its request's own, a
-- second call with the same user, session and idempotency key, whatever its run's id and its event,
-- gives the same run and leaves the store as it was.
pub reserve_run-retry :
    (run run' a : Run) (event event' : ChatEvent) (s : Store)
    → IsWf s
    → IsNewOrRetry run (get s.runs run.id)
    → (reserve_run run event s).0 ≡ ok a
    → run'.user_id ≡ run.user_id
    → run'.session_id ≡ run.session_id
    → run'.idempotency_key ≡ run.idempotency_key
    → reserve_run run' event' (reserve_run run event s).1 ≡ (ok a, (reserve_run run event s).1)
reserve_run-retry run run' a event event' s inv new done user place key =
    let r = reserve_run-IsReserved run a event s inv new done in
    reserve_known run' a event' _ (rw (user, place) r.owned) (rw (place, key) r.known)

-- The run was written, active, into the slot of its session, with its event for a log.
pub record IsInSlot (run : Run) (event : ChatEvent) (s t : Store) : Type 0 where
  pub session : Session
  pub found : get s.sessions run.session_id ≡ some session
  pub owned : session.user_id ≡ run.user_id
  pub free : session.active_run_id ≡ none
  pub unseen : earlier run s ≡ none
  pub runs : t.runs ≡ put s.runs run.id run
  pub events : t.events ≡ put s.events run.id ((event.id, event) ∷ [])
  pub sessions :
      t.sessions
      ≡ put s.sessions run.session_id (record session {
        active_run_id = some run.id;
        latest_run_state = some (value run.state);
        updated_at = s.clock;
      })

-- What a call does to a well-formed store: nothing, or, where the session is there and its user's, its slot
-- free and the request not seen before, the run is written, the slot of the session names it, and
-- its log is its first event.
pub reserve_run_effect :
    (run : Run) (event : ChatEvent) (s t : Store)
    → IsWf s
    → t ≡ (reserve_run run event s).1
    → (t ≡ s) ⊎ IsInSlot run event s t
unfolding reserve_run
reserve_run_effect run event s t inv e = elim (Option-cases (get s.sessions run.session_id)) [
  | inl absent ↦ inl (rw e (rw absent))
  | inr (x, found) ↦ elim (Bool-cases (string_eq.beq x.user_id run.user_id)) [
    | inr stranger ↦ inl (rw e (rw (found, stranger)))
    | inl own ↦ elim (Option-cases (earlier run s)) [
      | inr (before, again) ↦ inl (rw e (rw (found, own, again)))
      | inl unseen ↦ elim (Option-cases x.active_run_id) [
        | inr (busy, taken) ↦ inl (rw e (rw (found, own, unseen, taken)))
        | inl free ↦
            let same = rw (found, own, unseen, free) at e in
            inr (record {
              session = x;
              found = found;
              owned = (string_eq.beq_iff x.user_id run.user_id).0 own;
              free = free;
              unseen = unseen;
              runs = ap (λ (u : Store). u.runs) same;
              events = ap (λ (u : Store). u.events) same;
              sessions =
                  rw (← inv.session_key run.session_id x found)
                    (ap (λ (u : Store). u.sessions) same);
            })
      ]
    ]
  ]
]
