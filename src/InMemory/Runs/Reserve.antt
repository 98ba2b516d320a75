-- ===== src/InMemory/Runs/Reserve.antt =====
-- InMemoryChatStore: reserve_initial_run and reserve_run.
use claudeagentsdk_cloudrun.Prelude.{
  String, Bool, ◌&&◌, [], ◌∷◌, Option, none, some, nat_eq, string_eq, first,
}
use claudeagentsdk_cloudrun.Errors.{
  error, value_error, session_not_found, session_ownership, active_run_conflict,
}
use claudeagentsdk_cloudrun.Exec.{Exec, pure, raise, gets, modify, guard, require, ◌>>=◌, ◌>>◌}
use claudeagentsdk_cloudrun.Dict.{get, put, values}
use claudeagentsdk_cloudrun.Models.RunStates.{value}
use claudeagentsdk_cloudrun.Models.Ids.{str}
use claudeagentsdk_cloudrun.Models.Records.{Uuid, Session, Run, ChatEvent, InitialSessionResult}
use claudeagentsdk_cloudrun.InMemory.State.{Store}
use claudeagentsdk_cloudrun.InMemory.Sessions.{owned_session}

abbrev pub references_match : Session → Run → ChatEvent → Bool
references_match session run event =
    string_eq.beq session.user_id run.user_id
    && string_eq.beq session.id run.session_id
    && string_eq.beq session.workspace_id run.workspace_id
    && nat_eq.beq event.run_id run.id

-- The runs of a session that the same request made before.
abbrev pub same_request : String → String → Run → Bool
same_request session_id idempotency_key candidate =
    string_eq.beq candidate.session_id session_id
    && string_eq.beq candidate.idempotency_key idempotency_key

-- The three writes of reserve_initial_run.
unfoldable pub reserve_new : Session → Run → ChatEvent → Exec Store InitialSessionResult
reserve_new session run event = do
  let reserved = record session {
    active_run_id = some run.id;
    latest_run_state = some (value run.state);
  }
  modify (λ s. record s {
    sessions = put s.sessions session.id reserved;
    runs = put s.runs run.id run;
    events = put s.events run.id ((event.id, record event { sequence = 0 }) ∷ []);
  })
  pure (record { session = reserved; run = run })

unfoldable pub reserve_existing :
    Session → Run → ChatEvent → Option Run → Option Uuid → Exec Store InitialSessionResult
unfolding reserve_new
reserve_existing existing run event (some before) active =
    pure (record { session = existing; run = before })
reserve_existing existing run event none (some active) =
    raise (error active_run_conflict (str active))
reserve_existing existing run event none none = reserve_new existing run event

unfoldable pub reserve_initial_in :
    Option Session → Session → Run → ChatEvent → Exec Store InitialSessionResult
unfolding reserve_existing reserve_new
reserve_initial_in none session run event = reserve_new session run event
reserve_initial_in (some existing) session run event = do
  guard (string_eq.beq existing.user_id session.user_id) (error session_ownership session.id)
  before ← gets (λ s. first (same_request session.id run.idempotency_key) (values s.runs))
  reserve_existing existing run event before existing.active_run_id

unfoldable pub reserve_initial_run : Session → Run → ChatEvent → Exec Store InitialSessionResult
unfolding reserve_initial_in
reserve_initial_run session run event = do
  guard (references_match session run event)
      (error value_error "initial session, run, and event references do not match")
  found ← gets (λ s. get s.sessions session.id)
  reserve_initial_in found session run event

unfoldable pub reserve_in : Session → Run → ChatEvent → Option Run → Option Uuid → Exec Store Run
reserve_in session run event (some existing) active = pure existing
reserve_in session run event none (some active) = raise (error active_run_conflict (str active))
reserve_in session run event none none = do
  modify (λ s. record s {
    runs = put s.runs run.id run;
    events = put s.events run.id ((event.id, event) ∷ []);
    sessions = put s.sessions session.id (record session {
      active_run_id = some run.id;
      latest_run_state = some (value run.state);
      updated_at = s.clock;
    });
  })
  pure run

unfoldable pub reserve_run : Run → ChatEvent → Exec Store Run
unfolding reserve_in
reserve_run run event = do
  found ← gets (λ s. get s.sessions run.session_id)
  session ← require (owned_session run.user_id found) (error session_not_found run.session_id)
  existing ← gets (λ s. first (same_request run.session_id run.idempotency_key) (values s.runs))
  reserve_in session run event existing session.active_run_id
