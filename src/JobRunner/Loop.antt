-- ===== src/JobRunner/Loop.antt =====
-- JobRunner.persist_events. The environment of the loop is a list of rounds: what the clock and
-- the shutdown flag show at its head, what others do to the store while it waits, and what the
-- agent's stream does: to __anext__, to the cancellation of it, and to aclose. Where the list ends the
-- loop still waits.
pub mod Ends
use claudeagentsdk_cloudrun.Prelude.{
  ℕ, ◌+◌, ◌-◌, ◌≤◌, String, Bool, true, false, not, ◌&&◌, ◌||◌, List, [], ◌∷◌, Option, none, some,
  Eq, string_eq, ltb, leb, min, any, if◌then◌else◌,
}
use claudeagentsdk_cloudrun.Errors.{ErrorClass, Error, error, agent_error, key_error}
use claudeagentsdk_cloudrun.Exec.{
  Exec, Result, ok, err, pure, raise, gets, modify, guard, attempt, on_left, on_right, ◌>>=◌, ◌>>◌,
}
use claudeagentsdk_cloudrun.Models.RunStates.{RunState, state_eq}
use claudeagentsdk_cloudrun.Models.Json
use claudeagentsdk_cloudrun.Models.Json.{Fields}
use claudeagentsdk_cloudrun.Models.Records.{Uuid, Time, ChatEvent, Run}
use claudeagentsdk_cloudrun.Models.Questions.{QuestionRequest, question_pending}
use claudeagentsdk_cloudrun.Ports.{ChatStore}
use claudeagentsdk_cloudrun.JobRunner.{JobInvocation, Runner, claim}

-- In microseconds, both positive.
pub record ExecutionLimits : Type 0 where
  pub max_runtime : ℕ
  pub idle_timeout : ℕ

-- event.get("payload", {})
pub data Payload : Type 0 where
  absent : Payload
  object : Fields → Payload
  other : Payload

-- A normalized event; `none` where the value is missing or no text.
pub record AgentEvent : Type 0 where
  pub event_id : Option String
  pub event_type : Option String
  pub payload : Payload
  pub claude_session_id : Option String

-- What `asyncio.wait_for` gives or raises; `timed_out` also where the stream raises TimeoutError.
pub data Waited : Type 0 where
  got : AgentEvent → Waited
  ended timed_out : Waited
  failed : Error → Waited

-- What the stream does: its answer with its delay (`none`: it never answers), and what comes of a
-- cancellation, `timed_out` where the stream takes it and `none` where it hangs.
pub record Arrival : Type 0 where
  pub answer : Option (ℕ × Waited)
  pub when_cancelled : Option Waited

-- `closing` is what aclose does, where the stream has one: `none` where it hangs.
pub record Round (S : Type 0) : Type 0 where
  pub shutdown : Bool
  pub elapsed : ℕ
  pub others : S → S
  pub arrival : Arrival
  pub closing : Option (Result (Unit {0}))
  pub now : Time

abbrev late : ℕ → Option ℕ → Bool
late delay none = false
late delay (some timeout) = ltb timeout delay

-- `none`: it waits for ever.
abbrev pub answer_in_time : Option (ℕ × Waited) → Option Waited → Option ℕ → Option Waited
answer_in_time none when_cancelled none = none
answer_in_time none when_cancelled (some timeout) = when_cancelled
answer_in_time (some (delay, answer)) when_cancelled timeout =
    if late delay timeout then when_cancelled else some answer

unfoldable pub wait_for : Arrival → Option ℕ → Option Waited
wait_for arrival timeout = answer_in_time arrival.answer arrival.when_cancelled timeout

-- min(idle_timeout, 10.0) where a question waits, and never past the run's end
unfoldable pub timeout_of : Option ExecutionLimits → ℕ → Bool → Option ℕ
timeout_of none elapsed pending_question = none
timeout_of (some limits) elapsed pending_question = some (
    min (if pending_question then min limits.idle_timeout 10_000_000 else limits.idle_timeout)
      (limits.max_runtime - elapsed))

-- limits is not None and max_runtime - elapsed <= 0
abbrev pub run_out : Option ExecutionLimits → ℕ → Bool
run_out none elapsed = false
run_out (some limits) elapsed = leb limits.max_runtime elapsed

abbrev is_limited : Option ExecutionLimits → Bool
is_limited none = false
is_limited (some limits) = true

-- What a round comes to.
pub data Turn : Type 0 where
  waiting again : Turn
  done : RunState → Turn

abbrev is_key_error : ErrorClass → Bool
is_key_error key_error = true
is_key_error _ = false

abbrev pub to_fields : Payload → Option Fields
to_fields absent = some Json.end
to_fields (object fs) = some fs
to_fields other = none

-- A new transcript id, where it is a text that is not empty.
abbrev pub session_id_after : Option String → Option String → Option String
session_id_after before (some id) = if string_eq.beq id "" then before else some id
session_id_after before none = before

module _ {S : Type 0} (store : ChatStore S) (invocation : JobInvocation) where
  open invocation use {run_id, execution_identity}

  -- except (AttributeError, KeyError): pending_question = False
  abbrev pub pending_or_raise : Result (List QuestionRequest) → Exec (S × Runner) Bool
  pending_or_raise (ok questions) = pure (any question_pending questions)
  pending_or_raise (err e) = if is_key_error e.kind then pure false else raise e

  abbrev checked_event : Option String → Option String → Exec (S × Runner) (String × String)
  checked_event (some id) (some type) = pure (id, type)
  checked_event _ _ = raise (error agent_error "agent emitted an invalid normalized event")

  abbrev checked_payload : Option Fields → Exec (S × Runner) Fields
  checked_payload (some fs) = pure fs
  checked_payload none = raise (error agent_error "agent event payload must be an object")

  abbrev new_event : String → String → Time → Fields → ChatEvent
  new_event id type now fs = record {
    id = id;
    run_id = run_id;
    sequence = 0;
    type = type;
    occurred_at = now;
    payload = fs;
  }

  unfoldable pub persist : Time → AgentEvent → Exec (S × Runner) Turn
  persist now e = do
    latest ← on_left (store.get_run_for_job run_id)
    if state_eq.beq latest.state RunState.cancel_requested
        then pure (done RunState.cancelled)
        else (do
          beating ← on_left (store.heartbeat_run run_id execution_identity)
          if not beating then pure (done RunState.failed) else do
            modify (λ p. (
              p.0,
              record {
                shutdown_requested = p.1.shutdown_requested;
                claude_session_id = session_id_after p.1.claude_session_id e.claude_session_id;
              },
            ))
            named ← checked_event e.event_id e.event_type
            fs ← checked_payload (to_fields e.payload)
            on_left (store.append_event (new_event named.0 named.1 now fs))
            pure again)

  -- await self._stop_iterator(iterator), and the state that is returned then
  unfoldable pub stop_iterator : Option (Result (Unit {0})) → RunState → Exec (S × Runner) Turn
  stop_iterator none state = pure waiting
  stop_iterator (some (err e)) state = raise e
  stop_iterator (some (ok closed)) state = pure (done state)

  unfoldable pub after_wait :
      Round S → Option ExecutionLimits → Bool → Option Waited → Exec (S × Runner) Turn
  unfolding persist
  after_wait round limits pending_question none = pure waiting
  after_wait round limits pending_question (some ended) = pure (done RunState.running)
  after_wait round limits pending_question (some (failed e)) = raise e
  after_wait round limits pending_question (some (got e)) = persist round.now e
  after_wait round limits pending_question (some timed_out) =
      if pending_question && is_limited limits
      then (do
        beating ← on_left (store.heartbeat_run run_id execution_identity)
        pure (if beating then again else done RunState.failed))
      else stop_iterator round.closing RunState.timed_out

  -- One turn of `while True`.
  unfoldable pub turn : Option ExecutionLimits → Round S → Exec (S × Runner) Turn
  unfolding after_wait wait_for timeout_of
  turn limits round = do
    modify (λ p. (
      p.0,
      record {
        shutdown_requested = p.1.shutdown_requested || round.shutdown;
        claude_session_id = p.1.claude_session_id;
      },
    ))
    runner ← gets (λ p. p.1)
    if runner.shutdown_requested
        then stop_iterator round.closing RunState.cancelled
        else if run_out limits round.elapsed
        then stop_iterator round.closing RunState.timed_out
        else (do
          questions ← attempt (on_left (store.list_questions_for_job run_id))
          pending_question ← pending_or_raise questions
          modify (λ p. (round.others p.0, p.1))
          after_wait round limits pending_question
              (wait_for round.arrival (timeout_of limits round.elapsed pending_question)))

  -- `none` where the rounds ended and the loop still runs.
  abbrev pub after_turn :
      (S × Runner → Option (Result RunState × (S × Runner)))
      → Result Turn × (S × Runner)
      → Option (Result RunState × (S × Runner))
  after_turn next (err e, p) = some (err e, p)
  after_turn next (ok waiting, p) = none
  after_turn next (ok again, p) = next p
  after_turn next (ok (done state), p) = some (ok state, p)

  unfoldable pub loop :
      Option ExecutionLimits → List (Round S) → S × Runner → Option (Result RunState × (S × Runner))
  unfolding turn
  loop limits [] p = none
  loop limits (round ∷ rounds) p = after_turn (loop limits rounds) (turn limits round p)

  abbrev start_loop :
      Option ExecutionLimits
      → List (Round S)
      → Result (Option Run) × (S × Runner)
      → Option (Result RunState × (S × Runner))
  start_loop limits rounds (err e, p) = some (err e, p)
  start_loop limits rounds (ok none, p) = some (ok RunState.cancelled, p)
  start_loop limits rounds (ok (some run), p) = loop limits rounds p

  abbrev claimed_or_claim : Option Run → Exec (S × Runner) (Option Run)
  claimed_or_claim (some run) = pure (some run)
  claimed_or_claim none = on_left (claim store invocation)

  unfoldable pub persist_events :
      Option Run
      → Option ExecutionLimits
      → List (Round S)
      → S × Runner
      → Option (Result RunState × (S × Runner))
  unfolding loop claim
  persist_events claimed_run limits rounds p =
      start_loop limits rounds (claimed_or_claim claimed_run p)
