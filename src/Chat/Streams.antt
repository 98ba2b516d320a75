-- ===== src/Chat/Streams.antt =====
-- example/chat/service.py: ChatService.stream, as a loop over rounds. A round is what its environment
-- does: what the subscription does where there is none, which events the callback gets before the
-- queue is asked, and what get_run gives where it is asked. The waiting between two rounds is left
-- out. `read_question` is what pydantic makes of a payload.
pub mod Once
pub mod Ended
use Prim.Native.String.{◌++◌ as str_append}
use claudeagentsdk_cloudrun.Prelude.{
  ℕ, ◌-◌, ◌^◌, String, Bool, true, false, not, List, [], ◌∷◌, ◌++◌, Option, none, some, keep,
  if◌then◌else◌,
}
use claudeagentsdk_cloudrun.Errors.{Error}
use claudeagentsdk_cloudrun.Exec.{Result, ok, err}
use claudeagentsdk_cloudrun.Text.Search.{is_in}
use claudeagentsdk_cloudrun.Models.Ids.{str}
use claudeagentsdk_cloudrun.Models.Json.{Fields, end, field, of_option}
use claudeagentsdk_cloudrun.Models.Json
use claudeagentsdk_cloudrun.Models.RunStates.{terminal, value}
use claudeagentsdk_cloudrun.Models.Records.{Time, ChatEvent, Run}
use claudeagentsdk_cloudrun.Models.Questions.{QuestionRequest}
use claudeagentsdk_cloudrun.Chat.Events.{ChatEventKind, CommonChatEvent, normalize_event}

-- subscribe_from_cursor, with the events that it hands over before it returns or raises: it registers,
-- it raises one of the three errors that are tried again, or another one.
pub data Subscription : Type 0 where
  registered lost : List ChatEvent → Subscription
  refused : List ChatEvent → Error → Subscription

pub record Round : Type 0 where
  pub subscription : Subscription
  pub arrivals : List ChatEvent
  pub run : Result Run

pub record Feed : Type 0 where
  pub subscribed : Bool
  pub queue : List ChatEvent
  pub seen : List String
  pub last_cursor : Option String
  pub final_seen : Bool

-- Whether the loop goes on; where it returns, the terminal event that it makes and yields, if any.
pub data Next : Type 0 where
  goes_on : Feed → Next
  returns : List CommonChatEvent → Next
  raises : Error → Next

-- receive, for each of the events
abbrev pub received : List ChatEvent → Feed → Feed
received events self = record self {
  queue = self.queue ++ keep (λ event. not (is_in self.seen event.id)) events;
}

module _ (read_question : Fields → Option QuestionRequest) (now : Time) where
  unfoldable pub terminal_event : Run → CommonChatEvent
  unfolding normalize_event
  terminal_event run = normalize_event read_question (record {
    id = str_append "terminal:" (str_append (str run.id) (str_append ":" (value run.state)));
    run_id = run.id;
    sequence = 2 ^ 63 - 1;
    type = "terminal";
    occurred_at = now;
    payload = field "state" (Json.str (value run.state)) (
        field "error_code" (of_option Json.str run.error_code)
          (field "result" (of_option Json.str run.result) end));
  })

  -- The queue stayed empty.
  abbrev pub empty_turn : Feed → Result Run → List CommonChatEvent × Next
  empty_turn self (err e) = ([], raises e)
  empty_turn self (ok run) =
      if terminal run.state
      then ([], returns (if self.final_seen then [] else terminal_event run ∷ []))
      else ([], goes_on (record self { subscribed = false }))

  abbrev pub final_turn : Feed → Result Run → Next
  final_turn self (err e) = raises e
  final_turn self (ok run) = if terminal run.state then returns [] else goes_on self

  abbrev pub after_event : ChatEventKind → Feed → Result Run → Next
  after_event ChatEventKind.final self run = final_turn (record self { final_seen = true }) run
  after_event ChatEventKind.terminal self run = returns []
  after_event kind self run = goes_on self

  abbrev pub event_turn :
      Feed → ChatEvent → List ChatEvent → Result Run → List CommonChatEvent × Next
  event_turn self event rest run =
      let normalized = normalize_event read_question event in
      let next = record self {
        queue = rest;
        seen = event.id ∷ self.seen;
        last_cursor = some event.id;
      } in
      if is_in self.seen event.id
      then ([], goes_on (record self { queue = rest }))
      else (normalized ∷ [], after_event normalized.kind next run)

  abbrev pub queue_turn : Feed → List ChatEvent → Result Run → List CommonChatEvent × Next
  queue_turn self [] run = empty_turn self run
  queue_turn self (event ∷ rest) run = event_turn self event rest run

  abbrev pub subscribed_turn : Feed → Round → List CommonChatEvent × Next
  subscribed_turn self round =
      let filled = received round.arrivals self in queue_turn filled filled.queue round.run

  abbrev pub subscribing_turn : Feed → Subscription → Round → List CommonChatEvent × Next
  subscribing_turn self (registered events) round =
      subscribed_turn (record (received events self) { subscribed = true }) round
  subscribing_turn self (lost events) round = ([], goes_on (received events self))
  subscribing_turn self (refused events e) round = ([], raises e)

  -- One pass of the loop: what it yields, and whether it goes on.
  unfoldable pub turn : Feed → Round → List CommonChatEvent × Next
  unfolding normalize_event terminal_event
  turn self round =
      if self.subscribed
      then subscribed_turn self round
      else subscribing_turn self round.subscription round

  unfoldable pub stream : List Round → Next → List CommonChatEvent × Next
  unfolding turn
  stream [] next = ([], next)
  stream (round ∷ rounds) (goes_on self) =
      let (events, next) = turn self round in
      let (later, last) = stream rounds next in (events ++ later, last)
  stream (round ∷ rounds) (returns closing) = ([], returns closing)
  stream (round ∷ rounds) (raises e) = ([], raises e)

-- The loop before its first round.
abbrev pub new_feed : Feed
new_feed = record {
  subscribed = false;
  queue = [];
  seen = [];
  last_cursor = none;
  final_seen = false;
}
