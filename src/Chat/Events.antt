-- ===== src/Chat/Events.antt =====
-- example/chat/events.py: an event as the frontends show it. What pydantic makes of a payload as a
-- question is the parameter `read_question`. The costs and durations that processing_metadata reads
-- from a payload again are left out.
use Prim.Native.String.{◌++◌ as str_append}
use claudeagentsdk_cloudrun.Prelude.{
  ℕ, ◌+◌, String, Bool, true, false, not, ◌&&◌, ◌||◌, List, [], ◌∷◌, ◌++◌, Option, none, some, map,
  string_eq, nat_beq, if◌then◌else◌,
}
use claudeagentsdk_cloudrun.Prelude.Sorting.{sort}
use claudeagentsdk_cloudrun.Text.{is_empty, decimal}
use claudeagentsdk_cloudrun.Dict.{Dict}
use claudeagentsdk_cloudrun.Dict
use claudeagentsdk_cloudrun.Models.Json.{
  Json, Items, Fields, null, bool, num, str, arr, obj, nil, cons, end, field, get, text_of,
}
use claudeagentsdk_cloudrun.Models.Records.{Uuid, ChatEvent}
use claudeagentsdk_cloudrun.Models.Questions.{QuestionRequest}
use claudeagentsdk_cloudrun.InMemory.Events.{event_lt}

pub data ChatEventKind : Type 0 where
  user agent tool_started tool_completed progress final error terminal question_pending
        question_answered unknown :
      ChatEventKind

pub record CommonChatEvent : Type 0 where
  pub id : String
  pub run_id : Uuid
  pub sequence : ℕ
  pub kind : ChatEventKind
  pub raw_type : String
  pub payload : Fields
  pub content : Option String
  pub question : Option QuestionRequest

abbrev kinds : Dict String ChatEventKind
kinds =
    ("user", ChatEventKind.user)
    ∷ ("agent", ChatEventKind.agent)
    ∷ ("tool_started", ChatEventKind.tool_started)
    ∷ ("tool_completed", ChatEventKind.tool_completed)
    ∷ ("progress", ChatEventKind.progress)
    ∷ ("final", ChatEventKind.final)
    ∷ ("error", ChatEventKind.error)
    ∷ ("terminal", ChatEventKind.terminal)
    ∷ ("question_pending", ChatEventKind.question_pending)
    ∷ ("question_answered", ChatEventKind.question_answered)
    ∷ ("unknown", ChatEventKind.unknown)
    ∷ []

unfoldable pub kind_of : String → ChatEventKind
kind_of event_type = elim (Dict.get kinds event_type) [
  | none ↦ ChatEventKind.unknown
  | some kind ↦ kind
]

-- The first text under one of the keys.
unfoldable pub first_text : List String → Fields → Option String
first_text [] payload = none
first_text (key ∷ keys) payload = elim (text_of (get payload key)) [
  | some s ↦ some s
  | none ↦ first_text keys payload
]

-- The text that stands under the event's own key.
unfoldable pub own_text : String → Fields → Option String
own_text event_type payload =
    if string_eq.beq event_type "agent" || string_eq.beq event_type "user"
    then text_of (get payload "content")
    else if string_eq.beq event_type "final"
    then text_of (get payload "output")
    else none

unfoldable pub content_of : String → Fields → Option String
unfolding own_text first_text
content_of event_type payload = elim (own_text event_type payload) [
  | some s ↦ some s
  | none ↦ first_text ("description" ∷ "message" ∷ "output" ∷ "content" ∷ []) payload
]

abbrev pub is_question : String → Bool
is_question event_type =
    string_eq.beq event_type "question_pending" || string_eq.beq event_type "question_answered"

module _ (read_question : Fields → Option QuestionRequest) where
  unfoldable pub normalize_event : ChatEvent → CommonChatEvent
  unfolding kind_of content_of
  normalize_event event = record {
    id = event.id;
    run_id = event.run_id;
    sequence = event.sequence;
    kind = kind_of event.type;
    raw_type = event.type;
    payload = event.payload;
    content = content_of event.type event.payload;
    question = if is_question event.type then read_question event.payload else none;
  }

-- value.get(key, default)
abbrev pub or_default : Option Json → Json → Json
or_default none value = value
or_default (some v) value = v

abbrev pub has_key : Fields → String → Bool
has_key fs key = elim (get fs key) [ none ↦ false | some v ↦ true ]

-- bool(value)
unfoldable pub truth : Json → Bool
truth null = false
truth (bool b) = b
truth (num n) = not (nat_beq n 0)
truth (str s) = not (is_empty s)
truth (Json.time t) = true
truth (arr nil) = false
truth (arr (cons v vs)) = true
truth (obj end) = false
truth (obj (field k v fs)) = true

numbered : String → String → ℕ → String
unfolding decimal
numbered id kind index = str_append id (str_append kind (decimal index))

-- The event that one block of a list of contents stands for.
unfoldable pub convert_block : ChatEvent → ℕ → Json → List ChatEvent
unfolding numbered truth
convert_block event index (obj block) =
    if has_key block "tool_use_id"
    then record event {
      id = numbered event.id ":tool-result:" index;
      type = "tool_completed";
      payload = field "tool_id" (or_default (get block "tool_use_id") (str "")) (
          field "content" (or_default (get block "content") null)
            (field "is_error" (bool (truth (or_default (get block "is_error") (bool false)))) end));
    }
      ∷ []
    else if has_key block "name" && has_key block "input"
    then record event {
      id = numbered event.id ":tool-use:" index;
      type = "tool_started";
      payload = field "tool_id" (or_default (get block "id") (str "")) (
          field "name" (or_default (get block "name") (str "ツール"))
            (field "input" (or_default (get block "input") (obj end)) end));
    }
      ∷ []
    else []
convert_block event index block = []

unfoldable pub convert_blocks : ChatEvent → ℕ → Items → List ChatEvent
unfolding convert_block
convert_blocks event index nil = []
convert_blocks event index (cons block blocks) =
    convert_block event index block ++ convert_blocks event (index + 1) blocks

-- converted or [event]
abbrev or_itself : List ChatEvent → ChatEvent → List ChatEvent
or_itself [] event = event ∷ []
or_itself (e ∷ es) event = e ∷ es

abbrev legacy_content : ChatEvent → Option Json → List ChatEvent
legacy_content event (some (arr blocks)) =
    if string_eq.beq event.type "user"
    then or_itself (convert_blocks event 0 blocks) event
    else event ∷ []
legacy_content event content = event ∷ []

unfoldable pub legacy_tool_events : ChatEvent → List ChatEvent
unfolding convert_blocks
legacy_tool_events event = legacy_content event (get event.payload "content")

abbrev expanded : List ChatEvent → List ChatEvent
expanded [] = []
expanded (event ∷ events) = legacy_tool_events event ++ expanded events

unfoldable pub normalize_events :
    (Fields → Option QuestionRequest) → List ChatEvent → List CommonChatEvent
unfolding legacy_tool_events sort normalize_event
normalize_events read_question events =
    map (normalize_event read_question) (sort event_lt (expanded events))
