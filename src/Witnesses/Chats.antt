-- ===== src/Witnesses/Chats.antt =====
-- What a frontend shows of a log: two questions, one of them answered, and a task.
use claudeagentsdk_cloudrun.Prelude.{
  string_eq, arith, ℕ, String, ◌≡◌, ◌↔◌, refl, true, false, List, [], ◌∷◌, Option, none, some, All,
  ◌≢◌, ◌⊎◌, not, ◌&&◌, if◌then◌else◌,
}
use claudeagentsdk_cloudrun.Prelude.Members.{In}
use claudeagentsdk_cloudrun.Prelude.Sorting.{sort, insort, IsSorted}
use claudeagentsdk_cloudrun.Exec.{ok}
use claudeagentsdk_cloudrun.Text.{strip, lstrip, rstrip, is_space}
use claudeagentsdk_cloudrun.Dict.{put, get, remove}
use claudeagentsdk_cloudrun.Dict.Distinct.{IsDistinct}
use claudeagentsdk_cloudrun.Models.Json.{Json, Fields, Items, arr, end, field}
use claudeagentsdk_cloudrun.Models.Json
use claudeagentsdk_cloudrun.Models.Questions.{QuestionRequest}
use claudeagentsdk_cloudrun.Models.Questions.Batches.{by_ordinal}
use claudeagentsdk_cloudrun.Chat.Events.{CommonChatEvent, kind_of, truth}
use claudeagentsdk_cloudrun.Chat.Tasks.{
  TaskState, task_state, task_id_of, id_under, merge, put_field,
}
use claudeagentsdk_cloudrun.Chat.Tasks.Updates.{updates_of}
use claudeagentsdk_cloudrun.Chat.Interactions.{
  Board, tool_of, text_at, tool_completed, listed, raw_of, InteractionState, common_lt,
  interaction_state, open_questions, reduce_tasks, replay_all, replay, tool_started, task_list,
}
use claudeagentsdk_cloudrun.Chat.Interactions.Open.{interaction_state-questions}
use claudeagentsdk_cloudrun.Chat.Interactions.Open.Log.{IsOpen}
use claudeagentsdk_cloudrun.Chat.Interactions.Listed.{interaction_state-tasks, IsCalm}
use claudeagentsdk_cloudrun.Chat.Interactions.Listed.Tools.{IsAlive}
use claudeagentsdk_cloudrun.Chat.Interactions.Completed.{
  tool_completed_lem, result_of, made_of, source_of, IsListed,
}
use claudeagentsdk_cloudrun.Chat.Streams.{
  Feed, Round, new_feed, registered, goes_on, returns, stream,
}
use claudeagentsdk_cloudrun.Chat.Streams.Once.{IsFresh, stream-IsFresh}
use claudeagentsdk_cloudrun.Chat.Streams.Ended.{IsOver, stream_ends}
use claudeagentsdk_cloudrun.Witnesses.Data.{question_at, event_named, run_7, done_7}

abbrev no_json : String → Option Json
no_json s = none

abbrev no_repr : Json → String
no_repr v = ""

abbrev shown_event : ℕ → String → Fields → Option QuestionRequest → CommonChatEvent
shown_event sequence type payload question = record {
  id = "e";
  run_id = 7;
  sequence = sequence;
  kind = kind_of type;
  raw_type = type;
  payload = payload;
  content = none;
  question = question;
}

abbrev first_id : QuestionRequest
first_id = record (question_at 1) { id = "first" }

abbrev second_id : QuestionRequest
second_id = record (question_at 2) { id = "second" }

abbrev task_fields : Fields
task_fields = field "id" (Json.str "1") (field "subject" (Json.str "Test") end)

abbrev log : List CommonChatEvent
log =
    shown_event 3 "question_answered" end (some second_id)
    ∷ shown_event 0 "tool_started"
        (field "tool_id" (Json.str "t")
          (field "name" (Json.str "TaskCreate") (field "input" (Json.obj task_fields) end)))
        none
    ∷ shown_event 2 "question_pending" end (some second_id)
    ∷ shown_event 1 "question_pending" end (some first_id)
    ∷ []

abbrev task : TaskState
task = record {
  task_id = "1";
  subject = "Test";
  description = "";
  status = "pending";
  blocked_by = [];
  owner = none;
  deleted = false;
  raw = task_fields;
}

abbrev shown : InteractionState
shown = record {
  pending_questions = first_id ∷ [];
  tasks = ("1", task) ∷ [];
  task_order = "1" ∷ [];
}

log-shown : interaction_state no_json no_repr log ≡ ok shown
unfolding interaction_state sort insort open_questions reduce_tasks replay_all replay tool_started
    updates_of task_state task_id_of id_under merge put_field truth strip lstrip rstrip is_space put
    get remove Json.get
log-shown = refl

interaction_state-questions_example :
    IsSorted by_ordinal (first_id ∷ [])
    × ((q : QuestionRequest) → In q (first_id ∷ []) ↔ IsOpen q (sort common_lt log))
interaction_state-questions_example =
    interaction_state-questions no_json no_repr log shown log-shown

log-IsCalm : All (IsCalm no_json no_repr) log
unfolding updates_of task_state task_id_of id_under merge put_field truth strip lstrip rstrip
    is_space Json.get
log-IsCalm = (λ h. cc, (λ h creates fs t input brings. cc, (λ h. cc, (λ h. cc, tt))))

interaction_state-tasks_example :
    (task_list shown ≡ task ∷ []) × IsDistinct shown.tasks × All IsAlive shown.tasks
interaction_state-tasks_example =
    interaction_state-tasks no_json no_repr log shown log-IsCalm log-shown

-- An update that deletes the task.
abbrev deleting : Fields
deleting = field "id" (Json.str "1") (field "status" (Json.str "deleted") end)

abbrev shown_board : Board
shown_board = record {
  tasks = ("1", task) ∷ [];
  tools = ("u", ("TaskUpdate", Json.obj deleting)) ∷ [];
}

abbrev update_payload : Fields
update_payload = field "tool_id" (Json.str "u") end

abbrev update_name : String
update_name = "TaskUpdate"

update_known :
    tool_of no_json no_repr
      (get shown_board.tools (text_at no_json no_repr update_payload "tool_id"))
      (text_at no_json no_repr update_payload "name")
    ≡ (update_name, Json.obj deleting)
unfolding get Json.get truth
update_known = refl

tool_completed_lem_example :
    let result = result_of no_json no_repr update_payload in
    let input = Json.obj deleting in
    let after = (tool_completed no_json no_repr update_payload shown_board).tasks in
    ((vs : Items) (k : String) (t : TaskState)
      → update_name ≡ "TaskList"
      → listed result ≡ arr vs
      → get after k ≡ some t
      → IsListed no_json no_repr vs k t)
    × ((t : TaskState) (k : String)
        → update_name ≡ "TaskCreate"
        → made_of no_json no_repr result input ≡ some t
        → get after k ≡ (
            if string_eq.beq t.task_id k && not t.deleted then some t else get shown_board.tasks k))
    × ((id k : String) (t : TaskState)
        → (update_name ≡ "TaskUpdate") ⊎ (update_name ≡ "TaskGet")
        → task_id_of (source_of no_json no_repr result input) ≡ some id
        → task_state no_repr
            (source_of no_json no_repr result input)
            (raw_of no_json no_repr (get shown_board.tasks id))
          ≡ some t
        → get after k ≡ (
            if string_eq.beq id k
            then (if t.deleted then none else some t)
            else get shown_board.tasks k))
    × (update_name ≢ "TaskList"
        → update_name ≢ "TaskCreate"
        → update_name ≢ "TaskUpdate"
        → update_name ≢ "TaskGet"
        → after ≡ shown_board.tasks)
tool_completed_lem_example =
    tool_completed_lem no_json no_repr update_payload shown_board update_name (Json.obj deleting)
      update_known

abbrev no_question : Fields → Option QuestionRequest
no_question payload = none

-- A feed with an event in its queue, of which another copy arrives.
abbrev waiting : Feed
waiting = record new_feed { subscribed = true; queue = event_named "a" ∷ [] }

abbrev busy_round : Round
busy_round = record {
  subscription = registered [];
  arrivals = event_named "a" ∷ event_named "b" ∷ [];
  run = ok run_7;
}

stream-IsFresh_example :
    IsFresh []
      (stream no_question 1000 (busy_round ∷ busy_round ∷ busy_round ∷ []) (goes_on waiting)).0
stream-IsFresh_example =
    stream-IsFresh no_question 1000 (busy_round ∷ busy_round ∷ busy_round ∷ []) waiting

abbrev last_round : Round
last_round = record { subscription = registered []; arrivals = []; run = ok done_7 }

last_round-IsOver : IsOver last_round
last_round-IsOver = record {
  run = done_7;
  accepted = refl;
  quiet = refl;
  read = refl;
  ended = refl;
}

stream_ends_example :
    (closing : List CommonChatEvent) × ((stream no_question 1000
        (last_round ∷ last_round ∷ [])
        (goes_on waiting)).1
      ≡ returns closing)
stream_ends_example =
    stream_ends no_question 1000 (last_round ∷ last_round ∷ []) waiting
      (last_round-IsOver, (last_round-IsOver, tt)) (omega arith)
