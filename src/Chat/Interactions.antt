-- ===== src/Chat/Interactions.antt =====
-- example/chat/events.py: the tasks and the open questions that a log of events leaves.
pub mod Open
pub mod Listed
pub mod Completed
use claudeagentsdk_cloudrun.Prelude.{
  String, Bool, ◌&&◌, ◌||◌, List, [], ◌∷◌, Option, none, some, string_eq, nat_beq, ltb,
  if◌then◌else◌,
}
use claudeagentsdk_cloudrun.Prelude.Sorting.{sort}
use claudeagentsdk_cloudrun.Errors.{error, other}
use claudeagentsdk_cloudrun.Exec.{Result, ok, err}
use claudeagentsdk_cloudrun.Text.{is_empty}
use claudeagentsdk_cloudrun.Dict.{Dict, get, put, remove, values}
use claudeagentsdk_cloudrun.Models.Json.{
  Json, Items, Fields, null, bool, num, str, arr, obj, nil, cons, end, field,
}
use claudeagentsdk_cloudrun.Models.Json
use claudeagentsdk_cloudrun.Models.Questions.{QuestionRequest}
use claudeagentsdk_cloudrun.Models.Questions.Batches.{by_ordinal}
use claudeagentsdk_cloudrun.InMemory.Sessions.{str_lt}
use claudeagentsdk_cloudrun.Chat.Events.{CommonChatEvent, or_default}
use claudeagentsdk_cloudrun.Chat.Tasks.Updates.{updates_of}
use claudeagentsdk_cloudrun.Chat.Tasks.{
  TaskState, result_value, task_from_value, task_id_of, task_state, text_or,
}

-- key=lambda item: (item.sequence, item.id)
abbrev pub common_lt : CommonChatEvent → CommonChatEvent → Bool
common_lt a b = ltb a.sequence b.sequence || (nat_beq a.sequence b.sequence && str_lt a.id b.id)

pub record Board : Type 0 where
  pub tasks : Dict String TaskState
  pub tools : Dict String (String × Json)

pub record InteractionState : Type 0 where
  pub pending_questions : List QuestionRequest
  pub tasks : Dict String TaskState
  pub task_order : List String

-- The input of a tool, where it is an object, and `{}` for None.
abbrev pub object_input : Json → Option Fields
object_input (obj fs) = some fs
object_input v = none

abbrev pub or_empty : Option Fields → Fields
or_empty none = end
or_empty (some fs) = fs

-- value or other
abbrev pub or_object : Option Fields → Fields → Fields
or_object (some (field k v fs)) second = field k v fs
or_object value second = second

-- The values of a list of tasks: those of an object's "tasks", or the result itself.
abbrev pub listed : Json → Json
listed (obj fs) = or_default (Json.get fs "tasks") null
listed v = v

abbrev pub keys : {V : Type 0} → Dict String V → List String
keys [] = []
keys ((k, v) ∷ d) = k ∷ keys d

abbrev pub note_question :
    String → Option QuestionRequest → Dict String QuestionRequest → Dict String QuestionRequest
note_question event_type none pending = pending
note_question event_type (some question) pending =
    if string_eq.beq event_type "question_pending"
    then put pending question.id question
    else if string_eq.beq event_type "question_answered"
    then remove pending question.id
    else pending

unfoldable pub open_questions :
    List CommonChatEvent → Dict String QuestionRequest → Dict String QuestionRequest
open_questions [] pending = pending
open_questions (event ∷ events) pending =
    open_questions events (note_question event.raw_type event.question pending)

module _ (loads : String → Option Json) (repr : Json → String) where
  abbrev pub text_at : Fields → String → String
  text_at payload key = text_or repr (or_default (Json.get payload key) null) ""

  abbrev pub keep_task : Option TaskState → Dict String TaskState → Dict String TaskState
  keep_task none tasks = tasks
  keep_task (some task) tasks = if task.deleted then tasks else put tasks task.task_id task

  abbrev pub listed_task : Json → Dict String TaskState → Dict String TaskState
  listed_task (obj fs) tasks = keep_task (task_state repr fs end) tasks
  listed_task v tasks = tasks

  -- The snapshot that a list of tasks makes.
  unfoldable pub snapshot_from : Dict String TaskState → Items → Dict String TaskState
  unfolding task_state
  snapshot_from snapshot nil = snapshot
  snapshot_from snapshot (cons v vs) = snapshot_from (listed_task v snapshot) vs

  abbrev pub task_list_result : Json → Dict String TaskState → Dict String TaskState
  task_list_result (arr vs) tasks = snapshot_from [] vs
  task_list_result v tasks = tasks

  abbrev pub create_result : Json → Json → Dict String TaskState → Dict String TaskState
  create_result result input tasks =
      let input_object = object_input input in
      keep_task
        (task_state repr (or_empty (task_from_value loads result input_object))
          (or_empty input_object))
        tasks

  abbrev pub settled : String → Option TaskState → Dict String TaskState → Dict String TaskState
  settled task_id none tasks = tasks
  settled task_id (some task) tasks =
      if task.deleted then remove tasks task_id else put tasks task_id task

  abbrev pub raw_of : Option TaskState → Fields
  raw_of none = end
  raw_of (some task) = task.raw

  abbrev pub update_with : Fields → Option String → Dict String TaskState → Dict String TaskState
  update_with source none tasks = tasks
  update_with source (some task_id) tasks =
      settled task_id (task_state repr source (raw_of (get tasks task_id))) tasks

  abbrev pub update_result : Json → Json → Dict String TaskState → Dict String TaskState
  update_result result input tasks =
      let source = or_object (task_from_value loads result none) (or_empty (object_input input)) in
      update_with source (task_id_of source) tasks

  unfoldable pub completed_tool :
      String → Json → Json → Dict String TaskState → Dict String TaskState
  unfolding snapshot_from task_state task_from_value task_id_of
  completed_tool name result input tasks =
      if string_eq.beq name "TaskList"
      then task_list_result (listed result) tasks
      else if string_eq.beq name "TaskCreate"
      then create_result result input tasks
      else if string_eq.beq name "TaskUpdate" || string_eq.beq name "TaskGet"
      then update_result result input tasks
      else tasks

  abbrev pub remember_tool :
      String → String × Json → Dict String (String × Json) → Dict String (String × Json)
  remember_tool tool_id tool tools = if is_empty tool_id then tools else put tools tool_id tool

  abbrev pub add_created : Option TaskState → Dict String TaskState → Dict String TaskState
  add_created none tasks = tasks
  add_created (some task) tasks = put tasks task.task_id task

  abbrev pub created_from : Option Fields → Board → Result Board
  created_from none board = err (error other "cannot convert dictionary update sequence")
  created_from (some fs) board =
      ok (record board { tasks = add_created (task_state repr fs end) board.tasks })

  unfoldable pub tool_started : Fields → Board → Result Board
  unfolding updates_of task_state
  tool_started payload board =
      let tool_id = text_at payload "tool_id" in
      let name = text_at payload "name" in
      let input = or_default (Json.get payload "input") (obj end) in
      let known = record board { tools = remember_tool tool_id (name, input) board.tools } in
      if string_eq.beq name "TaskCreate" then created_from (updates_of input) known else ok known

  abbrev pub tool_of : Option (String × Json) → String → String × Json
  tool_of none name = (name, obj end)
  tool_of (some tool) name = tool

  unfoldable pub tool_completed : Fields → Board → Board
  unfolding completed_tool result_value
  tool_completed payload board =
      let (name, input) =
        tool_of (get board.tools (text_at payload "tool_id")) (text_at payload "name") in
      let result =
        result_value loads
          (or_default (Json.get payload "result") (or_default (Json.get payload "content") null)) in
      record board { tasks = completed_tool name result input board.tasks }

  unfoldable pub replay : CommonChatEvent → Board → Result Board
  unfolding tool_started tool_completed
  replay event board =
      if string_eq.beq event.raw_type "tool_started"
      then tool_started event.payload board
      else if string_eq.beq event.raw_type "tool_completed"
      then ok (tool_completed event.payload board)
      else ok board

  unfoldable pub replay_all : List CommonChatEvent → Board → Result Board
  unfolding replay
  replay_all [] board = ok board
  replay_all (event ∷ events) board = elim (replay event board) [
    | err e ↦ err e
    | ok after ↦ replay_all events after
  ]

  abbrev pub tasks_of : Result Board → Result (Dict String TaskState)
  tasks_of (err e) = err e
  tasks_of (ok board) = ok board.tasks

  unfoldable pub reduce_tasks : List CommonChatEvent → Result (Dict String TaskState)
  unfolding sort replay_all
  reduce_tasks events =
      tasks_of (replay_all (sort common_lt events) (record { tasks = []; tools = [] }))

  abbrev pub with_tasks :
      List CommonChatEvent → Result (Dict String TaskState) → Result InteractionState
  with_tasks normalized (err e) = err e
  with_tasks normalized (ok tasks) = ok (record {
    pending_questions = sort by_ordinal (values (open_questions normalized []));
    tasks = tasks;
    task_order = keys tasks;
  })

  unfoldable pub interaction_state : List CommonChatEvent → Result InteractionState
  unfolding sort open_questions reduce_tasks
  interaction_state events =
      let normalized = sort common_lt events in with_tasks normalized (reduce_tasks normalized)

-- InteractionState.task_list
abbrev with_found : Option TaskState → List TaskState → List TaskState
with_found none rest = rest
with_found (some task) rest = task ∷ rest

unfoldable pub task_list_from : Dict String TaskState → List String → List TaskState
task_list_from tasks [] = []
task_list_from tasks (key ∷ rest) = with_found (get tasks key) (task_list_from tasks rest)

unfoldable pub task_list : InteractionState → List TaskState
unfolding task_list_from
task_list state = task_list_from state.tasks state.task_order
