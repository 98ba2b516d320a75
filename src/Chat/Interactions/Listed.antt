-- ===== src/Chat/Interactions/Listed.antt =====
-- The tasks of an InteractionState stand in its order, each once, and none is deleted.
pub mod Tools
use claudeagentsdk_cloudrun.Prelude.{
  ◌≡◌, refl, ap, inl, inr, String, Bool, true, false, ◌||◌, List, [], ◌∷◌, Option, none, some, All,
  string_eq, Bool-cases, if◌then◌else◌, subst,
}
use claudeagentsdk_cloudrun.Prelude.Sorting.{sort, insort}
use claudeagentsdk_cloudrun.Exec.{Result, Result-cases, ok, err}
use claudeagentsdk_cloudrun.Dict.{Dict, get, put, remove, values}
use claudeagentsdk_cloudrun.Dict.Distinct.{IsDistinct, put-IsDistinct, remove-IsDistinct, All-found}
use claudeagentsdk_cloudrun.Models.Json.{Json, Items, Fields, arr, obj, nil, cons, end}
use claudeagentsdk_cloudrun.Models.Json
use claudeagentsdk_cloudrun.Chat.Events.{CommonChatEvent, or_default}
use claudeagentsdk_cloudrun.Chat.Tasks.{TaskState, task_state, task_from_value, result_value}
use claudeagentsdk_cloudrun.Chat.Interactions.{
  Board, InteractionState, common_lt, keep_task, listed_task, snapshot_from, task_list_result,
  create_result, settled, update_result, completed_tool, add_created, created_from, tool_started,
  tool_completed, replay, replay_all, reduce_tasks, interaction_state, keys, task_list_from,
  task_list, listed, or_object, or_empty, object_input, raw_of, update_with, with_tasks, text_at,
  tool_of, remember_tool, tasks_of,
}
use claudeagentsdk_cloudrun.Chat.Interactions.Listed.Tools.{
  Tasks, IsShown, IsAlive, IsCalmStart, ok_inj, started-IsShown, completed_tool-IsShown,
}

module _ (loads : String → Option Json) (repr : Json → String) where
  -- A started tool that creates a task names no deleted one.
  abbrev pub IsCalm : CommonChatEvent → Type 0
  IsCalm event =
      string_eq.beq event.raw_type "tool_started" ≡ true → IsCalmStart loads repr event.payload

  All-insort :
      (e : CommonChatEvent) (events : List CommonChatEvent)
      → IsCalm e
      → All IsCalm events
      → All IsCalm (insort common_lt e events)
  unfolding insort
  All-insort e [] h calm = (h, tt)
  All-insort e (f ∷ events) h calm = elim (Bool-cases (common_lt f e)) [
    | inl below ↦ rw below (calm.0, All-insort e events h calm.1)
    | inr above ↦ rw above (h, calm)
  ]

  All-sort :
      (events : List CommonChatEvent) → All IsCalm events → All IsCalm (sort common_lt events)
  unfolding sort
  All-sort [] calm = tt
  All-sort (e ∷ events) calm = All-insort e (sort common_lt events) calm.0 (All-sort events calm.1)

  replay-IsShown :
      (event : CommonChatEvent) (board after : Board)
      → IsShown board.tasks
      → IsCalm event
      → replay loads repr event board ≡ ok after
      → IsShown after.tasks
  unfolding replay
  replay-IsShown event board after h calm done =
      elim (Bool-cases (string_eq.beq event.raw_type "tool_started")) [
        | inl e ↦
            started-IsShown loads repr event.payload board after h (calm e) (rw (replay, e) at done)
        | inr a ↦ elim (Bool-cases (string_eq.beq event.raw_type "tool_completed")) [
          | inl e ↦
              subst (λ b. IsShown b.tasks) (ok_inj (rw (replay, a, e) at done))
                (completed_tool-IsShown loads repr event.payload board h)
          | inr b ↦ subst (λ b. IsShown b.tasks) (ok_inj (rw (replay, a, b) at done)) h
        ]
      ]

  replay_all-IsShown :
      (events : List CommonChatEvent) (board after : Board)
      → IsShown board.tasks
      → All IsCalm events
      → replay_all loads repr events board ≡ ok after
      → IsShown after.tasks
  unfolding replay_all
  replay_all-IsShown [] board after h calm done = subst (λ b. IsShown b.tasks) (ok_inj done) h
  replay_all-IsShown (e ∷ events) board after h calm done =
      elim (Result-cases (replay loads repr e board)) [
        | inr (x, failed) ↦ cc (rw (replay_all, failed) at done)
        | inl (next, went) ↦
            replay_all-IsShown events next after (replay-IsShown e board next h calm.0 went) calm.1
              (rw (replay_all, went) at done)
      ]

  task_list_from-values :
      (d entries : Tasks)
      → All (λ entry. get d entry.0 ≡ some entry.1) entries
      → task_list_from d (keys entries) ≡ values entries
  unfolding task_list_from
  task_list_from-values d [] found = refl
  task_list_from-values d ((k, task) ∷ entries) found =
      rw (task_list_from, found.0) (ap (◌∷◌ task) (task_list_from-values d entries found.1))

  tasks-IsShown :
      (result : Result Board) (tasks : Tasks)
      → ((after : Board) → result ≡ ok after → IsShown after.tasks)
      → tasks_of loads repr result ≡ ok tasks
      → IsShown tasks
  tasks-IsShown (err e) tasks h done = cc
  tasks-IsShown (ok board) tasks h done = subst (λ d. IsShown d) (ok_inj done) (h board refl)

  reduce_tasks-IsShown :
      (events : List CommonChatEvent) (tasks : Tasks)
      → All IsCalm events
      → reduce_tasks loads repr events ≡ ok tasks
      → IsShown tasks
  unfolding reduce_tasks
  reduce_tasks-IsShown events tasks calm done =
      tasks-IsShown _ tasks
        (λ after.
          replay_all-IsShown (sort common_lt events) (record { tasks = []; tools = [] }) after
            (tt, tt) (All-sort events calm))
        done

  listed-with_tasks :
      (log : List CommonChatEvent) (found : Result Tasks) (state : InteractionState)
      → ((tasks : Tasks) → found ≡ ok tasks → IsShown tasks)
      → with_tasks loads repr log found ≡ ok state
      → (task_list state ≡ values state.tasks) × IsShown state.tasks
  unfolding task_list
  listed-with_tasks log (err e) state h done = cc
  listed-with_tasks log (ok tasks) state h done =
      let shown = h tasks refl in
      subst (λ state. (task_list state ≡ values state.tasks) × IsShown state.tasks) (ok_inj done)
        (task_list_from-values tasks tasks (All-found tasks shown.0), shown)

  -- Where the events can be replayed and no started TaskCreate names a deleted task, the tasks of the
  -- result stand under different identifiers, the list of tasks that a frontend shows has each of them
  -- once, in the order of the dictionary, and none of them is deleted, whatever a TaskList, a
  -- TaskCreate, a TaskGet or a TaskUpdate gave for a result.
  pub interaction_state-tasks :
      (events : List CommonChatEvent) (state : InteractionState)
      → All IsCalm events
      → interaction_state loads repr events ≡ ok state
      → (task_list state ≡ values state.tasks) × IsDistinct state.tasks × All IsAlive state.tasks
  unfolding interaction_state
  interaction_state-tasks events state calm done =
      let log = sort common_lt events in
      let (list, (distinct, alive)) =
        listed-with_tasks log (reduce_tasks loads repr log) state
          (λ tasks. reduce_tasks-IsShown log tasks (All-sort events calm)) done in
      (list, distinct, alive)
