-- ===== src/Chat/Interactions/Completed.antt =====
-- What the completed event of a tool does to the tasks, by the tool.
use claudeagentsdk_cloudrun.Prelude.{
  ◌≡◌, ◌≢◌, refl, ◌⊎◌, inl, inr, String, false, Option, none, some, Bool-cases, arith, not, ◌&&◌,
  [], string_eq, if◌then◌else◌,
}
use claudeagentsdk_cloudrun.Dict.{get, get-put, get-remove}
use claudeagentsdk_cloudrun.Models.Json.{Json, Items, Fields, arr, obj, nil, cons, end}
use claudeagentsdk_cloudrun.Models.Json
use claudeagentsdk_cloudrun.Chat.Events.{or_default}
use claudeagentsdk_cloudrun.Chat.Tasks.{
  TaskState, task_state, task_from_value, task_id_of, result_value,
}
use claudeagentsdk_cloudrun.Chat.Interactions.{
  Board, listed_task, keep_task, snapshot_from, settled, completed_tool, tool_completed, listed,
  or_object, or_empty, object_input, raw_of, text_at, tool_of,
}
use claudeagentsdk_cloudrun.Chat.Interactions.Listed.Tools.{Tasks}

module _ (loads : String → Option Json) (repr : Json → String) where
  -- A task of the list that is not deleted, under its identifier.
  abbrev pub IsGivenBy : Json → String → TaskState → Type 0
  IsGivenBy v k task =
      (fs : Fields) × (v ≡ obj fs)
      × (task_state repr fs end ≡ some task)
      × (task.task_id ≡ k)
      × (task.deleted ≡ false)

  abbrev pub IsListed : Items → String → TaskState → Type 0
  IsListed nil k task = ⊥
  IsListed (cons v vs) k task = IsGivenBy v k task ⊎ IsListed vs k task

  kept :
      (o : Option TaskState) (d : Tasks) (k : String) (task : TaskState)
      → get (keep_task loads repr o d) k ≡ some task
      → (get d k ≡ some task) ⊎ ((o ≡ some task) × (task.task_id ≡ k) × (task.deleted ≡ false))
  kept none d k task found = inl found
  kept (some t) d k task found = elim (Bool-cases t.deleted) [
    | inl gone ↦ inl (ground (arith, gone, found))
    | inr alive ↦ elim (Bool-cases (string_eq.beq t.task_id k)) [
      | inr other ↦ inl (ground (arith, alive, found, get-put d t.task_id k t, other))
      | inl same ↦
          let own : some t ≡ some task =
            ground (arith, alive, found, get-put d t.task_id k t, same) in
          let equal : t ≡ task = cc own in
          inr (own, rw (← equal) ((string_eq.beq_iff t.task_id k).0 same), rw (← equal) alive)
    ]
  ]

  given :
      (v : Json) (d : Tasks) (k : String) (task : TaskState)
      → get (listed_task loads repr v d) k ≡ some task
      → (get d k ≡ some task) ⊎ IsGivenBy v k task
  given (obj fs) d k task found = elim (kept (task_state repr fs end) d k task found) [
    | inl before ↦ inl before
    | inr (brought, own, alive) ↦ inr (fs, refl, brought, own, alive)
  ]
  given Json.null d k task found = inl found
  given (Json.bool b) d k task found = inl found
  given (Json.num n) d k task found = inl found
  given (Json.str s) d k task found = inl found
  given (Json.time t) d k task found = inl found
  given (arr vs) d k task found = inl found

  snapshot_from-IsListed :
      (vs : Items) (d : Tasks) (k : String) (task : TaskState)
      → get (snapshot_from loads repr d vs) k ≡ some task
      → (get d k ≡ some task) ⊎ IsListed vs k task
  unfolding snapshot_from
  snapshot_from-IsListed nil d k task found = inl found
  snapshot_from-IsListed (cons v vs) d k task found =
      elim (snapshot_from-IsListed vs (listed_task loads repr v d) k task found) [
        | inr later ↦ inr (inr later)
        | inl here ↦ elim (given v d k task here) [
          | inl before ↦ inl before
          | inr own ↦ inr (inl own)
        ]
      ]

  get-settled :
      (task : TaskState) (id k : String) (d : Tasks)
      → get (settled loads repr id (some task) d) k
        ≡ (if string_eq.beq id k then (if task.deleted then none else some task) else get d k)
  get-settled task id k d = elim (Bool-cases task.deleted) [
    | inl gone ↦ ground (arith, gone, get-remove d id k)
    | inr alive ↦ ground (arith, alive, get-put d id k task)
  ]

  -- What the source reads from the event's payload, and from what is known of the tool.
  abbrev pub result_of : Fields → Json
  result_of payload =
      result_value loads
        (or_default (Json.get payload "result") (or_default (Json.get payload "content") Json.null))

  abbrev pub made_of : Json → Json → Option TaskState
  made_of result input =
      task_state repr (or_empty (task_from_value loads result (object_input input)))
        (or_empty (object_input input))

  abbrev pub source_of : Json → Json → Fields
  source_of result input =
      or_object (task_from_value loads result none) (or_empty (object_input input))

  module _ (result input : Json) (d : Tasks) where
    after_list :
        (vs : Items) (k : String) (task : TaskState)
        → listed result ≡ arr vs
        → get (completed_tool loads repr "TaskList" result input d) k ≡ some task
        → IsListed vs k task
    unfolding completed_tool get
    after_list vs k task lists found =
        elim (snapshot_from-IsListed vs [] k task (rw lists at found)) [
          | inl absent ↦ cc
          | inr there ↦ there
        ]

    after_create :
        (task : TaskState) (k : String)
        → made_of result input ≡ some task
        → get (completed_tool loads repr "TaskCreate" result input d) k
          ≡ (if string_eq.beq task.task_id k && not task.deleted then some task else get d k)
    unfolding completed_tool
    after_create task k brings = rw brings (elim (Bool-cases task.deleted) [
      | inl gone ↦ ground (arith, gone)
      | inr alive ↦ ground (arith, alive, get-put d task.task_id k task)
    ])

    after_update :
        (name id k : String) (task : TaskState)
        → (name ≡ "TaskUpdate") ⊎ (name ≡ "TaskGet")
        → task_id_of (source_of result input) ≡ some id
        → task_state repr (source_of result input) (raw_of loads repr (get d id)) ≡ some task
        → get (completed_tool loads repr name result input d) k
          ≡ (if string_eq.beq id k then (if task.deleted then none else some task) else get d k)
    unfolding completed_tool
    after_update name id k task (inl update) names brings =
        rw (update, names, brings) (get-settled task id k d)
    after_update name id k task (inr read) names brings =
        rw (read, names, brings) (get-settled task id k d)

    after_other :
        (name : String)
        → name ≢ "TaskList"
        → name ≢ "TaskCreate"
        → name ≢ "TaskUpdate"
        → name ≢ "TaskGet"
        → completed_tool loads repr name result input d ≡ d
    unfolding completed_tool
    after_other name a b c e = ground (
      arith,
      string_eq.beq_iff name "TaskList",
      string_eq.beq_iff name "TaskCreate",
      string_eq.beq_iff name "TaskUpdate",
      string_eq.beq_iff name "TaskGet",
    )

  pub tool_completed_lem :
      (payload : Fields) (board : Board) (name : String) (input : Json)
      → tool_of loads repr
          (get board.tools (text_at loads repr payload "tool_id"))
          (text_at loads repr payload "name")
        ≡ (name, input)
      → let result = result_of payload in
        let after = (tool_completed loads repr payload board).tasks in
        ((vs : Items) (k : String) (task : TaskState)
          → name ≡ "TaskList"
          → listed result ≡ arr vs
          → get after k ≡ some task
          → IsListed vs k task)
        × ((task : TaskState) (k : String)
            → name ≡ "TaskCreate"
            → made_of result input ≡ some task
            → get after k ≡ (
                if string_eq.beq task.task_id k && not task.deleted
                then some task
                else get board.tasks k))
        × ((id k : String) (task : TaskState)
            → (name ≡ "TaskUpdate") ⊎ (name ≡ "TaskGet")
            → task_id_of (source_of result input) ≡ some id
            → task_state repr (source_of result input) (raw_of loads repr (get board.tasks id))
              ≡ some task
            → get after k ≡ (
                if string_eq.beq id k
                then (if task.deleted then none else some task)
                else get board.tasks k))
        × (name ≢ "TaskList"
            → name ≢ "TaskCreate"
            → name ≢ "TaskUpdate"
            → name ≢ "TaskGet"
            → after ≡ board.tasks)
  unfolding tool_completed
  tool_completed_lem payload board name input known =
      let result = result_of payload in
      rw known (
        λ vs k task list lists found.
            after_list result input board.tasks vs k task lists (rw list at found),
        λ task k create brings. rw create (after_create result input board.tasks task k brings),
        after_update result input board.tasks name,
        after_other result input board.tasks name,
      )
