-- ===== src/Chat/Interactions/Listed/Tools.antt =====
-- The events of tools put no task twice under its identifier, and none that is deleted.
use claudeagentsdk_cloudrun.Prelude.{
  ◌≡◌, refl, ap, All, Bool-cases, inl, inr, ◌∷◌, String, Bool, true, false, ◌||◌, [], Option, none,
  some, string_eq, if◌then◌else◌, subst,
}
use claudeagentsdk_cloudrun.Exec.{Result, ok, err}
use claudeagentsdk_cloudrun.Dict.{Dict, get, put, remove}
use claudeagentsdk_cloudrun.Dict.Distinct.{IsDistinct, put-IsDistinct, remove-IsDistinct}
use claudeagentsdk_cloudrun.Models.Json.{Json, Items, Fields, arr, obj, nil, cons, end}
use claudeagentsdk_cloudrun.Models.Json
use claudeagentsdk_cloudrun.Chat.Events.{or_default}
use claudeagentsdk_cloudrun.Chat.Tasks.{TaskState, task_state, task_from_value, result_value}
use claudeagentsdk_cloudrun.Chat.Tasks.Updates.{updates_of}
use claudeagentsdk_cloudrun.Chat.Interactions.{
  Board, keep_task, listed_task, snapshot_from, task_list_result, create_result, settled,
  update_result, completed_tool, add_created, created_from, tool_started, tool_completed, listed,
  or_object, or_empty, object_input, raw_of, update_with, text_at, tool_of, remember_tool,
}

value_or : {A : Type 0} → A → Result A → A
value_or other (ok a) = a
value_or other (err e) = other

pub ok_inj : {A : Type 0} {a b : A} → ok a ≡ ok b → a ≡ b
unfolding value_or
ok_inj {A} {a} same = ap (value_or a) same

abbrev pub Tasks : Type 0
Tasks = Dict String TaskState

abbrev pub IsAlive : String × TaskState → Type 0
IsAlive entry = entry.1.deleted ≡ false

-- No identifier stands twice, and no task is deleted.
abbrev pub IsShown : Tasks → Type 0
IsShown d = IsDistinct d × All IsAlive d

put-IsAlive :
    (d : Tasks) (k : String) (task : TaskState)
    → All IsAlive d
    → task.deleted ≡ false
    → All IsAlive (put d k task)
unfolding put
put-IsAlive [] k task h alive = (alive, tt)
put-IsAlive ((j, w) ∷ d) k task h alive = elim (Bool-cases (string_eq.beq j k)) [
  | inl same ↦ rw same (alive, h.1)
  | inr differ ↦ rw differ (h.0, put-IsAlive d k task h.1 alive)
]

remove-IsAlive : (d : Tasks) (k : String) → All IsAlive d → All IsAlive (remove d k)
unfolding remove
remove-IsAlive [] k h = tt
remove-IsAlive ((j, w) ∷ d) k h = elim (Bool-cases (string_eq.beq j k)) [
  | inl same ↦ rw same (remove-IsAlive d k h.1)
  | inr differ ↦ rw differ (h.0, remove-IsAlive d k h.1)
]

put-IsShown :
    (d : Tasks) (k : String) (task : TaskState)
    → IsShown d
    → task.deleted ≡ false
    → IsShown (put d k task)
put-IsShown d k task h alive = (put-IsDistinct d k task h.0, put-IsAlive d k task h.1 alive)

remove-IsShown : (d : Tasks) (k : String) → IsShown d → IsShown (remove d k)
remove-IsShown d k h = (remove-IsDistinct d k h.0, remove-IsAlive d k h.1)

choice-IsShown :
    (b : Bool) (d e : Tasks) → IsShown d → (b ≡ false → IsShown e) → IsShown (if b then d else e)
choice-IsShown true d e h k = h
choice-IsShown false d e h k = k refl

module _ (loads : String → Option Json) (repr : Json → String) where
  if-IsShown : (b : Bool) (d e : Tasks) → IsShown d → IsShown e → IsShown (if b then d else e)
  if-IsShown true d e h k = h
  if-IsShown false d e h k = k

  keep-IsShown :
      (task : Option TaskState) (d : Tasks) → IsShown d → IsShown (keep_task loads repr task d)
  keep-IsShown none d h = h
  keep-IsShown (some task) d h =
      choice-IsShown task.deleted d (put d task.task_id task) h (put-IsShown d task.task_id task h)

  listed-IsShown : (v : Json) (d : Tasks) → IsShown d → IsShown (listed_task loads repr v d)
  listed-IsShown (obj fs) d h = keep-IsShown (task_state repr fs _) d h
  listed-IsShown Json.null d h = h
  listed-IsShown (Json.bool b) d h = h
  listed-IsShown (Json.num n) d h = h
  listed-IsShown (Json.str s) d h = h
  listed-IsShown (Json.time t) d h = h
  listed-IsShown (arr vs) d h = h

  snapshot-IsShown : (vs : Items) (d : Tasks) → IsShown d → IsShown (snapshot_from loads repr d vs)
  unfolding snapshot_from
  snapshot-IsShown nil d h = h
  snapshot-IsShown (cons v vs) d h =
      snapshot-IsShown vs (listed_task loads repr v d) (listed-IsShown v d h)

  list-IsShown : (v : Json) (d : Tasks) → IsShown d → IsShown (task_list_result loads repr v d)
  list-IsShown (arr vs) d h = snapshot-IsShown vs [] (tt, tt)
  list-IsShown Json.null d h = h
  list-IsShown (Json.bool b) d h = h
  list-IsShown (Json.num n) d h = h
  list-IsShown (Json.str s) d h = h
  list-IsShown (Json.time t) d h = h
  list-IsShown (obj fs) d h = h

  update_with-IsShown :
      (source : Fields) (id : Option String) (d : Tasks)
      → IsShown d
      → IsShown (update_with loads repr source id d)
  update_with-IsShown source none d h = h
  update_with-IsShown source (some id) d h =
      settled-IsShown (task_state repr source (raw_of loads repr (get d id)))
    where
      settled-IsShown : (task : Option TaskState) → IsShown (settled loads repr id task d)
      settled-IsShown none = h
      settled-IsShown (some task) =
          choice-IsShown task.deleted (remove d id) (put d id task) (remove-IsShown d id h)
            (put-IsShown d id task h)

  completed-IsShown :
      (name : String) (result input : Json) (d : Tasks)
      → IsShown d
      → IsShown (completed_tool loads repr name result input d)
  unfolding completed_tool
  completed-IsShown name result input d h =
      let update = update_result loads repr result input d in
      let updated =
        update_with-IsShown
          (or_object (task_from_value loads result none) (or_empty (object_input input))) _ d h in
      let create = create_result loads repr result input d in
      if-IsShown (string_eq.beq name "TaskList") _ _ (list-IsShown (listed result) d h) (
        if-IsShown (string_eq.beq name "TaskCreate") create _ (keep-IsShown _ d h) (
          if-IsShown (string_eq.beq name "TaskUpdate" || string_eq.beq name "TaskGet") update d
            updated h))

  -- What a started TaskCreate names is not deleted.
  abbrev pub IsCalmInput : Bool → Option Fields → Type 0
  IsCalmInput creates found =
      creates ≡ true
      → (fs : Fields) (task : TaskState) → found ≡ some fs
      → task_state repr fs end ≡ some task
      → task.deleted ≡ false

  add-IsShown :
      (task : Option TaskState) (d : Tasks)
      → IsShown d
      → ((t : TaskState) → task ≡ some t → t.deleted ≡ false)
      → IsShown (add_created loads repr task d)
  add-IsShown none d h calm = h
  add-IsShown (some task) d h calm = put-IsShown d task.task_id task h (calm task refl)

  created-IsShown :
      (found : Option Fields) (board after : Board)
      → IsShown board.tasks
      → IsCalmInput true found
      → created_from loads repr found board ≡ ok after
      → IsShown after.tasks
  created-IsShown none board after h calm done = cc
  created-IsShown (some fs) board after h calm done =
      subst (λ b. IsShown b.tasks) (ok_inj done)
        (add-IsShown (task_state repr fs _) board.tasks h (λ t e. calm refl fs t refl e))

  started_with :
      (creates : Bool) (found : Option Fields) (known after : Board)
      → IsShown known.tasks
      → IsCalmInput creates found
      → (if creates then created_from loads repr found known else ok known) ≡ ok after
      → IsShown after.tasks
  started_with true found known after h calm done = created-IsShown found known after h calm done
  started_with false found known after h calm done = subst (λ b. IsShown b.tasks) (ok_inj done) h

  -- The started TaskCreate of a payload, if it is one, names no deleted task.
  abbrev pub IsCalmStart : Fields → Type 0
  IsCalmStart payload =
      IsCalmInput (string_eq.beq (text_at loads repr payload "name") "TaskCreate")
        (updates_of (or_default (Json.get payload "input") (obj end)))

  pub started-IsShown :
      (payload : Fields) (board after : Board)
      → IsShown board.tasks
      → IsCalmStart payload
      → tool_started loads repr payload board ≡ ok after
      → IsShown after.tasks
  unfolding tool_started
  started-IsShown payload board after h calm done =
      let tool_id = text_at loads repr payload "tool_id" in
      let name = text_at loads repr payload "name" in
      let input = or_default (Json.get payload "input") (obj end) in
      let known = record board {
        tools = remember_tool loads repr tool_id (name, input) board.tools;
      } in
      started_with (string_eq.beq name "TaskCreate") (updates_of input) known after h calm done

  pub completed_tool-IsShown :
      (payload : Fields) (board : Board)
      → IsShown board.tasks
      → IsShown (tool_completed loads repr payload board).tasks
  unfolding tool_completed
  completed_tool-IsShown payload board h =
      let tool =
        tool_of loads repr (get board.tools (text_at loads repr payload "tool_id"))
          (text_at loads repr payload "name") in
      completed-IsShown tool.0
        (result_value loads (
          or_default (Json.get payload "result")
            (or_default (Json.get payload "content") Json.null)))
        tool.1 board.tasks h
