-- ===== src/Chat/Tasks.antt =====
-- example/chat/events.py: the tasks of the agent, from the values of its tools. `loads` is json.loads,
-- with `none` where it raises, and `repr` is `str` of a value that is no text. Python's None is `null`.
pub mod Updates
use claudeagentsdk_cloudrun.Prelude.{
  String, Bool, false, ◌||◌, List, [], ◌∷◌, Option, none, some, string_eq, if◌then◌else◌,
}
use claudeagentsdk_cloudrun.Text.{strip, is_blank}
use claudeagentsdk_cloudrun.Models.Json.{
  Json, Items, Fields, null, bool, str, arr, obj, nil, cons, end, field, get, text_of,
}
use claudeagentsdk_cloudrun.Chat.Events.{or_default, truth}

pub record TaskState : Type 0 where
  pub task_id : String
  pub subject : String
  pub description : String
  pub status : String
  pub blocked_by : List String
  pub owner : Option String
  pub deleted : Bool
  pub raw : Fields

-- A value that is an object or a list.
abbrev container : Json → Option Json
container (arr vs) = some (arr vs)
container (obj fs) = some (obj fs)
container v = none

abbrev or_else {ℓ} : {A : Type ℓ} → Option A → Option A → Option A
or_else none later = later
or_else (some a) later = some a

abbrev or_value : Option Json → Json → Json
or_value none v = v
or_value (some found) v = found

abbrev parsed_text : Option Json → String → Json
parsed_text none s = str s
parsed_text (some v) s = v

module _ (loads : String → Option Json) where
  -- The first container that a block of the list holds under one of the four keys; a key is looked
  -- up where it stands first.
  unfoldable mutual
    pub result_value : Json → Json
    result_value (obj fs) = obj fs
    result_value (arr blocks) = or_value (parsed_blocks blocks) (arr blocks)
    result_value (str s) = parsed_text (loads s) s
    result_value (Json.time t) = Json.time t
    result_value v = null

    parsed_blocks : Items → Option Json
    parsed_blocks nil = none
    parsed_blocks (cons block blocks) = or_else (parsed_block block) (parsed_blocks blocks)

    parsed_block : Json → Option Json
    parsed_block (obj fs) =
        or_else (parsed_at "json" fs)
          (or_else (parsed_at "input" fs) (or_else (parsed_at "text" fs) (parsed_at "content" fs)))
    parsed_block v = none

    parsed_at : String → Fields → Option Json
    parsed_at key end = none
    parsed_at key (field k v fs) =
        let here = container (result_value v) in
        let later = parsed_at key fs in if string_eq.beq k key then here else later

  -- The object under the first key that has one.
  abbrev object_of : Option Json → Option Fields
  object_of (some (obj fs)) = some fs
  object_of v = none

  unfoldable pub nested_object : List String → Fields → Option Fields
  nested_object [] fs = none
  nested_object (key ∷ keys) fs = or_else (object_of (get fs key)) (nested_object keys fs)

  abbrev or_fields : Option Fields → Fields → Fields
  or_fields none fs = fs
  or_fields (some found) fs = found

  abbrev from_parsed : Json → Option Fields → Option Fields
  from_parsed (obj fs) fallback =
      some (or_fields (nested_object ("task" ∷ "item" ∷ "result" ∷ []) fs) fs)
  from_parsed v fallback = fallback

  unfoldable pub task_from_value : Json → Option Fields → Option Fields
  unfolding result_value nested_object
  task_from_value value fallback = from_parsed (result_value value) fallback

-- The task's identifier under one of the keys: the first that is a text with something in it.
unfoldable pub id_under : List String → Fields → Option String
id_under [] fs = none
id_under (key ∷ keys) fs = elim (text_of (get fs key)) [
  | none ↦ id_under keys fs
  | some s ↦ if is_blank s then id_under keys fs else some (strip s)
]

unfoldable pub task_id_of : Fields → Option String
unfolding id_under
task_id_of fs = id_under ("taskId" ∷ "task_id" ∷ "id" ∷ []) fs

-- merged[key] = value, and merged.update(value) of an object
unfoldable pub put_field : Fields → String → Json → Fields
put_field end key v = field key v end
put_field (field k w fs) key v =
    if string_eq.beq k key then field k v fs else field k w (put_field fs key v)

unfoldable pub merge : Fields → Fields → Fields
unfolding put_field
merge fs end = fs
merge fs (field k v updates) = merge (put_field fs k v) updates

module _ (repr : Json → String) where
  -- str(value)
  abbrev pub text_value : Json → String
  text_value (str s) = s
  text_value v = repr v

  -- str(value or other)
  abbrev pub text_or : Json → String → String
  text_or v other = if truth v then text_value v else other

  abbrev pub texts_of : Json → List String
  texts_of (arr vs) = texts vs
    where
      texts : Items → List String
      texts nil = []
      texts (cons v rest) =
          let others = texts rest in
          if is_blank (text_value v) then others else text_value v ∷ others
  texts_of v = []

  abbrev owner_of : Option Json → Option String
  owner_of none = none
  owner_of (some null) = none
  owner_of (some v) = some (text_value v)

  abbrev is_text : Option Json → String → Bool
  is_text (some (str s)) t = string_eq.beq s t
  is_text v t = false

  abbrev pub new_task : String → Fields → TaskState
  new_task task_id merged = record {
    task_id = task_id;
    subject =
        text_or (or_default (get merged "subject") (or_default (get merged "title") (str ""))) "";
    description = text_or (or_default (get merged "description") (str "")) "";
    status = text_or (or_default (get merged "status") (str "pending")) "pending";
    blocked_by = texts_of (
        or_default (get merged "blockedBy") (
          or_default (get merged "blocked_by") (or_default (get merged "dependencies") (arr nil))));
    owner = owner_of (get merged "owner");
    deleted =
        truth (or_default (get merged "deleted") (bool false))
        || is_text (get merged "status") "deleted";
    raw = merged;
  }

  -- `_task_state` of an object
  unfoldable pub task_state : Fields → Fields → Option TaskState
  unfolding merge task_id_of truth
  task_state value fallback =
      let merged = merge fallback value in
      elim (task_id_of merged) [ none ↦ none | some task_id ↦ some (new_task task_id merged) ]
