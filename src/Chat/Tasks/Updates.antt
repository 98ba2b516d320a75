-- ===== src/Chat/Tasks/Updates.antt =====
-- example/chat/events.py: what `merged.update(value)` of _task_state reads of a value.
use claudeagentsdk_cloudrun.Prelude.{String, Option, none, some, string_eq, if◌then◌else◌}
use claudeagentsdk_cloudrun.Text.{is_empty}
use claudeagentsdk_cloudrun.Models.Json.{Json, Items, Fields, str, arr, obj, nil, cons, end, field}

-- What dict.update reads of a pair; a key that is no text is never looked up.
abbrev keyed : Json → Json → Option Fields
keyed (str s) v = some (field s v end)
keyed (arr vs) v = none
keyed (obj fs) v = none
keyed k v = some end

two_characters : String → Option Fields
two_characters (String.◌∷◌ c (String.◌∷◌ d String.[])) =
    some (field (String.◌∷◌ c String.[]) (str (String.◌∷◌ d String.[])) end)
two_characters s = none

pair_of : Json → Option Fields
unfolding two_characters
pair_of (arr (cons k (cons v nil))) = keyed k v
pair_of (str s) = two_characters s
pair_of (obj (field k v (field j w end))) = some (field k (str j) end)
pair_of v = none

both : Option Fields → Option Fields → Option Fields
both (some (field k v end)) (some fs) = some (field k v fs)
both (some end) (some fs) = some fs
both first rest = none

pairs_of : Items → Option Fields
unfolding pair_of both
pairs_of nil = some end
pairs_of (cons v vs) = both (pair_of v) (pairs_of vs)

-- The argument of dict.update; any other value raises a TypeError or a ValueError.
unfoldable pub updates_of : Json → Option Fields
unfolding pairs_of
updates_of (obj fs) = some fs
updates_of (arr vs) = pairs_of vs
updates_of (str s) = if is_empty s then some end else none
updates_of v = none
