-- ===== src/Models/Json.antt =====
-- JSON values, as event payloads hold them (dict[str, Any]).
use claudeagentsdk_cloudrun.Prelude.{
  ℕ, String, Bool, List, [], ◌∷◌, Option, none, some, string_eq, if◌then◌else◌,
}

mutual
  pub data Json : Type 0 where
    null : Json
    bool : Bool → Json
    num : ℕ → Json
    str : String → Json
    -- the ISO text of a point in time
    time : ℕ → Json
    arr : Items → Json
    obj : Fields → Json

  pub data Items : Type 0 where
    nil : Items
    cons : Json → Items → Items

  pub data Fields : Type 0 where
    end : Fields
    field : String → Json → Fields → Fields

-- payload.get(key)
unfoldable pub get : Fields → String → Option Json
get end key = none
get (field k v fs) key = if string_eq.beq k key then some v else get fs key

-- The text under a key: `payload.get(key)` when it is a `str`.
abbrev pub text_of : Option Json → Option String
text_of (some (str s)) = some s
text_of _ = none

abbrev pub of_texts : List String → Items
of_texts [] = nil
of_texts (s ∷ ss) = cons (str s) (of_texts ss)

abbrev pub of_option {ℓ} : {A : Type ℓ} → (A → Json) → Option A → Json
of_option f none = null
of_option f (some a) = f a
