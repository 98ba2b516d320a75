-- ===== src/Text/Search.antt =====
-- What the program uses of Python's str.lower, str.upper, `in`, startswith, rsplit and split. Of
-- the letters outside ASCII, those are changed that have an ASCII letter in the other case; the
-- program only looks for ASCII texts in the result.
use Prim.Native.Char.{Char, code}
use Prim.Native.String.{String, [], ◌∷◌, ◌++◌}
use mathlib.Core.List
use claudeagentsdk_cloudrun.Prelude.{
  ℕ, Bool, true, false, ◌&&◌, ◌||◌, Option, none, some, string_eq, nat_beq, if◌then◌else◌,
}

-- The character that stands in the second text where `c` stands in the first.
translate : String → String → Char → Char
translate [] to c = c
translate (d ∷ from) [] c = c
translate (d ∷ from) (e ∷ to) c = if nat_beq (code d) (code c) then e else translate from to c

-- s.lower(); U+0130 becomes two characters.
unfoldable pub lower : String → String
unfolding translate
lower [] = []
lower (c ∷ s) =
    (if nat_beq (code c) 0x130
      then "i̇"
      else translate "ABCDEFGHIJKLMNOPQRSTUVWXYZK" "abcdefghijklmnopqrstuvwxyzk" c ∷ [])
    ++ lower s

-- The characters whose upper case is two or three.
widened : ℕ → Option String
widened n =
    if nat_beq n 0xDF
    then some "SS"
    else if nat_beq n 0xFB00
    then some "FF"
    else if nat_beq n 0xFB01
    then some "FI"
    else if nat_beq n 0xFB02
    then some "FL"
    else if nat_beq n 0xFB03
    then some "FFI"
    else if nat_beq n 0xFB04
    then some "FFL"
    else if nat_beq n 0xFB05 || nat_beq n 0xFB06
    then some "ST"
    else none

upper_char : Char → String
unfolding widened translate
upper_char c = elim (widened (code c)) [
  | some wide ↦ wide
  | none ↦ translate "abcdefghijklmnopqrstuvwxyzıſ" "ABCDEFGHIJKLMNOPQRSTUVWXYZIS" c ∷ []
]

-- s.upper()
unfoldable pub upper : String → String
unfolding upper_char
upper [] = []
upper (c ∷ s) = upper_char c ++ upper s

-- s.startswith(token)
unfoldable pub begins : String → String → Bool
begins s [] = true
begins [] (t ∷ token) = false
begins (c ∷ s) (t ∷ token) = nat_beq (code c) (code t) && begins s token

-- token in s
unfoldable pub has : String → String → Bool
unfolding begins
has [] token = begins [] token
has (c ∷ s) token = begins (c ∷ s) token || has s token

-- s.rsplit(separator, 1)[-1]: `kept` is what follows the last separator so far.
unfoldable pub after_last_from : ℕ → String → String → String
after_last_from separator kept [] = kept
after_last_from separator kept (c ∷ s) =
    after_last_from separator (if nat_beq (code c) separator then [] else kept ++ (c ∷ [])) s

unfoldable pub after_last : ℕ → String → String
unfolding after_last_from
after_last separator s = after_last_from separator [] s

-- The two parts of s.split(separator, 1), where the separator is there.
unfoldable pub split_once : ℕ → String → Option (String × String)
split_once separator [] = none
split_once separator (c ∷ s) = elim (nat_beq (code c) separator) [
  | true ↦ some ([], s)
  | false ↦ elim (split_once separator s) [
    | none ↦ none
    | some (before, rest) ↦ some (c ∷ before, rest)
  ]
]

-- name in names
abbrev pub is_in : List.List String → String → Bool
is_in List.[] name = false
is_in (List.◌∷◌ n ns) name = string_eq.beq n name || is_in ns name
