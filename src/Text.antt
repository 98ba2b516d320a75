-- ===== src/Text.antt =====
-- What the program uses of Python's `str`: strip, splitlines, re.sub(r"\s+", " ", s), s[:n], len.
pub mod Laws
pub mod Search
use Prim.Native.Char.{Char, code}
use Prim.Native.String.{String, [], ◌∷◌, ◌++◌}
use mathlib.Core.List
use claudeagentsdk_cloudrun.Prelude.{
  ℕ, zero, suc, ◌+◌, ◌/◌, ◌%◌, Bool, true, false, not, ◌&&◌, ◌||◌, nat_beq, leb, if◌then◌else◌,
}

-- str.isspace of one character; `\s` of a text pattern is the same set.
unfoldable pub is_space : Char → Bool
is_space c =
    let n = code c in
    (leb 9 n && leb n 13)
    || (leb 28 n && leb n 32)
    || nat_beq n 133
    || nat_beq n 160
    || nat_beq n 5760
    || (leb 8192 n && leb n 8202)
    || nat_beq n 8232
    || nat_beq n 8233
    || nat_beq n 8239
    || nat_beq n 8287
    || nat_beq n 12288

abbrev pub is_empty : String → Bool
is_empty [] = true
is_empty (c ∷ s) = false

abbrev pub length : String → ℕ
length [] = 0
length (c ∷ s) = suc (length s)

-- s[:n]
abbrev pub take : ℕ → String → String
take zero s = []
take (suc n) [] = []
take (suc n) (c ∷ s) = c ∷ take n s

unfoldable pub lstrip : String → String
lstrip [] = []
lstrip (c ∷ s) = let rest = lstrip s in if is_space c then rest else c ∷ s

unfoldable pub rstrip : String → String
rstrip [] = []
rstrip (c ∷ s) = let rest = rstrip s in if is_space c && is_empty rest then [] else c ∷ rest

unfoldable pub strip : String → String
unfolding lstrip rstrip
strip s = rstrip (lstrip s)

-- not s.strip()
abbrev pub is_blank : String → Bool
is_blank s = is_empty (strip s)

-- The line boundaries of str.splitlines, "\r\n" apart.
unfoldable pub is_line_break : Char → Bool
is_line_break c =
    let n = code c in
    (leb 10 n && leb n 13)
    || (leb 28 n && leb n 30)
    || nat_beq n 133
    || nat_beq n 8232
    || nat_beq n 8233

is_cr : Char → Bool
is_cr c = nat_beq (code c) 13

is_lf : Char → Bool
is_lf c = nat_beq (code c) 10

-- The lines of a text; `after_cr` says that the last character was "\r", whose "\n" ends no line
-- of its own.
unfoldable pub lines_from : String → Bool → String → List.List String
unfolding is_cr is_lf
lines_from line after_cr [] =
    if is_empty line then List.List.[] else List.List.◌∷◌ line List.List.[]
lines_from line after_cr (c ∷ s) =
    let skip = lines_from line false s in
    let broken = List.List.◌∷◌ line (lines_from [] (is_cr c) s) in
    let longer = lines_from (line ++ (c ∷ [])) false s in
    if after_cr && is_lf c then skip else if is_line_break c then broken else longer

unfoldable pub split_lines : String → List.List String
unfolding lines_from
split_lines s = lines_from [] false s

-- re.sub(r"\s+", " ", s); `in_run` says that the last character was white space.
unfoldable pub collapse_from : Bool → String → String
collapse_from in_run [] = []
collapse_from in_run (c ∷ s) =
    let space = collapse_from true s in
    let other = c ∷ collapse_from false s in
    if is_space c then (if in_run then space else " " ∷ space) else other

unfoldable pub collapse : String → String
unfolding collapse_from
collapse s = collapse_from false s

abbrev digit : ℕ → String
digit n =
    if nat_beq n 0
    then "0"
    else if nat_beq n 1
    then "1"
    else if nat_beq n 2
    then "2"
    else if nat_beq n 3
    then "3"
    else if nat_beq n 4
    then "4"
    else if nat_beq n 5
    then "5"
    else if nat_beq n 6
    then "6"
    else if nat_beq n 7
    then "7"
    else if nat_beq n 8
    then "8"
    else "9"

-- The decimal digits of a number, where `fuel` is above their count.
unfoldable pub digits : ℕ → ℕ → String
digits zero n = ""
digits (suc fuel) n =
    let rest = digits fuel (n / 10) in if leb n 9 then digit n else rest ++ digit (n % 10)

-- str(n); a number has at most as many digits as it says.
unfoldable pub decimal : ℕ → String
unfolding digits
decimal n = digits (suc n) n
