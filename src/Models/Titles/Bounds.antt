-- ===== src/Models/Titles/Bounds.antt =====
-- What a session's title looks like, and when there is none.
use Prim.Native.String.{String, [], ◌∷◌}
use mathlib.Core.List
use claudeagentsdk_cloudrun.Prelude.{
  ℕ, suc, ◌≤◌, ◌≡◌, refl, false, arith, all, nat_beq, if◌then◌else◌, Bool-cases, inl, inr,
}
use claudeagentsdk_cloudrun.Errors.{error, value_error}
use claudeagentsdk_cloudrun.Exec.{Result, ok, err}
use claudeagentsdk_cloudrun.Text.{
  is_empty, is_blank, strip, collapse, collapse_from, is_space, split_lines, length, take,
}
use claudeagentsdk_cloudrun.Text.Laws.{length-take-le}
use claudeagentsdk_cloudrun.Models.Titles.{normalized_line, first_title, normalize_session_title}

is_empty-collapse : (s : String) → is_empty (collapse s) ≡ is_empty s
unfolding collapse collapse_from
is_empty-collapse [] = refl
is_empty-collapse (c ∷ s) = elim (Bool-cases (is_space c)) [ inl e ↦ rw e refl | inr e ↦ rw e refl ]

take-nonempty : (n : ℕ) (s : String) → is_empty s ≡ false → 1 ≤ length (take (suc n) s)
take-nonempty n [] h = ground arith
take-nonempty n (c ∷ s) h = omega arith

-- A title within its bounds.
abbrev pub IsTitle : ℕ → Result String → Type 0
IsTitle n (ok t) = (1 ≤ length t) × (length t ≤ n)
IsTitle n (err e) = ⊥

abbrev pub no_line : Result String
no_line = err (error value_error "prompt must contain a non-whitespace line")

first_title_lem :
    (n : ℕ) (lines : List.List String)
    → if all is_blank lines
      then first_title (suc n) lines ≡ no_line
      else IsTitle (suc n) (first_title (suc n) lines)
unfolding first_title normalized_line
first_title_lem n List.List.[] = refl
first_title_lem n (List.List.◌∷◌ line lines) = elim (Bool-cases (is_blank line)) [
  | inl e ↦ rw (e, is_empty-collapse, e) (first_title_lem n lines)
  | inr e ↦
      rw (e, is_empty-collapse, e)
        (
          take-nonempty n (collapse (strip line)) (rw is_empty-collapse e),
          length-take-le (suc n) (collapse (strip line)),
        )
]

-- With a positive bound a title is made exactly where some line of the prompt is not blank, and
-- then it has at least one character and at most the bound's number; otherwise a ValueError says
-- so.
pub normalize_session_title_lem :
    (prompt : String) (n : ℕ)
    → if all is_blank (split_lines prompt)
      then normalize_session_title prompt (suc n) ≡ no_line
      else IsTitle (suc n) (normalize_session_title prompt (suc n))
unfolding normalize_session_title
normalize_session_title_lem prompt n =
    let positive : nat_beq (suc n) 0 ≡ false = ground arith in
    rw positive (first_title_lem n (split_lines prompt))
