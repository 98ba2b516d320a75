-- ===== src/Models/Questions/Answers/Accepted.antt =====
-- What an accepted answer looks like, and that it is accepted again as it is.
use claudeagentsdk_cloudrun.Prelude.{
  ◌≤◌, String, ◌≡◌, refl, subst, Bool, true, false, List, [], ◌∷◌, arith, length, all, ◌⊎◌, inl,
  inr, All, string_eq, Bool-cases,
}
use claudeagentsdk_cloudrun.Exec.{ok}
use claudeagentsdk_cloudrun.Text.{strip, is_blank}
use claudeagentsdk_cloudrun.Text.Laws.{strip_idem}
use claudeagentsdk_cloudrun.Models.Questions.{QuestionRequest, contains, all_distinct}
use claudeagentsdk_cloudrun.Models.Questions.Answers.{
  Answers, texts, raw, normalize, labels, check_answers, validate_answers,
}

-- A text that is not blank and has no white space at its ends.
abbrev pub IsClean : String → Type 0
IsClean s = (is_blank s ≡ false) × (strip s ≡ s)

normalize-IsClean : (ss : List String) → All IsClean (normalize ss)
unfolding normalize
normalize-IsClean [] = tt
normalize-IsClean (s ∷ ss) = elim (Bool-cases (is_blank s)) [
  | inl blank ↦ rw blank (normalize-IsClean ss)
  | inr some_text ↦ rw some_text ((rw strip_idem some_text, strip_idem s), normalize-IsClean ss)
]

normalize_of_IsClean : (ss : List String) → All IsClean ss → normalize ss ≡ ss
unfolding normalize
normalize_of_IsClean [] h = refl
normalize_of_IsClean (s ∷ ss) h = rw (h.0.0, h.0.1, normalize_of_IsClean ss h.1)

-- The values are known labels, or one text; there is one where the question takes one.
pub record IsAccepted (known : List String) (multi_select : Bool) (vs : List String) : Type 0 where
  pub clean : All IsClean vs
  pub some_answer : 1 ≤ length vs
  pub distinct : all_distinct vs ≡ true
  pub allowed : (all (contains known) vs ≡ true) ⊎ (length vs ≡ 1)
  pub single : multi_select ≡ false → length vs ≡ 1

check_answers-same :
    (known : List String) (multi_select : Bool) (vs ws : List String)
    → check_answers known multi_select vs ≡ ok ws
    → vs ≡ ws
unfolding check_answers
check_answers-same known multi_select [] ws h = cc
check_answers-same known multi_select (v ∷ vs) ws h = ground arith

check_answers-IsAccepted :
    (known : List String) (multi_select : Bool) (vs ws : List String)
    → All IsClean vs
    → check_answers known multi_select vs ≡ ok ws
    → IsAccepted known multi_select vs
unfolding check_answers
check_answers-IsAccepted known multi_select [] ws clean h = cc
check_answers-IsAccepted known multi_select (v ∷ vs) ws clean h = record {
  clean = clean;
  some_answer = omega arith;
  distinct = ground arith;
  allowed = elim (Bool-cases (all (contains known) (v ∷ vs))) [
    | inl known_all ↦ inl known_all
    | inr free_text ↦ inr (ground (arith, free_text))
  ];
  single = λ one. ground arith;
}

-- An answer that is accepted is at least one text, none blank or with white space at its ends and
-- no two the same; they are all labels of the question's options, or it is one text; it is one
-- where the question takes one. Given again as it is, the same question accepts it as it is.
pub validate_answers_stable :
    (q : QuestionRequest) (answers : Answers) (vs : List String)
    → validate_answers q answers ≡ ok vs
    → IsAccepted (labels q.options) q.multi_select vs × (validate_answers q (texts vs) ≡ ok vs)
unfolding validate_answers
validate_answers_stable q answers vs h =
    let clean = normalize-IsClean (raw answers) in
    let same =
      check_answers-same (labels q.options) q.multi_select (normalize (raw answers)) vs h in
    (
      subst (IsAccepted (labels q.options) q.multi_select) same (
          check_answers-IsAccepted (labels q.options) q.multi_select (normalize (raw answers)) vs
            clean h),
      rw (normalize_of_IsClean vs (subst (All IsClean) same clean))
          (subst (λ x. check_answers (labels q.options) q.multi_select x ≡ ok vs) same h),
    )
