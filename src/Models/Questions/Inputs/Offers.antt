-- ===== src/Models/Questions/Inputs/Offers.antt =====
-- What a question offers, it accepts.
use claudeagentsdk_cloudrun.Prelude.{
  ℕ, String, ◌≡◌, refl, subst, Bool, true, false, List, [], ◌∷◌, Option, arith, string_eq, all, All,
  Bool-cases, inl, inr,
}
use claudeagentsdk_cloudrun.Exec.{Result, ok, err}
use claudeagentsdk_cloudrun.Text
use claudeagentsdk_cloudrun.Text.{strip, is_blank}
use claudeagentsdk_cloudrun.Text.Laws.{strip_idem}
use claudeagentsdk_cloudrun.Models.Records.{Uuid, Time}
use claudeagentsdk_cloudrun.Models.Questions.{QuestionOption, QuestionRequest, contains}
use claudeagentsdk_cloudrun.Models.Questions.Answers.{
  text, labels, check_answers, normalize, validate_answers,
}
use claudeagentsdk_cloudrun.Models.Questions.Answers.Accepted.{IsClean}
use claudeagentsdk_cloudrun.Models.Questions.Inputs.{
  derive_question_id, checked_text, new_option, new_options, labelled, short, both, can_offer,
  new_question, with_options, from_input,
}

checked_text-IsClean : (n : ℕ) (s t : String) → checked_text n s ≡ ok t → IsClean t
unfolding checked_text
checked_text-IsClean n s t h =
    let said : is_blank s ≡ false = ground arith in
    let same : strip s ≡ t = ground arith in subst IsClean same (rw strip_idem said, strip_idem s)

labelled-IsClean :
    (description : String) (r : Result String) (o : QuestionOption)
    → ((t : String) → r ≡ ok t → IsClean t)
    → labelled description r ≡ ok o
    → IsClean o.label
labelled-IsClean description (err e) o clean h = cc
labelled-IsClean description (ok label) o clean h =
    let same : label ≡ o.label = ground arith in subst IsClean same (clean label refl)

new_option-IsClean :
    (label description : String) (o : QuestionOption)
    → new_option label description ≡ ok o
    → IsClean o.label
unfolding new_option
new_option-IsClean label description o h = elim (Bool-cases (short 4000 description)) [
  | inr long ↦ cc (rw long at h)
  | inl fits ↦
      labelled-IsClean description (checked_text 1000 label) o (checked_text-IsClean 1000 label)
        (rw fits at h)
]

both-IsClean :
    (r : Result QuestionOption) (rest : Result (List QuestionOption)) (os : List QuestionOption)
    → ((o : QuestionOption) → r ≡ ok o → IsClean o.label)
    → ((ps : List QuestionOption) → rest ≡ ok ps → All IsClean (labels ps))
    → both r rest ≡ ok os
    → All IsClean (labels os)
both-IsClean (err e) rest os clean cleans h = cc
both-IsClean (ok o) (err e) os clean cleans h = cc
both-IsClean (ok o) (ok ps) os clean cleans h =
    let same : o ∷ ps ≡ os = ground arith in
    subst (λ x. All IsClean (labels x)) same (clean o refl, cleans ps refl)

new_options-IsClean :
    (options : List (String × String)) (os : List QuestionOption)
    → new_options options ≡ ok os
    → All IsClean (labels os)
unfolding new_options
new_options-IsClean [] os h =
    let same : [] ≡ os = ground arith in subst (λ x. All IsClean (labels x)) same tt
new_options-IsClean ((label, description) ∷ options) os h =
    both-IsClean (new_option label description) (new_options options) os
      (new_option-IsClean label description) (new_options-IsClean options) h

all-contains :
    (P : String → Type 0) (xs : List String) (x : String) → All P xs → contains xs x ≡ true → P x
all-contains P [] x all here = cc
all-contains P (y ∷ ys) x all here = elim (Bool-cases (string_eq.beq y x)) [
  | inl same ↦ subst P ((string_eq.beq_iff y x).0 same) all.0
  | inr other ↦ all-contains P ys x all.1 (rw other at here)
]

-- A label that is clean and known is an answer by itself.
known_accepted :
    (q : QuestionRequest) (label : String)
    → All IsClean (labels q.options)
    → contains (labels q.options) label ≡ true
    → validate_answers q (text label) ≡ ok (label ∷ [])
unfolding validate_answers normalize check_answers
known_accepted q label clean known =
    let own = all-contains IsClean (labels q.options) label clean known in
    rw (own.0, own.1, known) (ground arith)

-- The options of a question that was made are the checked ones, two to four with labels of their own.
record IsOffer (options : Result (List QuestionOption)) (q : QuestionRequest) : Type 0 where
  checked : options ≡ ok q.options
  offer : can_offer q.options ≡ true

new_question-IsOffer :
    (id : String) (run_id : Uuid) (ordinal : ℕ) (question : Result String) (header : String)
    (options : List QuestionOption) (multi_select : Bool) (key : Result String) (created_at : Time)
    (expires_at : Option Time) (q : QuestionRequest)
    → new_question id run_id ordinal question header options multi_select key created_at expires_at
      ≡ ok q
    → IsOffer (ok options) q
new_question-IsOffer id run_id ordinal (err e) header options multi_select key created_at expires_at
      q h =
    cc
new_question-IsOffer id run_id ordinal (ok t) header options multi_select (err e) created_at
      expires_at q h =
    cc
new_question-IsOffer id run_id ordinal (ok t) header options multi_select (ok key) created_at
      expires_at q h =
    record { checked = ground arith; offer = ground arith }

with_options-IsOffer :
    (id : Result String) (options : Result (List QuestionOption))
    (f : String → List QuestionOption → Result QuestionRequest) (q : QuestionRequest)
    → ((i : String) (os : List QuestionOption) → f i os ≡ ok q → IsOffer (ok os) q)
    → with_options id options f ≡ ok q
    → IsOffer options q
with_options-IsOffer (err e) options f q made h = cc
with_options-IsOffer (ok i) (err e) f q made h = cc
with_options-IsOffer (ok i) (ok os) f q made h = made i os h

-- A question that is made from an input has two to four options, whose labels are not blank, have
-- no white space at their ends and are all different; and each label by itself is an answer that
-- the question accepts as it is, whether it takes one answer or several.
pub offered_accepted :
    (sha256 : String → ℕ) (run_id : Uuid) (request_key : String) (ordinal : ℕ)
    (question header : String) (options : List (String × String)) (multi_select : Bool)
    (created_at : Time) (expires_at : Option Time) (q : QuestionRequest) (label : String)
    → from_input sha256 run_id request_key ordinal question header options multi_select created_at
        expires_at
      ≡ ok q
    → contains (labels q.options) label ≡ true
    → (can_offer q.options ≡ true)
      × All IsClean (labels q.options)
      × (validate_answers q (text label) ≡ ok (label ∷ []))
unfolding from_input
offered_accepted sha256 run_id request_key ordinal question header options multi_select created_at
      expires_at q label made known =
    let offer =
      with_options-IsOffer (derive_question_id sha256 run_id request_key ordinal)
        (new_options options) _ q
        (λ i os h.
          new_question-IsOffer i run_id ordinal (checked_text 10000 question) header os multi_select
            (checked_text (Text.length request_key) request_key) created_at expires_at q h)
        made in
    let clean = new_options-IsClean options q.options offer.checked in
    (offer.offer, clean, known_accepted q label clean known)
