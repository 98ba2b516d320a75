-- ===== src/InMemory/Questions/Once.antt =====
-- A question is answered once.
use claudeagentsdk_cloudrun.Prelude.{
  ℕ, String, ◌≡◌, ◌∙◌, refl, sym, ap, Bool, true, false, ◌&&◌, List, [], ◌∷◌, Option, none, some,
  arith, Option-cases, Bool-cases, inl, inr, nat_eq, pair_eq, string_eq, option_eq, list_eq, map,
  ◌++◌, append-nil, append_assoc,
}
use claudeagentsdk_cloudrun.Errors.{error, question_conflict}
use claudeagentsdk_cloudrun.Exec.{Result, ok, err, pure, continue, ◌>>◌}
use claudeagentsdk_cloudrun.Dict.{get, put, get-put_self}
use claudeagentsdk_cloudrun.Text.{is_blank}
use claudeagentsdk_cloudrun.Models.Records.{Uuid, Run, ChatEvent}
use claudeagentsdk_cloudrun.Models.Questions.{QuestionRequest, QuestionState}
use claudeagentsdk_cloudrun.Models.Questions.Answers.{Answers, validate_answers}
use claudeagentsdk_cloudrun.InMemory.State.{Store, Callback, question_to, or_nil}
use claudeagentsdk_cloudrun.InMemory.Events.{append_event}
use claudeagentsdk_cloudrun.InMemory.Events.Order.{append_event-known, append_event-new}
use claudeagentsdk_cloudrun.InMemory.Questions.{
  notify, answered_event, answer_question_for_job, answer_in, open_state, visible, question_in,
  visible_only,
}

-- The stored question for the same key and values, a conflict for others.
abbrev pub again_result : QuestionRequest → String → Bool → Result QuestionRequest
again_result q id true = ok q
again_result q id false = err (error question_conflict id)

abbrev is_repeat : QuestionRequest → String → List String → Bool
is_repeat q key vs =
    option_eq.beq q.answer_idempotency_key (some key) && option_eq.beq q.answers (some vs)

answer_in-answered :
    (r : Uuid) (id key : String) (vs : List String) (q : QuestionRequest) (s : Store)
    → answer_in r id q vs key QuestionState.answered s ≡ (again_result q id (is_repeat q key vs), s)
unfolding answer_in
answer_in-answered r id key vs q s = elim (Bool-cases (is_repeat q key vs)) [
  | inl e ↦ rw e refl
  | inr e ↦ rw e refl
]

-- A question that is shown, of a run that takes answers.
pub record IsShown (r : Uuid) (id : String) (q : QuestionRequest) (s : Store) : Type 0 where
  pub run : Run
  pub found : get s.runs r ≡ some run
  pub going : open_state run.state ≡ true
  pub shown : visible_only s.clock (question_in s r id) ≡ some q

module _ (r : Uuid) (id key : String) (answers : Answers) (vs : List String) (q : QuestionRequest)
    (s : Store) (here : IsShown r id q s) (said : is_blank key ≡ false)
    (valid : validate_answers q answers ≡ ok vs) where
  to_answer_in : answer_question_for_job r id answers key s ≡ answer_in r id q vs key q.state s
  unfolding answer_question_for_job
  to_answer_in = rw (said, here.found, here.shown, here.going, valid) refl

  again :
      q.state ≡ QuestionState.answered
      → answer_question_for_job r id answers key s ≡ (again_result q id (is_repeat q key vs), s)
  again done =
      to_answer_in
      ∙ ap (λ state. answer_in r id q vs key state s) done
      ∙ answer_in-answered r id key vs q s

abbrev pub answered_with : QuestionRequest → List String → String → ℕ → QuestionRequest
answered_with q vs key now = record q {
  state = QuestionState.answered;
  answers = some vs;
  answer_idempotency_key = some key;
  answered_at = some now;
}

module _ (event : ChatEvent) (s : Store) where
  append_event-frame :
      ((append_event event s).1.runs ≡ s.runs)
      × ((append_event event s).1.questions ≡ s.questions)
      × ((append_event event s).1.clock ≡ s.clock)
  unfolding append_event
  append_event-frame = elim (Option-cases (get s.events event.run_id)) [
    | inl absent ↦ rw absent (refl, refl, refl)
    | inr (d, found) ↦ elim (Option-cases (get d event.id)) [
      | inr (old, known) ↦ rw (append_event-known event d s found old known) (refl, refl, refl)
      | inl new ↦ rw (append_event-new event d s found new) (refl, refl, refl)
    ]
  ]

notify_lem :
    (callbacks : List Callback) (q : QuestionRequest) (s : Store)
    → notify callbacks q s
      ≡ (ok tt, record s { delivered = s.delivered ++ map (λ c. question_to c q) callbacks })
unfolding notify
notify_lem [] q s = rw append-nil refl
notify_lem (c ∷ cs) q s = rw (notify_lem cs q, append_assoc) refl

module _ (r : Uuid) (id key : String) (vs : List String) (q : QuestionRequest) (s : Store) where
  abbrev pub answered : QuestionRequest
  answered = answered_with q vs key s.clock

  -- The store after the answer is written, before the event.
  abbrev written : Store
  written = record s {
    questions = put s.questions r (put (or_nil (get s.questions r)) id answered);
  }

  abbrev event : ChatEvent
  event = answered_event r id answered s.clock

  answered-IsShown :
      (run : Run) (x : Result ChatEvent × Store) (callbacks : List Callback) (a : QuestionRequest)
      → get s.runs r ≡ some run
      → open_state run.state ≡ true
      → visible s.clock q ≡ true
      → (x.1.runs ≡ s.runs) × (x.1.questions ≡ written.questions) × (x.1.clock ≡ s.clock)
      → let y = continue (λ _. notify callbacks answered >> pure answered) x in
        y.0 ≡ ok a → (a ≡ answered) × IsShown r id answered y.1
  answered-IsShown run (err e, u) callbacks a found going seen frame done = cc
  answered-IsShown run (ok _, u) callbacks a found going seen frame done =
      let same : answered ≡ a = cc (rw (notify_lem callbacks answered) at done) in
      rw (notify_lem callbacks answered) (
        sym same,
        record {
          run = run;
          found = rw frame.0 found;
          going = going;
          shown = rw (frame.1, frame.2, get-put_self, get-put_self, seen) refl;
        },
      )

  answer_in-pending :
      (run : Run) (a : QuestionRequest)
      → get s.runs r ≡ some run
      → open_state run.state ≡ true
      → visible s.clock q ≡ true
      → (answer_in r id q vs key QuestionState.pending s).0 ≡ ok a
      → (a ≡ answered) × IsShown r id answered (answer_in r id q vs key QuestionState.pending s).1
  unfolding answer_in
  answer_in-pending run a found going seen done =
      answered-IsShown run (append_event event written)
        (or_nil (get s.question_subscriptions (r, id))) a found going seen
        (append_event-frame event written) done

visible-shown :
    (now : ℕ) (o : Option QuestionRequest) (q : QuestionRequest)
    → visible_only now o ≡ some q
    → visible now q ≡ true
visible-shown now none q h = cc
visible-shown now (some p) q h = ground arith

-- A question that is visible and waits, of a run that takes answers, is answered at most once.
-- When an answer under a key that is not blank is given to it, the stored question has these
-- values, this key and the time; and then, for any answer that the question would accept, under
-- any key that is not blank, the store stays as it is: the same values under the same key give
-- the stored question back, and any other values or key are a conflict.
pub answer_once :
    (r : Uuid) (id key key' : String) (answers answers' : Answers) (vs vs' : List String)
    (q a : QuestionRequest) (s : Store)
    → IsShown r id q s
    → q.state ≡ QuestionState.pending
    → is_blank key ≡ false
    → is_blank key' ≡ false
    → validate_answers q answers ≡ ok vs
    → validate_answers q answers' ≡ ok vs'
    → (answer_question_for_job r id answers key s).0 ≡ ok a
    → let t = (answer_question_for_job r id answers key s).1 in
      (a ≡ answered_with q vs key s.clock)
      × (answer_question_for_job r id answers' key' t
          ≡ (again_result a id (string_eq.beq key key' && list_eq.beq vs vs'), t))
unfolding validate_answers
answer_once r id key key' answers answers' vs vs' q a s here waits said said' valid valid' done =
    let first : answer_question_for_job r id answers key s
        ≡ answer_in r id q vs key QuestionState.pending s =
      to_answer_in r id key answers vs q s here said valid
      ∙ ap (λ state. answer_in r id q vs key state s) waits in
    let (same, shown) =
      answer_in-pending r id key vs q s here.run a here.found here.going
        (visible-shown s.clock (question_in s r id) q here.shown) (rw first at done) in
    (
      same,
      rw (first, same)
          (again r id key' answers' vs' (answered_with q vs key s.clock) _ shown said' valid' refl),
    )
