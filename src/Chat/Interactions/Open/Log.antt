-- ===== src/Chat/Interactions/Open/Log.antt =====
-- The questions that a log asks and that no later event of it is about, and where the code notes them.
use claudeagentsdk_cloudrun.Prelude.{
  ◌≡◌, refl, sym, ap, ◌∙◌, ◌↔◌, ◌⊎◌, inl, inr, String, Bool, true, false, ◌&&◌, List, [], ◌∷◌, ◌++◌,
  Option, none, some, arith, All, string_eq, Bool-cases,
}
use claudeagentsdk_cloudrun.Dict.{Dict, get, get-put, get-remove, get-put_self}
use claudeagentsdk_cloudrun.Models.Questions.{QuestionRequest}
use claudeagentsdk_cloudrun.Chat.Events.{CommonChatEvent, is_question}
use claudeagentsdk_cloudrun.Chat.Interactions.{note_question, open_questions}

abbrev concerned : String → String → Option QuestionRequest → Bool
concerned id event_type none = false
concerned id event_type (some q) = is_question event_type && string_eq.beq q.id id

-- The event says that the question `id` was asked or answered.
abbrev pub concerns : String → CommonChatEvent → Bool
concerns id event = concerned id event.raw_type event.question

-- The log asks the question, and no later event of it is about the question.
pub record IsOpen (q : QuestionRequest) (log : List CommonChatEvent) : Type 0 where
  pub before : List CommonChatEvent
  pub event : CommonChatEvent
  pub after : List CommonChatEvent
  pub split : log ≡ before ++ event ∷ after
  pub asked : event.raw_type ≡ "question_pending"
  pub question : event.question ≡ some q
  pub later : All (λ e. concerns q.id e ≡ false) after

note-quiet :
    (id t : String) (found : Option QuestionRequest) (d : Dict String QuestionRequest)
    → concerned id t found ≡ false
    → get (note_question t found d) id ≡ get d id
note-quiet id t none d quiet = refl
note-quiet id t (some q) d quiet = ground (arith, get-put d q.id id q, get-remove d q.id id)

note-heard :
    (id t : String) (found : Option QuestionRequest) (d : Dict String QuestionRequest)
    (q : QuestionRequest)
    → concerned id t found ≡ true
    → get (note_question t found d) id ≡ some q
    → (t ≡ "question_pending") × (found ≡ some q)
note-heard id t none d q heard here = cc
note-heard id t (some p) d q heard here =
    ground
      (arith, get-put d p.id id p, get-remove d p.id id, string_eq.beq_iff t "question_pending")

note-asked :
    (t : String) (found : Option QuestionRequest) (d : Dict String QuestionRequest)
    (q : QuestionRequest)
    → t ≡ "question_pending"
    → found ≡ some q
    → get (note_question t found d) q.id ≡ some q
note-asked t found d q asked question = rw (asked, question) (get-put_self d q.id q)

abbrev Untold : QuestionRequest → List CommonChatEvent → Type 0
Untold q log = All (λ e. concerns q.id e ≡ false) log

IsOpen-cons :
    (q : QuestionRequest) (e : CommonChatEvent) (log : List CommonChatEvent)
    → IsOpen q log
    → IsOpen q (e ∷ log)
IsOpen-cons q e log o = record {
  before = e ∷ o.before;
  event = o.event;
  after = o.after;
  split = ap (◌∷◌ e) o.split;
  asked = o.asked;
  question = o.question;
  later = o.later;
}

IsOpen-here :
    (q : QuestionRequest) (e : CommonChatEvent) (log : List CommonChatEvent)
    → e.raw_type ≡ "question_pending"
    → e.question ≡ some q
    → Untold q log
    → IsOpen q (e ∷ log)
IsOpen-here q e log asked question later = record {
  before = [];
  event = e;
  after = log;
  split = refl;
  asked = asked;
  question = question;
  later = later;
}

-- The question is asked in the log, or by the first event.
IsOpen-uncons :
    (q : QuestionRequest) (e : CommonChatEvent) (log before : List CommonChatEvent)
    (event : CommonChatEvent) (after : List CommonChatEvent)
    → e ∷ log ≡ before ++ event ∷ after
    → event.raw_type ≡ "question_pending"
    → event.question ≡ some q
    → Untold q after
    → IsOpen q log ⊎ ((e.raw_type ≡ "question_pending") × (e.question ≡ some q) × Untold q log)
IsOpen-uncons q e log [] event after split asked question later =
    let first : e ≡ event = cc split in
    let rest : log ≡ after = cc split in inr (rw first asked, rw first question, rw rest later)
IsOpen-uncons q e log (b ∷ before) event after split asked question later = inl (record {
  before = before;
  event = event;
  after = after;
  split = cc split;
  asked = asked;
  question = question;
  later = later;
})

-- An empty log asks nothing.
no_split :
    (before : List CommonChatEvent) (event : CommonChatEvent) (after : List CommonChatEvent)
    → [] ≡ before ++ event ∷ after
    → ⊥
no_split [] event after split = cc
no_split (b ∷ before) event after split = cc

pub open_questions-get :
    (log : List CommonChatEvent) (d : Dict String QuestionRequest) (q : QuestionRequest)
    → (get (open_questions log d) q.id ≡ some q)
      ↔ (IsOpen q log ⊎ ((get d q.id ≡ some q) × Untold q log))
unfolding open_questions
open_questions-get [] d q = (
  λ h. inr (h, tt),
  λ h. elim h [
    | inl o ↦ absurd (no_split o.before o.event o.after o.split)
    | inr (here, later) ↦ here
  ],
)
open_questions-get (e ∷ log) d q =
    let now = note_question e.raw_type e.question d in
    let rest = open_questions-get log now q in
    (
      λ h. elim (rest.0 h) [
        | inl o ↦ inl (IsOpen-cons q e log o)
        | inr (here, later) ↦ elim (Bool-cases (concerns q.id e)) [
          | inl heard ↦
              let (asked, question) = note-heard q.id e.raw_type e.question d q heard here in
              inl (IsOpen-here q e log asked question later)
          | inr quiet ↦
              inr (sym (note-quiet q.id e.raw_type e.question d quiet) ∙ here, (quiet, later))
        ]
      ],
      λ h. rest.1 (elim h [
        | inr (here, later) ↦ inr (note-quiet q.id e.raw_type e.question d later.0 ∙ here, later.1)
        | inl o ↦
            elim (IsOpen-uncons q e log o.before o.event o.after o.split o.asked o.question
              o.later) [
                | inl asking ↦ inl asking
                | inr (asked, question, later) ↦
                    inr (note-asked e.raw_type e.question d q asked question, later)
              ]
      ]),
    )
