-- ===== src/Chat/Interactions/Open.antt =====
-- Which questions a log of events leaves open.
pub mod Log
use claudeagentsdk_cloudrun.Prelude.{
  ◌≡◌, refl, sym, ap, ◌∙◌, ◌↔◌, ◌⊎◌, inl, inr, String, Bool, true, false, ◌&&◌, List, [], ◌∷◌, ◌++◌,
  Option, none, some, arith, All, string_eq, Bool-cases,
}
use claudeagentsdk_cloudrun.Prelude.Members.{In, In-sort}
use claudeagentsdk_cloudrun.Prelude.Sorting.{sort, IsSorted, sort-IsSorted}
use claudeagentsdk_cloudrun.Exec.{Result, ok, err}
use claudeagentsdk_cloudrun.Dict.{Dict, get, values, get-put, get-remove, get-put_self}
use claudeagentsdk_cloudrun.Dict.Distinct.{
  IsDistinct, IsOwn, put-IsDistinct, remove-IsDistinct, put-IsOwn, remove-IsOwn, In-values,
}
use claudeagentsdk_cloudrun.Models.Json.{Json}
use claudeagentsdk_cloudrun.Models.Questions.{QuestionRequest}
use claudeagentsdk_cloudrun.Models.Questions.Batches.{by_ordinal}
use claudeagentsdk_cloudrun.Models.Questions.Batches.Order.{by_ordinal-IsWeakOrder}
use claudeagentsdk_cloudrun.Chat.Events.{CommonChatEvent, is_question}
use claudeagentsdk_cloudrun.Chat.Tasks.{TaskState}
use claudeagentsdk_cloudrun.Chat.Interactions.{
  InteractionState, common_lt, note_question, open_questions, reduce_tasks, interaction_state,
  with_tasks,
}
use claudeagentsdk_cloudrun.Chat.Interactions.Open.Log.{IsOpen, open_questions-get}

note-IsIndexed :
    (t : String) (found : Option QuestionRequest) (d : Dict String QuestionRequest)
    → IsDistinct d × IsOwn (λ q. q.id) d
    → IsDistinct (note_question t found d) × IsOwn (λ q. q.id) (note_question t found d)
note-IsIndexed t none d h = h
note-IsIndexed t (some q) d h = elim (Bool-cases (string_eq.beq t "question_pending")) [
  | inl asked ↦ rw asked (put-IsDistinct d q.id q h.0, put-IsOwn (λ p. p.id) d q h.1)
  | inr elsewise ↦ elim (Bool-cases (string_eq.beq t "question_answered")) [
    | inl answered ↦
        rw (elsewise, answered) (remove-IsDistinct d q.id h.0, remove-IsOwn (λ p. p.id) d q.id h.1)
    | inr neither ↦ rw (elsewise, neither) h
  ]
]

open_questions-IsIndexed :
    (log : List CommonChatEvent) (d : Dict String QuestionRequest)
    → IsDistinct d × IsOwn (λ q. q.id) d
    → IsDistinct (open_questions log d) × IsOwn (λ q. q.id) (open_questions log d)
unfolding open_questions
open_questions-IsIndexed [] d h = h
open_questions-IsIndexed (e ∷ log) d h =
    open_questions-IsIndexed log _ (note-IsIndexed e.raw_type e.question d h)

-- The questions that a log leaves open.
pub listed-IsOpen :
    (log : List CommonChatEvent) (q : QuestionRequest)
    → In q (sort by_ordinal (values (open_questions log []))) ↔ IsOpen q log
unfolding get
listed-IsOpen log q =
    let d = open_questions log [] in
    let (distinct, own) = open_questions-IsIndexed log [] (tt, tt) in
    let found = In-values d (λ p. p.id) q distinct own in
    let asking = open_questions-get log [] q in
    let sorted = In-sort by_ordinal q (values d) in
    (
      λ h. elim (asking.0 (found.0 (sorted.0 h))) [ inl o ↦ o | inr (here, later) ↦ cc here ],
      λ o. sorted.1 (found.1 (asking.1 (inl o))),
    )

abbrev pending_of : Result InteractionState → List QuestionRequest
pending_of (ok state) = state.pending_questions
pending_of (err e) = []

module _ (loads : String → Option Json) (repr : Json → String) where
  pending-with_tasks :
      (log : List CommonChatEvent) (tasks : Result (Dict String TaskState))
      (state : InteractionState)
      → with_tasks loads repr log tasks ≡ ok state
      → sort by_ordinal (values (open_questions log [])) ≡ state.pending_questions
  pending-with_tasks log (ok tasks) state done = ap pending_of done
  pending-with_tasks log (err e) state done = cc

  -- Where the events can be replayed, the pending questions that a frontend shows are in the order of
  -- their numbers. They are those that the events ask, in their order by sequence and identifier,
  -- with no later event that asks or answers a question of the same identifier; and they are all of
  -- those.
  pub interaction_state-questions :
      (events : List CommonChatEvent) (state : InteractionState)
      → interaction_state loads repr events ≡ ok state
      → IsSorted by_ordinal state.pending_questions
        × ((q : QuestionRequest) → In q state.pending_questions ↔ IsOpen q (sort common_lt events))
  unfolding interaction_state
  interaction_state-questions events state done =
      let log = sort common_lt events in
      let asked = values (open_questions log []) in
      rw⁻¹ (pending-with_tasks log (reduce_tasks loads repr log) state done)
        (sort-IsSorted by_ordinal by_ordinal-IsWeakOrder asked, listed-IsOpen log)
