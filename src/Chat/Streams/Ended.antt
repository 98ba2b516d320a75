-- ===== src/Chat/Streams/Ended.antt =====
-- A run that has ended lets the stream end.
use claudeagentsdk_cloudrun.Prelude.{
  ℕ, suc, ◌<◌, ◌≡◌, refl, sym, inl, inr, Bool, true, false, List, [], ◌∷◌, All, Option, append-nil,
  arith, length, subst, Bool-cases, if◌then◌else◌,
}
use claudeagentsdk_cloudrun.Exec.{Result, ok}
use claudeagentsdk_cloudrun.Text.Search.{is_in}
use claudeagentsdk_cloudrun.Models.Json.{Fields}
use claudeagentsdk_cloudrun.Models.RunStates.{terminal}
use claudeagentsdk_cloudrun.Models.Records.{Time, ChatEvent, Run}
use claudeagentsdk_cloudrun.Models.Questions.{QuestionRequest}
use claudeagentsdk_cloudrun.Chat.Events.{ChatEventKind, CommonChatEvent, normalize_event}
use claudeagentsdk_cloudrun.Chat.Streams.{
  Round, Feed, Next, registered, goes_on, returns, raises, received, after_event, queue_turn,
  subscribed_turn, subscribing_turn, turn, stream,
}

-- In this round a subscription is accepted, no event comes, and the run is read and has ended.
pub record IsOver (round : Round) : Type 0 where
  pub run : Run
  pub accepted : round.subscription ≡ registered []
  pub quiet : round.arrivals ≡ []
  pub read : round.run ≡ ok run
  pub ended : terminal run.state ≡ true

-- Where the loop goes on, fewer than n events wait.
abbrev Shrinks : ℕ → Next → Type 0
Shrinks n (goes_on after) = length after.queue < n
Shrinks n (returns closing) = Unit
Shrinks n (raises e) = ⊥

module _ (read_question : Fields → Option QuestionRequest) (now : Time) where
  after-Shrinks :
      (kind : ChatEventKind) (self : Feed) (run : Run) (n : ℕ)
      → terminal run.state ≡ true
      → length self.queue < n
      → Shrinks n (after_event read_question now kind self (ok run))
  after-Shrinks kind self run n over h =
      elim kind as (λ kind. Shrinks n (after_event read_question now kind self (ok run))) [
        | ChatEventKind.final ↦ rw over tt
        | ChatEventKind.terminal ↦ tt
        | _ ↦ h
      ]

  queue-Shrinks :
      (self : Feed) (queue : List ChatEvent) (run : Run)
      → terminal run.state ≡ true
      → Shrinks (length queue) (queue_turn read_question now self queue (ok run)).1
  unfolding normalize_event
  queue-Shrinks self [] run over = rw over tt
  queue-Shrinks self (event ∷ rest) run over = elim (Bool-cases (is_in self.seen event.id)) [
    | inl old ↦ rw old (omega arith)
    | inr new ↦ rw new (after-Shrinks _ _ run (suc (length rest)) over (omega arith))
  ]

  filled-Shrinks :
      (self : Feed) (arrivals : List ChatEvent) (answer : Result Run) (run : Run)
      → arrivals ≡ []
      → answer ≡ ok run
      → terminal run.state ≡ true
      → let filled = received arrivals self in
        Shrinks (length self.queue) (queue_turn read_question now filled filled.queue answer).1
  filled-Shrinks self arrivals answer run quiet read over =
      rw (quiet, read, append-nil self.queue) (queue-Shrinks self self.queue run over)

  subscribed-Shrinks :
      (self : Feed) (round : Round)
      → IsOver round
      → Shrinks (length self.queue) (subscribed_turn read_question now self round).1
  subscribed-Shrinks self round over =
      filled-Shrinks self round.arrivals round.run over.run over.quiet over.read over.ended

  subscribing-Shrinks :
      (self : Feed) (round : Round)
      → IsOver round
      → Shrinks
          (length self.queue)
          (subscribing_turn read_question now self round.subscription round).1
  subscribing-Shrinks self round over =
      let fresh = record (received [] self) { subscribed = true } in
      subst (λ s. Shrinks (length self.queue) (subscribing_turn read_question now self s round).1)
        (sym over.accepted)
        (subst (λ q. Shrinks (length q) (subscribed_turn read_question now fresh round).1)
          (append-nil self.queue) (subscribed-Shrinks fresh round over))

  if-Shrinks :
      (n : ℕ) (b : Bool) (p q : List CommonChatEvent × Next)
      → Shrinks n p.1
      → Shrinks n q.1
      → Shrinks n (if b then p else q).1
  if-Shrinks n true p q h k = h
  if-Shrinks n false p q h k = k

  turn-Shrinks :
      (self : Feed) (round : Round)
      → IsOver round
      → Shrinks (length self.queue) (turn read_question now self round).1
  unfolding turn
  turn-Shrinks self round over =
      if-Shrinks (length self.queue) self.subscribed _ _ (subscribed-Shrinks self round over)
        (subscribing-Shrinks self round over)

  weaken : (m n : ℕ) (next : Next) → m < suc n → Shrinks m next → Shrinks n next
  weaken m n (goes_on after) h k = omega arith
  weaken m n (returns closing) h k = tt
  weaken m n (raises e) h k = k

  stream_stops :
      (rounds : List Round) (next : Next)
      → All IsOver rounds
      → Shrinks (length rounds) next
      → (closing : List CommonChatEvent) × ((stream read_question now rounds next).1
          ≡ returns closing)
  unfolding stream
  stream_stops [] (goes_on self) over h = absurd (omega arith)
  stream_stops [] (returns closing) over h = (closing, refl)
  stream_stops [] (raises e) over h = absurd h
  stream_stops (round ∷ rounds) (goes_on self) over h =
      stream_stops rounds (turn read_question now self round).1 over.1
        (weaken (length self.queue) (length rounds) _ h (turn-Shrinks self round over.0))
  stream_stops (round ∷ rounds) (returns closing) over h = (closing, refl)
  stream_stops (round ∷ rounds) (raises e) over h = absurd h

  -- From any point of the loop on: let there be more rounds than events in the queue, and let the run
  -- have ended in all of them, with the subscription accepted, no further event and no error. Then
  -- the stream returns.
  pub stream_ends :
      (rounds : List Round) (self : Feed)
      → All IsOver rounds
      → length self.queue < length rounds
      → (closing : List CommonChatEvent) × ((stream read_question now rounds (goes_on self)).1
          ≡ returns closing)
  stream_ends rounds self over enough = stream_stops rounds (goes_on self) over enough
