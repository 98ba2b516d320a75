-- ===== src/Chat/Streams/Once.antt =====
-- No stored event is yielded twice.
use claudeagentsdk_cloudrun.Prelude.{
  ◌≡◌, refl, inl, inr, String, Bool, true, false, List, [], ◌∷◌, ◌++◌, Option, subst, Bool-cases,
  if◌then◌else◌,
}
use claudeagentsdk_cloudrun.Errors.{Error}
use claudeagentsdk_cloudrun.Exec.{Result, ok, err}
use claudeagentsdk_cloudrun.Text.Search.{is_in}
use claudeagentsdk_cloudrun.Models.Json.{Fields}
use claudeagentsdk_cloudrun.Models.RunStates.{terminal}
use claudeagentsdk_cloudrun.Models.Records.{Time, ChatEvent, Run}
use claudeagentsdk_cloudrun.Models.Questions.{QuestionRequest}
use claudeagentsdk_cloudrun.Chat.Events.{ChatEventKind, CommonChatEvent, normalize_event}
use claudeagentsdk_cloudrun.Chat.Streams.{
  Subscription, Round, Feed, Next, registered, lost, refused, goes_on, returns, raises, received,
  empty_turn, final_turn, after_event, event_turn, queue_turn, subscribing_turn, turn, stream,
}

-- The identifier of each event is none of the known ones and none of an earlier event.
abbrev pub IsFresh : List String → List CommonChatEvent → Type 0
IsFresh known [] = Unit
IsFresh known (e ∷ es) = (is_in known e.id ≡ false) × IsFresh (e.id ∷ known) es

-- The events are fresh, and a loop that goes on remembers them.
abbrev IsGood : List String → List CommonChatEvent × Next → Type 0
IsGood known ([], goes_on after) = after.seen ≡ known
IsGood known ([], next) = Unit
IsGood known (e ∷ [], goes_on after) = (is_in known e.id ≡ false) × (after.seen ≡ e.id ∷ known)
IsGood known (e ∷ [], next) = is_in known e.id ≡ false
IsGood known (e ∷ f ∷ es, next) = ⊥

module _ (read_question : Fields → Option QuestionRequest) (now : Time) where
  if-IsGood :
      (known : List String) (b : Bool) (p q : List CommonChatEvent × Next)
      → IsGood known p
      → IsGood known q
      → IsGood known (if b then p else q)
  if-IsGood known true p q h k = h
  if-IsGood known false p q h k = k

  empty-IsGood :
      (self : Feed) (run : Result Run) → IsGood self.seen (empty_turn read_question now self run)
  empty-IsGood self (err e) = tt
  empty-IsGood self (ok run) = if-IsGood self.seen (terminal run.state) _ _ tt refl

  final-IsGood :
      (known : List String) (e : CommonChatEvent) (next : Feed) (run : Result Run)
      → is_in known e.id ≡ false
      → next.seen ≡ e.id ∷ known
      → IsGood known (e ∷ [], final_turn read_question now next run)
  final-IsGood known e next (err x) h k = h
  final-IsGood known e next (ok run) h k = elim (Bool-cases (terminal run.state)) [
    | inl over ↦ rw over h
    | inr active ↦ rw active (h, k)
  ]

  fresh-IsGood :
      (known : List String) (e : CommonChatEvent) (kind : ChatEventKind) (next : Feed)
      (run : Result Run)
      → is_in known e.id ≡ false
      → next.seen ≡ e.id ∷ known
      → IsGood known (e ∷ [], after_event read_question now kind next run)
  fresh-IsGood known e kind next run h k =
      elim kind as (λ kind. IsGood known (e ∷ [], after_event read_question now kind next run)) [
        | ChatEventKind.final ↦ final-IsGood known e (record next { final_seen = true }) run h k
        | ChatEventKind.terminal ↦ h
        | _ ↦ (h, k)
      ]

  event-IsGood :
      (self : Feed) (event : ChatEvent) (rest : List ChatEvent) (run : Result Run)
      → IsGood self.seen (event_turn read_question now self event rest run)
  unfolding normalize_event
  event-IsGood self event rest run = elim (Bool-cases (is_in self.seen event.id)) [
    | inl old ↦ rw old refl
    | inr new ↦
        rw new (fresh-IsGood self.seen (normalize_event read_question event) _ _ run new refl)
  ]

  queue-IsGood :
      (self : Feed) (queue : List ChatEvent) (run : Result Run)
      → IsGood self.seen (queue_turn read_question now self queue run)
  queue-IsGood self [] run = empty-IsGood self run
  queue-IsGood self (event ∷ rest) run = event-IsGood self event rest run

  subscribing-IsGood :
      (self : Feed) (subscription : Subscription) (round : Round)
      → IsGood self.seen (subscribing_turn read_question now self subscription round)
  subscribing-IsGood self (registered events) round =
      queue-IsGood (received round.arrivals (record (received events self) { subscribed = true })) _
        round.run
  subscribing-IsGood self (lost events) round = refl
  subscribing-IsGood self (refused events e) round = tt

  turn-IsGood : (self : Feed) (round : Round) → IsGood self.seen (turn read_question now self round)
  unfolding turn
  turn-IsGood self round =
      if-IsGood self.seen self.subscribed _ _
        (queue-IsGood (received round.arrivals self) _ round.run)
        (subscribing-IsGood self round.subscription round)

  after_returns :
      (rounds : List Round) (closing : List CommonChatEvent)
      → (stream read_question now rounds (returns closing)).0 ≡ []
  unfolding stream
  after_returns [] closing = refl
  after_returns (round ∷ rounds) closing = refl

  after_raises :
      (rounds : List Round) (e : Error) → (stream read_question now rounds (raises e)).0 ≡ []
  unfolding stream
  after_raises [] e = refl
  after_raises (round ∷ rounds) e = refl

  -- What follows a turn that yields fresh events is fresh too.
  IsFresh-last :
      (known : List String) (events later : List CommonChatEvent) (last : Next)
      → ((after : Feed) → last ≡ goes_on after → ⊥)
      → IsGood known (events, last)
      → later ≡ []
      → IsFresh known (events ++ later)
  IsFresh-last known [] later last stops good none_later = rw none_later tt
  IsFresh-last known (e ∷ []) later (goes_on after) stops good none_later =
      absurd (stops after refl)
  IsFresh-last known (e ∷ []) later (returns closing) stops good none_later =
      (good, rw none_later tt)
  IsFresh-last known (e ∷ []) later (raises x) stops good none_later = (good, rw none_later tt)
  IsFresh-last known (e ∷ f ∷ es) later last stops good none_later = absurd good

  IsFresh-after :
      (known : List String) (events : List CommonChatEvent) (next : Next) (rounds : List Round)
      → IsGood known (events, next)
      → ((after : Feed)
          → next ≡ goes_on after
          → IsFresh after.seen (stream read_question now rounds next).0)
      → IsFresh known (events ++ (stream read_question now rounds next).0)
  IsFresh-after known [] (goes_on after) rounds good rest =
      subst (λ seen. IsFresh seen (stream read_question now rounds (goes_on after)).0) good
        (rest after refl)
  IsFresh-after known (e ∷ []) (goes_on after) rounds good rest = (
    good.0,
    subst (λ seen. IsFresh seen (stream read_question now rounds (goes_on after)).0) good.1
        (rest after refl),
  )
  IsFresh-after known (e ∷ f ∷ es) (goes_on after) rounds good rest = absurd good
  IsFresh-after known events (returns closing) rounds good rest =
      IsFresh-last known events _ (returns closing) (λ after same. cc same) good
        (after_returns rounds closing)
  IsFresh-after known events (raises x) rounds good rest =
      IsFresh-last known events _ (raises x) (λ after same. cc same) good (after_raises rounds x)

  -- From any point of the loop on and whatever its environment does: no stored event that it yields has
  -- the identifier of one that was yielded before, be it before that point or after.
  pub stream-IsFresh :
      (rounds : List Round) (self : Feed)
      → IsFresh self.seen (stream read_question now rounds (goes_on self)).0
  unfolding stream
  stream-IsFresh [] self = tt
  stream-IsFresh (round ∷ rounds) self =
      let (events, next) = turn read_question now self round in
      IsFresh-after self.seen events next rounds (turn-IsGood self round)
        (λ after went. rw went (stream-IsFresh rounds after))
