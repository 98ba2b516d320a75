-- ===== src/JobRunner/Loop/Ends.antt =====
-- The loop over a stream ends in time.
use claudeagentsdk_cloudrun.Prelude.{
  ℕ, ◌≡◌, ◌≢◌, Bool, true, false, ◌||◌, List, [], ◌∷◌, Option, none, some, arith, ltb, leb, any,
  if◌then◌else◌, Bool-cases, inl, inr, All, refl,
}
use claudeagentsdk_cloudrun.Errors.{Error}
use claudeagentsdk_cloudrun.Exec.{
  Exec, Result, ok, err, pure, raise, on_left, attempt, modify, continue, ◌>>=◌, ◌>>◌,
}
use claudeagentsdk_cloudrun.Models.RunStates.{RunState}
use claudeagentsdk_cloudrun.Models.Records.{Time}
use claudeagentsdk_cloudrun.Ports.{ChatStore}
use claudeagentsdk_cloudrun.JobRunner.{JobInvocation, Runner}
use claudeagentsdk_cloudrun.JobRunner.Loop.{
  pending_or_raise, ExecutionLimits, AgentEvent, Round, Turn, waiting, again, done, Waited,
  answer_in_time, wait_for, timeout_of, stop_iterator, after_wait, persist, turn, after_turn, loop,
}

-- The turn does not leave the loop waiting for ever.
abbrev IsGoingOn {ℓ} : {P : Type ℓ} → Result Turn × P → Type 0
IsGoingOn (ok waiting, p) = ⊥
IsGoingOn (ok again, p) = Unit
IsGoingOn (ok (done state), p) = Unit
IsGoingOn (err e, p) = Unit

-- The turn ends the loop.
abbrev IsOver {ℓ} : {P : Type ℓ} → Result Turn × P → Type 0
IsOver (ok waiting, p) = ⊥
IsOver (ok again, p) = ⊥
IsOver (ok (done state), p) = Unit
IsOver (err e, p) = Unit

-- The stream hangs neither when it is cancelled nor when it is closed.
pub record IsLettingGo {S : Type 0} (round : Round S) : Type 0 where
  pub closes : round.closing ≢ none
  pub cancels : round.arrival.when_cancelled ≢ none

record GoesOn {P : Type 0} (m : Exec P Turn) : Type 0 where
  at : (p : P) → IsGoingOn (m p)

module _ {P : Type 0} where
  after-IsGoingOn :
      {A : Type 0} (f : A → Exec P Turn) (x : Result A × P)
      → ((a : A) → GoesOn (f a))
      → IsGoingOn (continue f x)
  after-IsGoingOn f (ok a, q) h = (h a).at q
  after-IsGoingOn f (err e, q) h = tt

  GoesOn-bind :
      {A : Type 0} (m : Exec P A) (f : A → Exec P Turn)
      → ((a : A) → GoesOn (f a))
      → GoesOn (m >>= f)
  GoesOn-bind m f h = record { at = λ p. after-IsGoingOn f (m p) h }

  GoesOn-seq : {A : Type 0} (m : Exec P A) (n : Exec P Turn) → GoesOn n → GoesOn (m >> n)
  GoesOn-seq m n h = record { at = λ p. after-IsGoingOn (λ _. n) (m p) (λ _. h) }

  GoesOn-if : (b : Bool) (m n : Exec P Turn) → GoesOn m → GoesOn n → GoesOn (if b then m else n)
  GoesOn-if true m n h k = h
  GoesOn-if false m n h k = k

  GoesOn-done : (state : RunState) → GoesOn (pure {S = P} (done state))
  GoesOn-done state = record { at = λ p. tt }

  GoesOn-raise : (e : Error) → GoesOn (raise {S = P} e)
  GoesOn-raise e = record { at = λ p. tt }

  GoesOn-again : GoesOn (pure {S = P} again)
  GoesOn-again = record { at = λ p. tt }

  GoesOn-choice :
      (b : Bool) (state : RunState) → GoesOn (pure {S = P} (if b then again else done state))
  GoesOn-choice true state = GoesOn-again
  GoesOn-choice false state = GoesOn-done state

ruleset goes_on = (GoesOn-choice, GoesOn-bind, GoesOn-seq, GoesOn-if, GoesOn-done, GoesOn-again)

module _ {S : Type 0} (store : ChatStore S) (invocation : JobInvocation) where
  persist-GoesOn : (now : Time) (e : AgentEvent) → GoesOn (persist store invocation now e)
  unfolding persist
  persist-GoesOn now e = search goes_on depth 14

  stop-GoesOn :
      (closing : Option (Result (Unit {0}))) (state : RunState)
      → closing ≢ none
      → GoesOn (stop_iterator store invocation closing state)
  unfolding stop_iterator
  stop-GoesOn none state closes = absurd (closes refl)
  stop-GoesOn (some (ok closed)) state closes = GoesOn-done state
  stop-GoesOn (some (err e)) state closes = GoesOn-raise e

  module _ (round : Round S) (limits : ExecutionLimits) (pending_question : Bool) where
    after : Option Waited → Exec (S × Runner) Turn
    after w = after_wait store invocation round (some limits) pending_question w

    abbrev beat : Exec (S × Runner) Bool
    beat = on_left (store.heartbeat_run invocation.run_id invocation.execution_identity)

    module _ (lets_go : IsLettingGo round) where
      after-GoesOn : (w : Waited) → GoesOn (after (some w))
      unfolding after after_wait
      after-GoesOn (Waited.got e) = persist-GoesOn round.now e
      after-GoesOn Waited.ended = GoesOn-done RunState.running
      after-GoesOn (Waited.failed e) = GoesOn-raise e
      after-GoesOn Waited.timed_out = elim (Bool-cases pending_question) [
        | inl waits ↦ rw waits (GoesOn-bind beat _ λ beating. GoesOn-choice beating RunState.failed)
        | inr free ↦ rw free (stop-GoesOn round.closing RunState.timed_out lets_go.closes)
      ]

      answer_in_time-GoesOn :
          (answer : Option (ℕ × Waited)) (cancelled : Option Waited) (timeout : ℕ)
          → cancelled ≢ none
          → GoesOn (after (answer_in_time answer cancelled (some timeout)))
      answer_in_time-GoesOn answer none timeout answers = absurd (answers refl)
      answer_in_time-GoesOn none (some w) timeout answers = after-GoesOn w
      answer_in_time-GoesOn (some (delay, v)) (some w) timeout answers =
          elim (Bool-cases (ltb timeout delay)) [
            | inl slow ↦ rw slow (after-GoesOn w)
            | inr fast ↦ rw fast (after-GoesOn v)
          ]

      waited-GoesOn :
          GoesOn (
            after
              (wait_for round.arrival (timeout_of (some limits) round.elapsed pending_question)))
      unfolding wait_for timeout_of
      waited-GoesOn =
          answer_in_time-GoesOn round.arrival.answer round.arrival.when_cancelled _ lets_go.cancels

  turn-GoesOn :
      (limits : ExecutionLimits) (round : Round S)
      → IsLettingGo round
      → GoesOn (turn store invocation (some limits) round)
  unfolding turn after
  turn-GoesOn limits round lets_go = record {
    at = λ p. elim (Bool-cases (p.1.shutdown_requested || round.shutdown)) [
      | inl stop ↦ rw stop ((stop-GoesOn round.closing RunState.cancelled lets_go.closes).at _)
      | inr on ↦ elim (Bool-cases (leb limits.max_runtime round.elapsed)) [
        | inl over ↦
            rw (on, over) ((stop-GoesOn round.closing RunState.timed_out lets_go.closes).at _)
        | inr early ↦
            rw (on, early)
              ((GoesOn-bind (attempt (on_left (store.list_questions_for_job invocation.run_id))) _
                  λ questions.
                    GoesOn-bind (pending_or_raise store invocation questions) _ λ pending_question.
                      GoesOn-seq (modify (λ q. (round.others q.0, q.1))) _
                        (waited-GoesOn round limits pending_question lets_go)).at
                _)
      ]
    ];
  }

  stop-IsOver :
      (closing : Option (Result (Unit {0}))) (state : RunState) (p : S × Runner)
      → closing ≢ none
      → IsOver (stop_iterator store invocation closing state p)
  unfolding stop_iterator
  stop-IsOver none state p closes = closes refl
  stop-IsOver (some (ok closed)) state p closes = tt
  stop-IsOver (some (err e)) state p closes = tt

  -- A turn that begins when the time is over ends the loop.
  turn-IsOver :
      (limits : ExecutionLimits) (round : Round S) (p : S × Runner)
      → leb limits.max_runtime round.elapsed ≡ true
      → IsLettingGo round
      → IsOver (turn store invocation (some limits) round p)
  unfolding turn
  turn-IsOver limits round p over lets_go =
      elim (Bool-cases (p.1.shutdown_requested || round.shutdown)) [
        | inl stop ↦ rw stop (stop-IsOver round.closing RunState.cancelled _ lets_go.closes)
        | inr on ↦ rw (on, over) (stop-IsOver round.closing RunState.timed_out _ lets_go.closes)
      ]

  after_turn-ends :
      (next : S × Runner → Option (Result RunState × (S × Runner))) (x : Result Turn × (S × Runner))
      → IsGoingOn x
      → ((p : S × Runner) → next p ≢ none)
      → after_turn store invocation next x ≢ none
  after_turn-ends next (err e, p) on ends h = cc
  after_turn-ends next (ok waiting, p) on ends h = absurd on
  after_turn-ends next (ok again, p) on ends h = ends p h
  after_turn-ends next (ok (done state), p) on ends h = cc

  after_turn-IsOver :
      (next : S × Runner → Option (Result RunState × (S × Runner))) (x : Result Turn × (S × Runner))
      → IsOver x
      → after_turn store invocation next x ≢ none
  after_turn-IsOver next (err e, p) over h = cc
  after_turn-IsOver next (ok waiting, p) over h = absurd over
  after_turn-IsOver next (ok again, p) over h = absurd over
  after_turn-IsOver next (ok (done state), p) over h = cc

  -- With limits on the run, and where the stream takes a cancellation and its aclose comes to an end
  -- (both may raise), the loop comes to an end, whatever the store answers, whatever the stream gives
  -- or raises, however late, and whatever others do to the store meanwhile, as soon as one round begins
  -- at or after the longest run time.
  pub loop_ends :
      (limits : ExecutionLimits) (rounds : List (Round S)) (p : S × Runner)
      → All IsLettingGo rounds
      → any (λ round. leb limits.max_runtime round.elapsed) rounds ≡ true
      → loop store invocation (some limits) rounds p ≢ none
  unfolding loop
  loop_ends limits [] p let_go some_over = cc
  loop_ends limits (round ∷ rounds) p (lets_go, rest) some_over =
      elim (Bool-cases (leb limits.max_runtime round.elapsed)) [
        | inl over ↦
            after_turn-IsOver (loop store invocation (some limits) rounds) _
              (turn-IsOver limits round p over lets_go)
        | inr early ↦
            after_turn-ends (loop store invocation (some limits) rounds) _
              ((turn-GoesOn limits round lets_go).at p)
              (λ q. loop_ends limits rounds q rest (ground arith))
      ]
