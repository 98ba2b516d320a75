-- ===== src/Control/Feed/Catchup.antt =====
-- What a client is called with when it subscribes: catching up, and the replay of the subscription.
use claudeagentsdk_cloudrun.Prelude.{
  String, ◌≡◌, refl, true, false, not, ◌&&◌, ◌||◌, List, [], ◌∷◌, ◌++◌, Option, arith, ◌∙◌,
  string_eq, nat_eq, Bool-cases, inl, inr,
}
use claudeagentsdk_cloudrun.Prelude.Sorting.{sort, insort}
use claudeagentsdk_cloudrun.Errors.{Error}
use claudeagentsdk_cloudrun.Exec.{Exec, ok, err, Result-cases}
use claudeagentsdk_cloudrun.Dict.{get, put}
use claudeagentsdk_cloudrun.Models.Records.{Uuid, ChatEvent}
use claudeagentsdk_cloudrun.Models.Questions.{contains, all_distinct}
use claudeagentsdk_cloudrun.InMemory.State.{Store, Callback, or_nil}
use claudeagentsdk_cloudrun.InMemory.Events.{event_lt, list_events}
use claudeagentsdk_cloudrun.InMemory.Port.{in_memory}
use claudeagentsdk_cloudrun.Control.Feed.{
  each, deliver, callback_failed, subscribe_from_cursor, subscribe_with, ids,
}

-- Sorting changes neither which ids there are, nor that they are different.
contains-insort :
    (x : ChatEvent) (ys : List ChatEvent) (k : String)
    → contains (ids (insort event_lt x ys)) k ≡ string_eq.beq x.id k || contains (ids ys) k
unfolding insort
contains-insort x [] k = refl
contains-insort x (y ∷ ys) k = elim (Bool-cases (event_lt y x)) [
  | inr before ↦ rw before refl
  | inl after ↦ rw (after, contains-insort x ys k) (ground arith)
]

pub contains-sort :
    (xs : List ChatEvent) (k : String) → contains (ids (sort event_lt xs)) k ≡ contains (ids xs) k
unfolding sort
contains-sort [] k = refl
contains-sort (x ∷ xs) k = rw (contains-insort x (sort event_lt xs) k, contains-sort xs k) refl

distinct-insort :
    (x : ChatEvent) (ys : List ChatEvent)
    → all_distinct (ids (insort event_lt x ys))
      ≡ not (contains (ids ys) x.id) && all_distinct (ids ys)
unfolding insort
distinct-insort x [] = refl
distinct-insort x (y ∷ ys) = elim (Bool-cases (event_lt y x)) [
  | inr before ↦ rw before refl
  | inl after ↦
      rw (after, contains-insort x ys y.id, distinct-insort x ys)
        (ground (arith, string_eq.beq_iff x.id y.id, string_eq.beq_iff y.id x.id))
]

distinct-sort :
    (xs : List ChatEvent) → all_distinct (ids (sort event_lt xs)) ≡ all_distinct (ids xs)
unfolding sort
distinct-sort [] = refl
distinct-sort (x ∷ xs) =
    rw (distinct-insort x (sort event_lt xs), contains-sort xs x.id, distinct-sort xs) refl

module _ {C : Type 0} (callback : ChatEvent → Exec C (Unit {0})) where
  -- New events: the client is called for each until a call raises.
  record IsCalled (seen : List String) (events : List ChatEvent) (c : C) : Type 0 where
    client : (each (deliver callback) events (seen, c)).1.1 ≡ (each callback events c).1
    good :
        (each callback events c).0 ≡ ok tt
        → ((each (deliver callback) events (seen, c)).0 ≡ ok tt)
          × ((k : String)
              → contains (each (deliver callback) events (seen, c)).1.0 k
                ≡ contains seen k || contains (ids events) k)
    bad :
        (e : Error)
        → (each callback events c).0 ≡ err e
        → (each (deliver callback) events (seen, c)).0 ≡ err callback_failed

  each-new :
      (events : List ChatEvent) (seen : List String) (c : C)
      → all_distinct (ids events) ≡ true
      → ((k : String) → contains (ids events) k ≡ true → contains seen k ≡ false)
      → IsCalled seen events c
  unfolding each deliver
  each-new [] seen c distinct new = record {
    client = refl;
    good = λ h. (refl, λ k. ground arith);
    bad = λ e h. cc;
  }
  each-new (event ∷ events) seen c distinct new =
      let fresh : contains seen event.id ≡ false =
        new event.id (ground (arith, string_eq.beq_iff event.id event.id)) in
      elim (Result-cases (callback event c).0) [
        | inr (e, failed) ↦ record {
          client = rw (fresh, failed) refl;
          good = λ h. cc (rw failed at h);
          bad = λ e' h. rw (fresh, failed) refl;
        }
        | inl (_, called) ↦
            let rest =
              each-new events (event.id ∷ seen) (callback event c).1 (ground (arith, distinct))
                (λ k h. ground (arith, distinct, new k, string_eq.beq_iff event.id k)) in
            record {
              client = rw (fresh, called) rest.client;
              good = λ h.
                  let (went, there) = rest.good (rw called at h) in
                  (rw (fresh, called) went, λ k. rw (fresh, called, there k) (ground arith));
              bad = λ e h. rw (fresh, called) (rest.bad e (rw called at h));
            }
      ]

  -- Events that were seen: nobody is called.
  each-seen :
      (events : List ChatEvent) (seen : List String) (c : C)
      → ((k : String) → contains (ids events) k ≡ true → contains seen k ≡ true)
      → each (deliver callback) events (seen, c) ≡ (ok tt, (seen, c))
  unfolding each deliver
  each-seen [] seen c known = refl
  each-seen (event ∷ events) seen c known =
      rw (known event.id (ground (arith, string_eq.beq_iff event.id event.id)))
        (each-seen events seen c (λ k h. known k (ground (arith, h))))

pub subscribe_from_cursor_lem :
    {C : Type 0} (callback : ChatEvent → Exec C (Unit {0})) (number : Callback) (run_id : Uuid)
    (cursor : Option String) (events : List ChatEvent) (s : Store) (seen : List String) (c : C)
    → list_events run_id cursor s ≡ (ok events, s)
    → all_distinct (ids events) ≡ true
    → let called = each callback (sort event_lt events) c in
      let after =
        subscribe_from_cursor callback in_memory
          (subscribe_with number)
          run_id
          cursor
          (s, (seen, c)) in
      (after.1.1.1 ≡ called.1)
      × (called.0 ≡ ok tt
          → (after.0 ≡ ok tt)
            × (after.1.0 ≡ record s {
              subscriptions =
                  put s.subscriptions run_id (or_nil (get s.subscriptions run_id) ++ number ∷ []);
            })
            × ((e : ChatEvent)
                → contains (ids events) e.id ≡ true
                → deliver callback e after.1.1 ≡ (ok tt, after.1.1)))
      × ((e : Error) → called.0 ≡ err e → (after.0 ≡ err callback_failed) × (after.1.0 ≡ s))
unfolding subscribe_from_cursor subscribe_with deliver
subscribe_from_cursor_lem callback number run_id cursor events s seen c listed distinct =
    let series = sort event_lt events in
    let r = each-new callback series [] c (distinct-sort events ∙ distinct) (λ k h. refl) in
    elim (Result-cases (each callback series c).0) [
      | inr (e, failed) ↦
          let fell = r.bad e failed in
          (
            rw (listed, fell) r.client,
            (λ h. cc (rw failed at h)),
            λ e' h. (rw (listed, fell) refl, rw (listed, fell) refl),
          )
      | inl (_, went) ↦
          let (good, there) = r.good went in
          let caught = (each (deliver callback) series ([], c)).1 in
          let known : (k : String) → contains (ids events) k ≡ true → contains caught.0 k ≡ true =
            λ k h. there k ∙ contains-sort events k ∙ h in
          let again = each-seen callback events caught.0 caught.1 known in
          (
            rw (listed, good, listed, again) r.client,
            (λ h. (
              rw (listed, good, listed, again) refl,
              rw (listed, good, listed, again) refl,
              λ e h'. rw (listed, good, listed, again, known e.id h') refl,
            )),
            λ e h. cc (rw went at h),
          )
    ]
