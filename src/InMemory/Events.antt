-- ===== src/InMemory/Events.antt =====
-- InMemoryChatStore: append_event, list_events, latest_event, subscribe.
pub mod Log
pub mod Order
use text.Mathlib.Text.{is_lt}
use Prim.Native.String.{compare}
use claudeagentsdk_cloudrun.Prelude.{
  ℕ, String, ◌≡◌, Bool, true, false, ◌&&◌, ◌||◌, not, List, [], ◌∷◌, ◌++◌, Option, none, some, Eq,
  nat_eq, string_eq, ltb, nat_beq, keep, length, if◌then◌else◌,
}
use claudeagentsdk_cloudrun.Prelude.Sorting.{sort}
use claudeagentsdk_cloudrun.Errors.{error, value_error}
use claudeagentsdk_cloudrun.Exec.{
  Exec, Result, ok, err, pure, raise, gets, modify, require, ◌>>=◌, ◌>>◌,
}
use claudeagentsdk_cloudrun.Dict.{Dict, get, put, values}
use claudeagentsdk_cloudrun.Models.Records.{Uuid, ChatEvent}
use claudeagentsdk_cloudrun.InMemory.State.{Store, Callback, Delivery, event_to, missing, or_nil}
use claudeagentsdk_cloudrun.InMemory.Sessions.{str_lt}

-- for callback in callbacks: callback(event)
unfoldable pub notify : List Callback → ChatEvent → Exec Store (Unit {0})
notify [] event = pure tt
notify (callback ∷ callbacks) event = do
  modify (λ s. record s { delivered = s.delivered ++ event_to callback event ∷ [] })
  notify callbacks event

unfoldable pub append_in :
    Dict String ChatEvent → Option ChatEvent → ChatEvent → Exec Store ChatEvent
unfolding notify
append_in events (some existing) event = pure existing
append_in events none event = do
  let assigned = record event { sequence = length events }
  modify (λ s. record s { events = put s.events event.run_id (put events assigned.id assigned) })
  callbacks ← gets (λ s. or_nil (get s.subscriptions event.run_id))
  notify callbacks assigned
  pure assigned

unfoldable pub append_event : ChatEvent → Exec Store ChatEvent
unfolding append_in
append_event event = do
  found ← gets (λ s. get s.events event.run_id)
  events ← require found missing
  append_in events (get events event.id) event

-- (a.sequence, a.id) < (b.sequence, b.id)
abbrev pub event_lt : ChatEvent → ChatEvent → Bool
event_lt a b = ltb a.sequence b.sequence || (nat_beq a.sequence b.sequence && str_lt a.id b.id)

abbrev pub after_cursor : Option String → List ChatEvent → List ChatEvent
after_cursor none events = events
after_cursor (some cursor) events = keep (λ event. str_lt cursor event.id) events

unfoldable pub list_events : Uuid → Option String → Exec Store (List ChatEvent)
unfolding sort
list_events run_id cursor = do
  found ← gets (λ s. get s.events run_id)
  events ← require found missing
  pure (after_cursor cursor (sort event_lt (values events)))

-- max(events, key=…): the first of the greatest
unfoldable pub latest_of : ChatEvent → List ChatEvent → ChatEvent
latest_of best [] = best
latest_of best (event ∷ events) = latest_of (if event_lt best event then event else best) events

abbrev latest : List ChatEvent → Option ChatEvent
latest [] = none
latest (event ∷ events) = some (latest_of event events)

unfoldable pub latest_event : Uuid → Exec Store (Option ChatEvent)
unfolding latest_of
latest_event run_id = gets (λ s. latest (values (or_nil (get s.events run_id))))

unfoldable pub replay : Callback → List ChatEvent → Exec Store (Unit {0})
replay callback [] = pure tt
replay callback (event ∷ events) = do
  modify (λ s. record s { delivered = s.delivered ++ event_to callback event ∷ [] })
  replay callback events

unfoldable pub subscribe : Uuid → Option String → Callback → Exec Store (Unit {0})
unfolding list_events replay
subscribe run_id cursor callback = do
  events ← list_events run_id cursor
  replay callback events
  modify (λ s. record s {
    subscriptions =
        put s.subscriptions run_id (or_nil (get s.subscriptions run_id) ++ callback ∷ []);
  })

-- list.remove, which raises when the item is not there
unfoldable pub list_remove : List Callback → Callback → Result (List Callback)
list_remove [] callback = err (error value_error "list.remove(x): x not in list")
list_remove (c ∷ cs) callback =
    if nat_eq.beq c callback
    then ok cs
    else elim (list_remove cs callback) [ ok rest ↦ ok (c ∷ rest) | err e ↦ err e ]

abbrev pub write_subscribers : Uuid → Result (List Callback) → Exec Store (Unit {0})
write_subscribers run_id (err e) = raise e
write_subscribers run_id (ok rest) =
    modify (λ s. record s { subscriptions = put s.subscriptions run_id rest })

-- The function that `subscribe` returns.
unfoldable pub unsubscribe : Uuid → Callback → Exec Store (Unit {0})
unfolding list_remove
unsubscribe run_id callback = do
  callbacks ← gets (λ s. or_nil (get s.subscriptions run_id))
  write_subscribers run_id (list_remove callbacks callback)
