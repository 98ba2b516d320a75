-- ===== src/Control/Feed.antt =====
-- ControlClient.subscribe_from_cursor. A callback is an action on what its client keeps, and may
-- raise; the store's `subscribe` takes one. The state is the store, and beside it the ids that were
-- seen and what the client keeps.
pub mod Catchup
use claudeagentsdk_cloudrun.Prelude.{
  String, List, [], ◌∷◌, ◌++◌, Option, map, nat_eq, string_eq, if◌then◌else◌,
}
use claudeagentsdk_cloudrun.Prelude.Sorting.{sort}
use claudeagentsdk_cloudrun.Errors.{Error, error, execution_temporary}
use claudeagentsdk_cloudrun.Exec.{
  Exec, Result, ok, err, pure, on_left, on_right, modify, ◌>>=◌, ◌>>◌,
}
use claudeagentsdk_cloudrun.Dict.{get, put}
use claudeagentsdk_cloudrun.Models.Records.{Uuid, ChatEvent}
use claudeagentsdk_cloudrun.Models.Questions.{contains}
use claudeagentsdk_cloudrun.Ports.{ChatStore}
use claudeagentsdk_cloudrun.InMemory.State.{Store, Callback, or_nil}
use claudeagentsdk_cloudrun.InMemory.Events.{event_lt, list_events}

-- for event in events: action(event)
unfoldable pub each :
    {F : Type 0} → (ChatEvent → Exec F (Unit {0})) → List ChatEvent → Exec F (Unit {0})
each action [] = pure tt
each action (event ∷ events) = do action event; each action events

-- The store's `subscribe`, over what the callback works on.
abbrev pub Subscribe : Type 0 → Type 0 → Type 0
Subscribe S F = Uuid → Option String → (ChatEvent → Exec F (Unit {0})) → Exec (S × F) (Unit {0})

abbrev pub callback_failed : Error
callback_failed = error execution_temporary "event subscription callback failed"

module _ {C : Type 0} (callback : ChatEvent → Exec C (Unit {0})) where
  -- except Exception as error: raise ExecutionTemporaryError
  abbrev pub or_failed : List String → Result (Unit {0}) × C → Result (Unit {0}) × (List String × C)
  or_failed seen (ok done, c) = (ok tt, (seen, c))
  or_failed seen (err e, c) = (err callback_failed, (seen, c))

  unfoldable pub deliver : ChatEvent → Exec (List String × C) (Unit {0})
  deliver event (seen, c) =
      if contains seen event.id
      then (ok tt, (seen, c))
      else or_failed (event.id ∷ seen) (callback event c)

  unfoldable pub subscribe_from_cursor :
      {S : Type 0}
      → ChatStore S
      → Subscribe S (List String × C)
      → Uuid
      → Option String
      → Exec (S × (List String × C)) (Unit {0})
  unfolding each deliver sort
  subscribe_from_cursor store subscribe run_id cursor = do
    on_right (modify (λ p. ([], p.1)))
    events ← on_left (store.list_events run_id cursor)
    on_right (each deliver (sort event_lt events))
    subscribe run_id cursor deliver

-- InMemoryChatStore.subscribe, for a callback that may raise; it is registered under a number.
unfoldable pub subscribe_with : {F : Type 0} → Callback → Subscribe Store F
unfolding list_events each
subscribe_with number run_id cursor callback = do
  events ← on_left (list_events run_id cursor)
  on_right (each callback events)
  on_left (
      modify (λ s. record s {
        subscriptions =
            put s.subscriptions run_id (or_nil (get s.subscriptions run_id) ++ number ∷ []);
      }))

abbrev pub ids : List ChatEvent → List String
ids = map (λ e. e.id)
