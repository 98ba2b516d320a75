-- ===== src/Firestore/Events.antt =====
-- FirestoreChatStore: append_event, list_events, latest_event, and what subscribe gives a callback.
use claudeagentsdk_cloudrun.Prelude.{
  ℕ, ◌+◌, String, not, List, Option, none, some, keep, map, if◌then◌else◌,
}
use claudeagentsdk_cloudrun.Prelude.Sorting.{sort}
use claudeagentsdk_cloudrun.Errors.{error, session_not_found}
use claudeagentsdk_cloudrun.Exec.{Exec, pure, lift, guard, ◌>>=◌, ◌>>◌}
use claudeagentsdk_cloudrun.Codec.{encode_event, is_expired}
use claudeagentsdk_cloudrun.Models.Records.{Uuid, Time, ChatEvent}
use claudeagentsdk_cloudrun.InMemory.Events.{event_lt, after_cursor}
use claudeagentsdk_cloudrun.Firestore.Documents.{
  RunPath, EventDoc, Database, Cloud, look, write, now_of, run_reference, run_snapshot, kept_until,
}

-- The events of the documents that are not expired.
unfoldable pub readable : Time → List EventDoc → List ChatEvent
unfolding is_expired
readable now docs = map (λ doc. doc.event) (keep (λ doc. not (is_expired doc.expires_at now)) docs)

-- int(payload.get("next_sequence", 0))
abbrev pub or_zero : Option ℕ → ℕ
or_zero none = 0
or_zero (some n) = n

-- What the callback of `subscribe` is called with for one snapshot of the query.
unfoldable pub on_snapshot : Time → Option String → List EventDoc → List ChatEvent
unfolding readable sort
on_snapshot now cursor docs =
    after_cursor cursor (readable now (sort (λ a b. event_lt a.event b.event) docs))

module _ {D : Type 0} (db : Database D) (retention_days : ℕ) where
  unfoldable pub append_in : RunPath → ChatEvent → Option EventDoc → Exec (Cloud D) ChatEvent
  unfolding encode_event
  append_in path event (some duplicate) = pure duplicate.event
  append_in path event none = do
    doc ← run_snapshot db path
    let next_sequence = or_zero doc.next_sequence
    let assigned = record event { sequence = next_sequence }
    document ← lift (encode_event assigned retention_days)
    now ← now_of
    write (
        db.write_event path event.id
          (record { event = document.payload; expires_at = some document.expires_at }))
    write (
        db.write_run path (record doc {
          next_sequence = some (next_sequence + 1);
          expires_at = kept_until retention_days now;
        }))
    pure assigned

  unfoldable pub append_event : ChatEvent → Exec (Cloud D) ChatEvent
  unfolding append_in
  append_event event = do
    path ← run_reference db event.run_id
    duplicate ← look (db.event path event.id)
    append_in path event duplicate

  -- The reference of a run that is not expired.
  abbrev live_run : Uuid → Exec (Cloud D) RunPath
  live_run run_id = do
    path ← run_reference db run_id
    doc ← run_snapshot db path
    now ← now_of
    guard (not (is_expired doc.expires_at now)) (error session_not_found "run has expired")
    pure path

  unfoldable pub list_events : Uuid → Option String → Exec (Cloud D) (List ChatEvent)
  unfolding readable sort is_expired
  list_events run_id cursor = do
    path ← live_run run_id
    docs ← look (db.events_in_order path)
    now ← now_of
    pure (sort event_lt (after_cursor cursor (readable now docs)))

  abbrev latest_of : Time → Option EventDoc → Option ChatEvent
  latest_of now none = none
  latest_of now (some doc) = if is_expired doc.expires_at now then none else some doc.event

  unfoldable pub latest_event : Uuid → Exec (Cloud D) (Option ChatEvent)
  unfolding is_expired
  latest_event run_id = do
    path ← run_reference db run_id
    newest ← look (db.newest_event path)
    now ← now_of
    pure (latest_of now newest)

  -- `subscribe`, up to the registration of the watch on the run's events.
  unfoldable pub subscribe : Uuid → Exec (Cloud D) RunPath
  unfolding is_expired
  subscribe run_id = live_run run_id
