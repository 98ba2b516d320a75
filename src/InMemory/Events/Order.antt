-- ===== src/InMemory/Events/Order.antt =====
-- The log of a run: what append_event adds is what list_events says last.
use claudeagentsdk_cloudrun.Prelude.{
  ℕ, suc, ◌≤◌, String, ◌≡◌, ◌∙◌, ap, subst, false, [], ◌∷◌, ◌++◌, Option, none, some, arith, nat_eq,
  string_eq, length, map, All, Option-cases, inl, inr,
}
use claudeagentsdk_cloudrun.Prelude.Sorting.{IsSorted, sort_of_IsSorted}
use claudeagentsdk_cloudrun.Exec.{ok}
use claudeagentsdk_cloudrun.Dict.{Dict, get, put, values, get-put_self}
use claudeagentsdk_cloudrun.Dict.Entries.{values-put_of_none}
use claudeagentsdk_cloudrun.Models.Records.{Uuid, ChatEvent}
use claudeagentsdk_cloudrun.InMemory.State.{Store, event_to, or_nil}
use claudeagentsdk_cloudrun.InMemory.Events.{append_event, list_events, event_lt}
use claudeagentsdk_cloudrun.InMemory.Events.Log.{notify_lem}
use claudeagentsdk_cloudrun.InMemory.Invariant.{IsWf, Numbered}
use claudeagentsdk_cloudrun.InMemory.Invariant.Growth.{append_event-IsWf}

not_below :
    (r : Uuid) (n : ℕ) (e : ChatEvent) (d : Dict String ChatEvent)
    → suc e.sequence ≤ n
    → Numbered r n d
    → All (λ f. event_lt f e ≡ false) (values d)
not_below r n e [] less h = tt
not_below r n e ((k, f) ∷ d) less h = (ground arith, not_below r (suc n) e d (omega arith) h.3)

Numbered-IsSorted :
    (r : Uuid) (n : ℕ) (d : Dict String ChatEvent) → Numbered r n d → IsSorted event_lt (values d)
Numbered-IsSorted r n [] h = tt
Numbered-IsSorted r n ((k, e) ∷ d) h =
    (not_below r (suc n) e d (omega arith) h.3, Numbered-IsSorted r (suc n) d h.3)

-- In a store that is well formed, the events of a run are listed in the order they were stored.
pub list_all :
    (r : Uuid) (d : Dict String ChatEvent) (s : Store)
    → IsWf s
    → get s.events r ≡ some d
    → list_events r none s ≡ (ok (values d), s)
unfolding list_events
list_all r d s inv found =
    rw (
      found,
      sort_of_IsSorted event_lt (values d) (Numbered-IsSorted r 0 d (inv.numbered r d found)),
    )

abbrev pub numbered_at : ℕ → ChatEvent → ChatEvent
numbered_at n event = record event { sequence = n }

-- The store after the event is in the log `d` of its run, and its subscribers were called.
abbrev pub appended : ChatEvent → Dict String ChatEvent → Store → Store
appended event d s = record s {
  events = put s.events event.run_id (put d event.id event);
  delivered =
      s.delivered ++ map (λ c. event_to c event) (or_nil (get s.subscriptions event.run_id));
}

module _ (event : ChatEvent) (d : Dict String ChatEvent) (s : Store)
    (found : get s.events event.run_id ≡ some d) where
  pub append_event-known :
      (old : ChatEvent) → get d event.id ≡ some old → append_event event s ≡ (ok old, s)
  unfolding append_event
  append_event-known old here = rw (found, here)

  pub append_event-new :
      get d event.id ≡ none
      → (let assigned = numbered_at (length d) event in
          append_event event s ≡ (ok assigned, appended assigned d s))
  unfolding append_event
  append_event-new new = rw (found, new, notify_lem)

-- What append_event does, by what the log `d` of its run has under the event's id.
abbrev pub IsAppended : ChatEvent → Dict String ChatEvent → Store → Option ChatEvent → Type 0
IsAppended event d s (some old) = append_event event s ≡ (ok old, s)
IsAppended event d s none =
    let assigned = numbered_at (length d) event in
    let t = appended assigned d s in
    (append_event event s ≡ (ok assigned, t))
    × (list_events event.run_id none t ≡ (ok (values d ++ assigned ∷ []), t))

-- In a well-formed store the events of a run are listed as they were stored. An event id that is
-- in the log gives the stored event back and changes nothing. A new one is numbered with the
-- length of the log, listed last, after all that was listed before, and given to every subscriber
-- of the run once, in the order they subscribed.
pub append_event_lem :
    (event : ChatEvent) (d : Dict String ChatEvent) (s : Store)
    → IsWf s
    → get s.events event.run_id ≡ some d
    → (list_events event.run_id none s ≡ (ok (values d), s)) × IsAppended event d s (get d event.id)
append_event_lem event d s inv found =
    let assigned = numbered_at (length d) event in
    (
      list_all event.run_id d s inv found,
      elim (Option-cases (get d event.id)) [
        | inr (old, here) ↦ rw here (append_event-known event d s found old here)
        | inl new ↦
            let same = append_event-new event d s found new in
            let inv' : IsWf (appended assigned d s) =
              subst (λ x. IsWf x.1) same (append_event-IsWf event s inv) in
            rw new (
              same,
              list_all event.run_id (put d event.id assigned) (appended assigned d s) inv'
                    (get-put_self s.events event.run_id (put d event.id assigned))
                  ∙ ap (λ es. (ok es, appended assigned d s))
                      (values-put_of_none d event.id assigned new),
            )
      ],
    )
