-- ===== src/InMemory/Invariant/Reachable.antt =====
-- The invariant holds of every store that calls can reach.
use claudeagentsdk_cloudrun.Prelude.{
  String, ◌≡◌, refl, inl, inr, List, [], ◌∷◌, Option, Bool-cases, nat_eq, string_eq,
}
use claudeagentsdk_cloudrun.Dict.{get}
use claudeagentsdk_cloudrun.Exec.{Result, ok, err, modify}
use claudeagentsdk_cloudrun.Exec.Keeps.{Keeps, Keeps-bind, Keeps-seq, Keeps-if, keeps_rules}
use claudeagentsdk_cloudrun.Models.Records.{Uuid, Time, ChatEvent}
use claudeagentsdk_cloudrun.Models.Questions.{is_pending}
use claudeagentsdk_cloudrun.InMemory.State.{Store, Callback, empty}
use claudeagentsdk_cloudrun.InMemory.Events
use claudeagentsdk_cloudrun.InMemory.Leases
use claudeagentsdk_cloudrun.InMemory.Questions
use claudeagentsdk_cloudrun.InMemory.Steps.{Step, Reach, here, next}
use claudeagentsdk_cloudrun.InMemory.Invariant.{IsWf}
use claudeagentsdk_cloudrun.InMemory.Invariant.Methods.{
  save_execution-IsWf, fail_dispatch-IsWf, claim_run-IsWf, request_cancel-IsWf,
  commit_terminal-IsWf, reconcile_terminal-IsWf,
}
use claudeagentsdk_cloudrun.InMemory.Invariant.Growth.{
  create_session-IsWf, put_session-IsWf, reserve_initial_run-IsWf, reserve_run-IsWf,
  append_event-IsWf,
}
use claudeagentsdk_cloudrun.InMemory.Invariant.Conversations.{
  create_questions-Keeps, answer_question_for_job-Keeps, notify-Keeps,
}

replay-Keeps : (c : Callback) (es : List ChatEvent) → Keeps IsWf (Events.replay c es)
unfolding Events.replay
replay-Keeps c [] = record { at = λ s inv. inv }
replay-Keeps c (e ∷ es) = record { at = λ s inv. (replay-Keeps c es).at _ inv }

-- A write to what the invariant does not speak of.
other-Keeps :
    (f : Store → Store)
    → ((s : Store) → (f s).sessions ≡ s.sessions)
    → ((s : Store) → (f s).runs ≡ s.runs)
    → ((s : Store) → (f s).events ≡ s.events)
    → Keeps IsWf (modify f)
other-Keeps f sessions runs events = record { at = λ s inv. rw (sessions s, runs s, events s) inv }

list_events-Keeps : (r : Uuid) (cursor : Option String) → Keeps IsWf (Events.list_events r cursor)
unfolding Events.list_events
list_events-Keeps r cursor = search keeps_rules depth 8

subscribe-Keeps :
    (r : Uuid) (cursor : Option String) (c : Callback) → Keeps IsWf (Events.subscribe r cursor c)
unfolding Events.subscribe
subscribe-Keeps r cursor c =
    Keeps-bind (Events.list_events r cursor) _ (list_events-Keeps r cursor) λ es.
      Keeps-bind (Events.replay c es) _ (replay-Keeps c es)
        λ _. other-Keeps _ (λ s. refl) (λ s. refl) (λ s. refl)

written-Keeps : (r : Uuid) (x : Result (List Callback)) → Keeps IsWf (Events.write_subscribers r x)
written-Keeps r (ok rest) = other-Keeps _ (λ s. refl) (λ s. refl) (λ s. refl)
written-Keeps r (err e) = search keeps_rules

unsubscribe-Keeps : (r : Uuid) (c : Callback) → Keeps IsWf (Events.unsubscribe r c)
unfolding Events.unsubscribe
unsubscribe-Keeps r c = search (keeps_rules, written-Keeps)

acquire-IsWf :
    (r : Uuid) (holder : String) (s : Store)
    → IsWf s
    → IsWf (Leases.acquire_reconciliation_lease r holder s).1
unfolding Leases.acquire_reconciliation_lease
acquire-IsWf r holder s inv = elim (Bool-cases (Leases.blocks (get s.leases r) holder s.clock)) [
  | inl busy ↦ rw busy inv
  | inr free ↦ rw free inv
]

release-IsWf :
    (r : Uuid) (holder : String) (s : Store)
    → IsWf s
    → IsWf (Leases.release_reconciliation_lease r holder s).1
unfolding Leases.release_reconciliation_lease
release-IsWf r holder s inv = elim (Bool-cases (Leases.held_by (get s.leases r) holder)) [
  | inl mine ↦ rw mine inv
  | inr other ↦ rw other inv
]

get_question-Keeps : (r : Uuid) (id : String) → Keeps IsWf (Questions.get_question_for_job r id)
unfolding Questions.get_question_for_job
get_question-Keeps r id = search keeps_rules depth 8

subscribe_question-Keeps :
    (r : Uuid) (id : String) (c : Callback) → Keeps IsWf (Questions.subscribe_question r id c)
unfolding Questions.subscribe_question
subscribe_question-Keeps r id c =
    Keeps-bind (Questions.get_question_for_job r id) _ (get_question-Keeps r id) λ q.
      Keeps-seq _ _
        (Keeps-if (is_pending q.state) _ _ (search keeps_rules) (notify-Keeps (c ∷ []) q))
        (other-Keeps _ (λ s. refl) (λ s. refl) (λ s. refl))

answers_written-Keeps :
    (r : Uuid) (id : String) (x : Result (List Callback))
    → Keeps IsWf (Questions.write_subscribers r id x)
answers_written-Keeps r id (ok rest) = other-Keeps _ (λ s. refl) (λ s. refl) (λ s. refl)
answers_written-Keeps r id (err e) = search keeps_rules

unsubscribe_question-Keeps :
    (r : Uuid) (id : String) (c : Callback) → Keeps IsWf (Questions.unsubscribe_question r id c)
unfolding Questions.unsubscribe_question
unsubscribe_question-Keeps r id c = search (keeps_rules, answers_written-Keeps)

Step-IsWf : {s t : Store} → Step s t → IsWf s → IsWf t
Step-IsWf (Step.create_session id w u title fresh e) inv =
    rw e (create_session-IsWf id w u title _ fresh inv)
Step-IsWf (Step.put_session x kept e) inv = rw e (put_session-IsWf x _ kept inv)
Step-IsWf (Step.reserve_initial_run x run event new going e) inv =
    rw e (reserve_initial_run-IsWf x run event _ new going inv)
Step-IsWf (Step.reserve_run run event new e) inv = rw e (reserve_run-IsWf run event _ new inv)
Step-IsWf (Step.save_execution r x e) inv = rw e (save_execution-IsWf r x _ inv)
Step-IsWf (Step.fail_dispatch r code e) inv = rw e (fail_dispatch-IsWf r code _ inv)
Step-IsWf (Step.claim_run r identity e) inv = rw e (claim_run-IsWf r identity _ inv)
Step-IsWf (Step.request_cancel r e) inv = rw e (request_cancel-IsWf r _ inv)
Step-IsWf (Step.commit_terminal run identity e) inv = rw e (commit_terminal-IsWf run identity _ inv)
Step-IsWf (Step.append_event event e) inv = rw e (append_event-IsWf event _ inv)
Step-IsWf (Step.subscribe r cursor c e) inv = rw e ((subscribe-Keeps r cursor c).at _ inv)
Step-IsWf (Step.unsubscribe r c e) inv = rw e ((unsubscribe-Keeps r c).at _ inv)
Step-IsWf (Step.acquire_lease r holder e) inv = rw e (acquire-IsWf r holder _ inv)
Step-IsWf (Step.reconcile_terminal r holder state code e) inv =
    rw e (reconcile_terminal-IsWf r holder state code _ inv)
Step-IsWf (Step.release_lease r holder e) inv = rw e (release-IsWf r holder _ inv)
Step-IsWf (Step.create_questions r qs e) inv = rw e ((create_questions-Keeps r qs).at _ inv)
Step-IsWf (Step.answer_question r id answers key e) inv =
    rw e ((answer_question_for_job-Keeps r id answers key).at _ inv)
Step-IsWf (Step.subscribe_question r id c e) inv = rw e ((subscribe_question-Keeps r id c).at _ inv)
Step-IsWf (Step.unsubscribe_question r id c e) inv =
    rw e ((unsubscribe_question-Keeps r id c).at _ inv)
Step-IsWf (Step.time_passes now later e) inv = rw e inv

pub empty-IsWf : (now : Time) → IsWf (empty now)
unfolding get
empty-IsWf now = record {
  session_key = λ k x h. cc;
  run_key = λ r x h. cc;
  slot = λ k x r h. cc;
  home = λ r x h. cc;
  log = λ r x h. cc;
  numbered = λ r d h. cc;
}

-- Whatever methods that write are called on a new store, in any order and however each comes out,
-- where create_session has a new id, put_session brings a session that is new and has no run or that
-- keeps the user and the slot of the one it replaces (or frees the slot), a run to reserve is in an
-- active state and has a new id or repeats its request, and the event that reserve_run is given is
-- of the run and numbered 0: sessions, runs and events stand under their own ids, a session's slot
-- names a run of the session that is active, a run's session is there and its user the run's, and
-- the events of a run are numbered from 0 in the order they came.
pub Reach-IsWf : {now : Time} {s : Store} → Reach (empty now) s → IsWf s
Reach-IsWf {now = now} here = empty-IsWf now
Reach-IsWf {now = now} (next r st) = Step-IsWf st (Reach-IsWf r)
