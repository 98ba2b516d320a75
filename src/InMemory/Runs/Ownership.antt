-- ===== src/InMemory/Runs/Ownership.antt =====
-- A run is claimed once: its owner stays, whatever calls follow.
use claudeagentsdk_cloudrun.Prelude.{
  String, ◌≡◌, ◌≢◌, true, false, List, [], ◌∷◌, Option, none, some, arith, nat_eq, string_eq,
}
use claudeagentsdk_cloudrun.Exec.{Result, ok, err, modify}
use claudeagentsdk_cloudrun.Exec.Keeps.{Keeps, Keeps-seq, keeps_rules}
use claudeagentsdk_cloudrun.Dict.{Dict, get, get-put}
use claudeagentsdk_cloudrun.Models.RunStates.{RunState}
use claudeagentsdk_cloudrun.Models.Records.{Uuid, ChatEvent, Run, Session, ExecutionReference}
use claudeagentsdk_cloudrun.Models.Questions.{QuestionRequest, QuestionState}
use claudeagentsdk_cloudrun.Models.Questions.Answers.{Answers}
use claudeagentsdk_cloudrun.InMemory.State.{Store, Callback}
use claudeagentsdk_cloudrun.InMemory.Sessions
use claudeagentsdk_cloudrun.InMemory.Runs
use claudeagentsdk_cloudrun.InMemory.Runs.Reserve
use claudeagentsdk_cloudrun.InMemory.Events
use claudeagentsdk_cloudrun.InMemory.Events.Log.{notify_lem}
use claudeagentsdk_cloudrun.InMemory.Leases
use claudeagentsdk_cloudrun.InMemory.Questions
use claudeagentsdk_cloudrun.InMemory.Questions.Create
use claudeagentsdk_cloudrun.InMemory.Steps.{Step, Reach, here, next}

abbrev pub IsOwnedBy : Uuid → String → Store → Type 0
IsOwnedBy r identity s = get s.owners r ≡ some identity

-- The methods that write several dictionaries, but not the owners.
module _ (s : Store) where
  owners-reserve_initial_run :
      (x : Session) (run : Run) (e : ChatEvent)
      → (Reserve.reserve_initial_run x run e s).1.owners ≡ s.owners
  unfolding Reserve.reserve_initial_run
  owners-reserve_initial_run x run e = ground arith

  owners-reserve_run :
      (run : Run) (e : ChatEvent) → (Reserve.reserve_run run e s).1.owners ≡ s.owners
  unfolding Reserve.reserve_run
  owners-reserve_run run e = ground arith

  owners-commit_terminal :
      (run : Run) (identity : String) → (Runs.commit_terminal run identity s).1.owners ≡ s.owners
  unfolding Runs.commit_terminal
  owners-commit_terminal run identity = ground arith

module _ (r : Uuid) (identity : String) where
  abbrev Owned : Store → Type 0
  Owned = IsOwnedBy r identity

  other_write :
      (f : Store → Store) → ((s : Store) → (f s).owners ≡ s.owners) → Keeps Owned (modify f)
  other_write f same = record { at = λ s h. rw same h }

  -- The only write to the owners: under a run's own key, where nobody else stands.
  claim_run-Keeps : (q : Uuid) (other : String) → Keeps Owned (Runs.claim_run q other)
  unfolding Runs.claim_run
  claim_run-Keeps q other = record {
    at = λ s h.
        ground
          (arith, get-put s.owners q r other, nat_eq.beq_iff q r, string_eq.beq_iff identity other);
  }

  save_execution-Keeps : (q : Uuid) (x : ExecutionReference) → Keeps Owned (Runs.save_execution q x)
  unfolding Runs.save_execution
  save_execution-Keeps q x = search (keeps_rules, other_write) depth 12

  fail_dispatch-Keeps : (q : Uuid) (code : String) → Keeps Owned (Runs.fail_dispatch q code)
  unfolding Runs.fail_dispatch
  fail_dispatch-Keeps q code = search (keeps_rules, other_write) depth 12

  request_cancel-Keeps : (q : Uuid) → Keeps Owned (Runs.request_cancel q)
  unfolding Runs.request_cancel
  request_cancel-Keeps q = search (keeps_rules, other_write) depth 12

  reconcile_terminal-Keeps :
      (q : Uuid) (holder : String) (state : RunState) (code : Option String)
      → Keeps Owned (Leases.reconcile_terminal q holder state code)
  unfolding Leases.reconcile_terminal
  reconcile_terminal-Keeps q holder state code = search (keeps_rules, other_write) depth 14

  acquire-Keeps :
      (q : Uuid) (holder : String) → Keeps Owned (Leases.acquire_reconciliation_lease q holder)
  unfolding Leases.acquire_reconciliation_lease
  acquire-Keeps q holder = search (keeps_rules, other_write) depth 12

  release-Keeps :
      (q : Uuid) (holder : String) → Keeps Owned (Leases.release_reconciliation_lease q holder)
  unfolding Leases.release_reconciliation_lease
  release-Keeps q holder = search (keeps_rules, other_write) depth 12

  create_session-Keeps :
      (id workspace_id user_id title : String)
      → Keeps Owned (Sessions.create_session id workspace_id user_id title)
  unfolding Sessions.create_session
  create_session-Keeps id workspace_id user_id title = search (keeps_rules, other_write) depth 12

  put_session-Keeps : (x : Session) → Keeps Owned (Sessions.put_session x)
  unfolding Sessions.put_session
  put_session-Keeps x = search (keeps_rules, other_write) depth 12

  notify-Keeps : (cs : List Callback) (e : ChatEvent) → Keeps Owned (Events.notify cs e)
  notify-Keeps cs e = record { at = λ s h. rw notify_lem h }

  append_in-Keeps :
      (d : Dict String ChatEvent) (o : Option ChatEvent) (e : ChatEvent)
      → Keeps Owned (Events.append_in d o e)
  unfolding Events.append_in
  append_in-Keeps d (some old) e = search keeps_rules
  append_in-Keeps d none e = search (keeps_rules, other_write, notify-Keeps) depth 12

  append_event-Keeps : (e : ChatEvent) → Keeps Owned (Events.append_event e)
  unfolding Events.append_event
  append_event-Keeps e = search (keeps_rules, append_in-Keeps) depth 12

  replay-Keeps : (c : Callback) (es : List ChatEvent) → Keeps Owned (Events.replay c es)
  unfolding Events.replay
  replay-Keeps c [] = record { at = λ s h. h }
  replay-Keeps c (e ∷ es) = record { at = λ s h. (replay-Keeps c es).at _ h }

  subscribe-Keeps :
      (q : Uuid) (cursor : Option String) (c : Callback) → Keeps Owned (Events.subscribe q cursor c)
  unfolding Events.subscribe
  subscribe-Keeps q cursor c = search (keeps_rules, replay-Keeps, other_write) depth 14

  subscribers-Keeps :
      (q : Uuid) (x : Result (List Callback)) → Keeps Owned (Events.write_subscribers q x)
  subscribers-Keeps q (ok rest) = search (keeps_rules, other_write)
  subscribers-Keeps q (err e) = search keeps_rules

  unsubscribe-Keeps : (q : Uuid) (c : Callback) → Keeps Owned (Events.unsubscribe q c)
  unfolding Events.unsubscribe
  unsubscribe-Keeps q c = search (keeps_rules, subscribers-Keeps) depth 12

  announce-Keeps : (q : Uuid) (qs : List QuestionRequest) → Keeps Owned (Create.announce q qs)
  unfolding Create.announce
  announce-Keeps q [] = search keeps_rules
  announce-Keeps q (x ∷ xs) = Keeps-seq _ _ (append_event-Keeps _) (announce-Keeps q xs)

  conflict-Keeps : (o : Option String) → Keeps Owned (Create.conflict_or o)
  conflict-Keeps none = search keeps_rules
  conflict-Keeps (some id) = search keeps_rules

  create_questions-Keeps :
      (q : Uuid) (qs : List QuestionRequest) → Keeps Owned (Create.create_questions q qs)
  unfolding Create.create_questions
  create_questions-Keeps q qs =
      search (keeps_rules, other_write, announce-Keeps, conflict-Keeps) depth 14

  call_back-Keeps : (cs : List Callback) (q : QuestionRequest) → Keeps Owned (Questions.notify cs q)
  unfolding Questions.notify
  call_back-Keeps [] q = record { at = λ s h. h }
  call_back-Keeps (c ∷ cs) q = record { at = λ s h. (call_back-Keeps cs q).at _ h }

  answer_in-Keeps :
      (q : Uuid) (id : String) (x : QuestionRequest) (values : List String) (key : String)
      (state : QuestionState)
      → Keeps Owned (Questions.answer_in q id x values key state)
  unfolding Questions.answer_in
  answer_in-Keeps q id x values key QuestionState.answered = search keeps_rules
  answer_in-Keeps q id x values key QuestionState.pending =
      search (keeps_rules, other_write, append_event-Keeps, call_back-Keeps) depth 14

  answer-Keeps :
      (q : Uuid) (id : String) (answers : Answers) (key : String)
      → Keeps Owned (Questions.answer_question_for_job q id answers key)
  unfolding Questions.answer_question_for_job
  answer-Keeps q id answers key = search (keeps_rules, answer_in-Keeps) depth 14

  subscribe_question-Keeps :
      (q : Uuid) (id : String) (c : Callback) → Keeps Owned (Questions.subscribe_question q id c)
  unfolding Questions.subscribe_question
  subscribe_question-Keeps q id c = search (keeps_rules, other_write, call_back-Keeps) depth 14

  askers-Keeps :
      (q : Uuid) (id : String) (x : Result (List Callback))
      → Keeps Owned (Questions.write_subscribers q id x)
  askers-Keeps q id (ok rest) = search (keeps_rules, other_write)
  askers-Keeps q id (err e) = search keeps_rules

  unsubscribe_question-Keeps :
      (q : Uuid) (id : String) (c : Callback) → Keeps Owned (Questions.unsubscribe_question q id c)
  unfolding Questions.unsubscribe_question
  unsubscribe_question-Keeps q id c = search (keeps_rules, askers-Keeps) depth 12

  Step-Owned : {s t : Store} → Step s t → Owned s → Owned t
  Step-Owned (Step.create_session id w u title fresh e) h =
      rw e ((create_session-Keeps id w u title).at _ h)
  Step-Owned (Step.put_session x kept e) h = rw e ((put_session-Keeps x).at _ h)
  Step-Owned (Step.reserve_initial_run x run event new going e) h =
      rw (e, owners-reserve_initial_run) h
  Step-Owned (Step.reserve_run run event new e) h = rw (e, owners-reserve_run) h
  Step-Owned (Step.save_execution q x e) h = rw e ((save_execution-Keeps q x).at _ h)
  Step-Owned (Step.fail_dispatch q code e) h = rw e ((fail_dispatch-Keeps q code).at _ h)
  Step-Owned (Step.claim_run q other e) h = rw e ((claim_run-Keeps q other).at _ h)
  Step-Owned (Step.request_cancel q e) h = rw e ((request_cancel-Keeps q).at _ h)
  Step-Owned (Step.commit_terminal run other e) h = rw (e, owners-commit_terminal) h
  Step-Owned (Step.append_event event e) h = rw e ((append_event-Keeps event).at _ h)
  Step-Owned (Step.subscribe q cursor c e) h = rw e ((subscribe-Keeps q cursor c).at _ h)
  Step-Owned (Step.unsubscribe q c e) h = rw e ((unsubscribe-Keeps q c).at _ h)
  Step-Owned (Step.acquire_lease q holder e) h = rw e ((acquire-Keeps q holder).at _ h)
  Step-Owned (Step.reconcile_terminal q holder state code e) h =
      rw e ((reconcile_terminal-Keeps q holder state code).at _ h)
  Step-Owned (Step.release_lease q holder e) h = rw e ((release-Keeps q holder).at _ h)
  Step-Owned (Step.create_questions q qs e) h = rw e ((create_questions-Keeps q qs).at _ h)
  Step-Owned (Step.answer_question q id answers key e) h =
      rw e ((answer-Keeps q id answers key).at _ h)
  Step-Owned (Step.subscribe_question q id c e) h = rw e ((subscribe_question-Keeps q id c).at _ h)
  Step-Owned (Step.unsubscribe_question q id c e) h =
      rw e ((unsubscribe_question-Keeps q id c).at _ h)
  Step-Owned (Step.time_passes now later e) h = rw e h

pub Reach-IsOwnedBy :
    (r : Uuid) (identity : String) {s t : Store}
    → IsOwnedBy r identity s
    → Reach s t
    → IsOwnedBy r identity t
Reach-IsOwnedBy r identity h here = h
Reach-IsOwnedBy r identity h (next path st) =
    Step-Owned r identity st (Reach-IsOwnedBy r identity h path)

-- A claim that succeeded makes the caller the run's owner.
pub claim_run-IsOwnedBy :
    (r : Uuid) (identity : String) (s : Store)
    → (Runs.claim_run r identity s).0 ≡ ok true
    → IsOwnedBy r identity (Runs.claim_run r identity s).1
unfolding Runs.claim_run
claim_run-IsOwnedBy r identity s won =
    ground (arith, get-put s.owners r r identity, nat_eq.beq_iff r r)

-- Once an execution has claimed a run, and whatever calls follow, no other execution's claim
-- succeeds, no other's heartbeat is accepted, and no other's claim writes anything.
pub single_winner :
    (r : Uuid) (identity other : String) (s t : Store)
    → (Runs.claim_run r identity s).0 ≡ ok true
    → Reach (Runs.claim_run r identity s).1 t
    → identity ≢ other
    → ((Runs.claim_run r other t).0 ≢ ok true)
      × ((Runs.claim_run r other t).1 ≡ t)
      × (Runs.heartbeat_run r other t ≡ (ok false, t))
      × (Runs.heartbeat_run r identity t ≡ (ok true, t))
unfolding Runs.claim_run Runs.heartbeat_run
single_winner r identity other s t won path differ =
    let owned = Reach-IsOwnedBy r identity (claim_run-IsOwnedBy r identity s won) path in
    (
      ground (arith, string_eq.beq_iff identity other),
      ground (arith, string_eq.beq_iff identity other),
      ground (arith, string_eq.beq_iff identity other),
      ground (arith, string_eq.beq_iff identity identity),
    )
