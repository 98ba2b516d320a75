-- ===== src/Lifecycle/Events.antt =====
-- The events of a run, by how its agent and its snapshot end.
use claudeagentsdk_cloudrun.Prelude.{
  ℕ, String, ◌≡◌, refl, false, List, [], ◌∷◌, ◌++◌, Option, none, some, if◌then◌else◌,
}
use claudeagentsdk_cloudrun.Errors.{
  error, agent_error, workspace_error, class_name, is_agent_error, is_workspace_error,
}
use claudeagentsdk_cloudrun.Exec.{Exec, Result, ok, err, on_left}
use claudeagentsdk_cloudrun.Text.{is_blank}
use claudeagentsdk_cloudrun.Models.Json.{Fields}
use claudeagentsdk_cloudrun.Models.Records.{Uuid}
use claudeagentsdk_cloudrun.Lifecycle.{
  SessionEvent, SnapshotReference, Parts, emit, execute, executed, committed, commit,
  run_from_start, run, text_field, reference_fields,
}

module _ {W : Type 0} (agent : Exec W (Option String))
    (snapshot : Option (Uuid → Exec W SnapshotReference)) where
  -- An event sink that keeps what it is given; the agent and the snapshot store do not see it.
  abbrev pub recorded : Parts (W × List SessionEvent)
  recorded = record {
    append_event = λ e p. (ok tt, (p.0, p.1 ++ e ∷ []));
    execute_agent = on_left agent;
    commit_snapshot = elim snapshot [ none ↦ none | some f ↦ some (λ r. on_left (f r)) ];
  }

abbrev pub event_of : Uuid → ℕ → String → Fields → SessionEvent
event_of r n type payload = record {
  run_id = r;
  sequence = n;
  event_type = type;
  payload = payload;
}

-- What comes after the agent's text: the events from number 2 on, and how the run ends.
abbrev pub saved_events : Uuid → String → Option (Result SnapshotReference) → List SessionEvent
saved_events r output none = event_of r 2 "completed" (text_field "output" output) ∷ []
saved_events r output (some (ok reference)) =
    event_of r 2 "snapshot_committed" (reference_fields reference)
    ∷ event_of r 3 "completed" (text_field "output" output)
    ∷ []
saved_events r output (some (err e)) =
    event_of r 2 "persistence_failed" (text_field "error_type" (class_name e.kind)) ∷ []

abbrev pub saved_result : String → Option (Result SnapshotReference) → Result String
saved_result output (some (err e)) =
    err (if is_workspace_error e.kind then e else error workspace_error "snapshot commit failed")
saved_result output _ = ok output

-- All events, by what the agent and then the snapshot store answered.
abbrev pub expected_events :
    Uuid → String → Result (Option String) → Option (Result SnapshotReference) → List SessionEvent
expected_events r message (ok (some output)) saved =
    event_of r 0 "run_started" (text_field "message" message)
    ∷ event_of r 1 "agent_message" (text_field "text" output)
    ∷ saved_events r output saved
expected_events r message (ok none) saved =
    event_of r 0 "run_started" (text_field "message" message)
    ∷ event_of r 1 "failed" (text_field "error_type" (class_name agent_error))
    ∷ []
expected_events r message (err e) saved =
    event_of r 0 "run_started" (text_field "message" message)
    ∷ event_of r 1 "failed" (text_field "error_type" (class_name e.kind))
    ∷ []

abbrev pub expected_result :
    Result (Option String) → Option (Result SnapshotReference) → Result String
expected_result (ok (some output)) saved = saved_result output saved
expected_result (ok none) saved = err (error agent_error "agent did not return text output")
expected_result (err e) saved =
    err (if is_agent_error e.kind then e else error agent_error "agent execution failed")

module _ {W : Type 0} (r : Uuid) (message : String) (w : W) (said : is_blank message ≡ false) where
  -- What the snapshot store answers, where there is one.
  abbrev pub saved_by :
      Option (Uuid → Exec W SnapshotReference) → W → Option (Result SnapshotReference)
  saved_by none v = none
  saved_by (some f) v = some (f r v).0

  abbrev IsExpected :
      Exec W (Option String)
      → Option (Uuid → Exec W SnapshotReference)
      → Result (Option String)
      → W
      → Type 0
  IsExpected agent snapshot answer v =
      let (result, ((after, log), n)) = run (recorded agent snapshot) r message (w, []) in
      (result ≡ expected_result answer (saved_by snapshot v))
      × (log ≡ expected_events r message answer (saved_by snapshot v))

  run_by_snapshot :
      (agent : Exec W (Option String)) (f : Uuid → Exec W SnapshotReference) (output : String)
      (v : W) (saved : Result SnapshotReference) (u : W)
      → agent w ≡ (ok (some output), v)
      → f r v ≡ (saved, u)
      → IsExpected agent (some f) (ok (some output)) v
  unfolding run run_from_start emit execute executed commit committed
  run_by_snapshot agent f output v (ok reference) u same kept = rw (said, same, kept) (refl, refl)
  run_by_snapshot agent f output v (err e) u same kept = rw (said, same, kept) (refl, refl)

  run_by_answer :
      (agent : Exec W (Option String)) (snapshot : Option (Uuid → Exec W SnapshotReference))
      (answer : Result (Option String)) (v : W)
      → agent w ≡ (answer, v)
      → IsExpected agent snapshot answer v
  unfolding run run_from_start emit execute executed commit committed
  run_by_answer agent snapshot (err e) v same = rw (said, same) (refl, refl)
  run_by_answer agent snapshot (ok none) v same = rw (said, same) (refl, refl)
  run_by_answer agent none (ok (some output)) v same = rw (said, same) (refl, refl)
  run_by_answer agent (some f) (ok (some output)) v same =
      run_by_snapshot agent f output v (f r v).0 (f r v).1 same refl

  -- A run with a message emits the events that its agent's answer and then its snapshot store's
  -- call for, numbered from 0, in this order and no other, and comes out as they say: `completed`
  -- stands last exactly where the run's output is returned, and where the agent or the snapshot
  -- failed it is `failed` or `persistence_failed`.
  pub run_lem :
      (agent : Exec W (Option String)) (snapshot : Option (Uuid → Exec W SnapshotReference))
      → let (answer, v) = agent w in
        let (result, ((after, log), n)) = run (recorded agent snapshot) r message (w, []) in
        (result ≡ expected_result answer (saved_by snapshot v))
        × (log ≡ expected_events r message answer (saved_by snapshot v))
  run_lem agent snapshot = run_by_answer agent snapshot (agent w).0 (agent w).1 refl
