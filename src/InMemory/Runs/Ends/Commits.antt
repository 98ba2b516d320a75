-- ===== src/InMemory/Runs/Ends/Commits.antt =====
-- Terminal commits, by what they write and when they are refused.
use claudeagentsdk_cloudrun.Prelude.{
  ℕ, String, ◌≡◌, ◌≢◌, ◌∙◌, inl, inr, true, false, ◌&&◌, Option, none, some, Option-cases,
  Bool-cases, arith, nat_eq, string_eq, if◌then◌else◌,
}
use claudeagentsdk_cloudrun.Exec.{ok}
use claudeagentsdk_cloudrun.Dict.{get, get-put}
use claudeagentsdk_cloudrun.Models.RunStates.{active, terminal}
use claudeagentsdk_cloudrun.Models.Records.{Uuid, Run, Session}
use claudeagentsdk_cloudrun.InMemory.State.{Store}
use claudeagentsdk_cloudrun.InMemory.Runs.{commit_terminal, owned_by, same_owner, replaces_snapshot}
use claudeagentsdk_cloudrun.InMemory.Invariant.{IsWf}
use claudeagentsdk_cloudrun.InMemory.Invariant.Methods.{same_owner-eq}
use claudeagentsdk_cloudrun.InMemory.Runs.Ends.Written.{written, slot_in, slot_in-written}
use claudeagentsdk_cloudrun.InMemory.Runs.Ends.{freed, home, at_home}

-- The run that a commit is for, where the caller may make it: a terminal state, the run's owner,
-- and the run's own user and session.
abbrev pub commit_target : Run → String → Store → Option Run
commit_target run identity s = elim (get s.runs run.id) [
  | none ↦ none
  | some current ↦
      if terminal run.state
        && owned_by (get s.owners run.id) identity
        && same_owner current run.user_id run.session_id
      then some current
      else none
]

-- The session after a commit: transcript and snapshot are replaced only by a run that completed or
-- timed out with both.
abbrev pub committed : Session → Run → ℕ → Session
committed x run now =
    if replaces_snapshot run
    then record (freed x run.state now) {
      claude_session_id = run.claude_session_id;
      snapshot = run.snapshot;
    }
    else freed x run.state now

-- A commit to a state that is not terminal, by an execution that does not own the run, or for
-- another user or session than the run's, changes nothing and raises.
pub commit_terminal-refused :
    (run : Run) (identity : String) (s : Store)
    → commit_target run identity s ≡ none
    → ((commit_terminal run identity s).1 ≡ s)
      × ((a : Run) → (commit_terminal run identity s).0 ≢ ok a)
unfolding commit_terminal
commit_terminal-refused run identity s refused = (ground arith, λ a h. ground arith)

record IsChecked (run stored : Run) (identity : String) (s : Store) : Type 0 where
  over : active run.state ≡ false
  owned : owned_by (get s.owners run.id) identity ≡ true
  same : same_owner stored run.user_id run.session_id ≡ true

commit_checks :
    (run stored current : Run) (identity : String) (s : Store)
    → get s.runs run.id ≡ some stored
    → commit_target run identity s ≡ some current
    → IsChecked run stored identity s
commit_checks run stored current identity s found may = ground arith

-- In a well-formed store, a commit to a terminal state by the run's owner, for the run's own user
-- and session, stores the run as it is given and frees the slot of its session, whose transcript and
-- snapshot it replaces only where the run completed or timed out with both; nothing else is written.
pub commit_terminal_lem :
    (run current : Run) (identity : String) (s : Store)
    → IsWf s
    → commit_target run identity s ≡ some current
    → (x : Session) × (get s.sessions run.session_id ≡ some x)
      × (commit_terminal run identity s
          ≡ (ok run, written s run.id run run.session_id (committed x run s.clock)))
unfolding commit_terminal
commit_terminal_lem run current identity s inv may = elim (Option-cases (get s.runs run.id)) [
  | inl absent ↦ ground (arith, absent)
  | inr (stored, found) ↦
      let checks = commit_checks run stored current identity s found may in
      let (user, place) = same_owner-eq stored run.user_id run.session_id checks.same in
      let here : get s.sessions stored.session_id ≡ some (home run.id stored s inv found) =
        at_home run.id stored s inv found in
      let there = rw place at here in
      let key = inv.session_key run.session_id (home run.id stored s inv found) there in
      elim (Bool-cases (replaces_snapshot run)) [
        | inl new ↦ (
          home run.id stored s inv found,
          there,
          rw (checks.over, found, checks.owned, checks.same, there, new, key),
        )
        | inr old ↦ (
          home run.id stored s inv found,
          there,
          rw (checks.over, found, checks.owned, checks.same, there, old, key),
        )
      ]
]

-- A commit may come late: nothing asks whether the run has ended. Where, in a well-formed store,
-- another run holds the session's slot, a commit that passes every check of commit_terminal frees
-- that slot, although the other run is still there and active.
pub late_commit_frees_slot :
    (run current other : Run) (q : Uuid) (identity : String) (s : Store)
    → IsWf s
    → commit_target run identity s ≡ some current
    → slot_in s run.session_id ≡ some (some q)
    → q ≢ run.id
    → get s.runs q ≡ some other
    → (slot_in (commit_terminal run identity s).1 run.session_id ≡ some none)
      × (get (commit_terminal run identity s).1.runs q ≡ some other)
      × (active other.state ≡ true)
late_commit_frees_slot run current other q identity s inv may taken differ there =
    let (x, here, e) = commit_terminal_lem run current identity s inv may in
    rw e (
      slot_in-written s run.id run run.session_id (committed x run s.clock) run.session_id
          ∙ ground (arith, string_eq.beq_iff run.session_id run.session_id),
      ground (arith, get-put s.runs run.id q run, nat_eq.beq_iff run.id q),
      ground (arith, here, inv.slot run.session_id x q),
    )
