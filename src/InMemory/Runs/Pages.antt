-- ===== src/InMemory/Runs/Pages.antt =====
-- InMemoryChatStore: list_runs and its cursor. A cursor text is modelled by what it decodes to.
pub mod Complete
use claudeagentsdk_cloudrun.Prelude.{
  ℕ, String, Bool, ◌&&◌, ◌||◌, not, List, Option, none, some, string_eq, nat_beq, ltb, keep, take,
  last?, length, if◌then◌else◌,
}
use claudeagentsdk_cloudrun.Prelude.Sorting.{sort}
use claudeagentsdk_cloudrun.Errors.{error, value_error}
use claudeagentsdk_cloudrun.Exec.{Exec, Result, ok, err, pure, lift, gets, guard, ◌>>=◌, ◌>>◌}
use claudeagentsdk_cloudrun.Dict.{values}
use claudeagentsdk_cloudrun.Models.Records.{
  Uuid, Time, Run, RunCursor, position, malformed, RunPage,
}
use claudeagentsdk_cloudrun.InMemory.State.{Store}
use claudeagentsdk_cloudrun.InMemory.Sessions.{get_session}

unfoldable pub decode_run_cursor : RunCursor → Result (Time × Uuid)
decode_run_cursor (position created_at run_id) = ok (created_at, run_id)
decode_run_cursor malformed = err (error value_error "invalid run cursor")

-- (a.created_at, str(a.id)) < (b.created_at, str(b.id)); the text of a UUID has a fixed width, so
-- its order is the number's.
abbrev pub key_lt : Time × Uuid → Time × Uuid → Bool
key_lt a b = ltb a.0 b.0 || (nat_beq a.0 b.0 && ltb a.1 b.1)

abbrev pub run_key : Run → Time × Uuid
run_key run = (run.created_at, run.id)

abbrev pub run_lt : Run → Run → Bool
run_lt a b = key_lt (run_key a) (run_key b)

unfoldable pub session_runs : String → Store → List Run
unfolding sort
session_runs session_id s =
    sort run_lt (keep (λ run. string_eq.beq run.session_id session_id) (values s.runs))

abbrev cursor_of : Option Run → Option RunCursor
cursor_of none = none
cursor_of (some last) = some (position last.created_at last.id)

unfoldable pub run_page : ℕ → List Run → RunPage
run_page limit runs = record {
  runs = take limit runs;
  next_cursor = if ltb limit (length runs) then cursor_of (last? (take limit runs)) else none;
}

unfoldable pub runs_after : Option RunCursor → List Run → Result (List Run)
unfolding decode_run_cursor
runs_after none runs = ok runs
runs_after (some (position created_at run_id)) runs =
    ok (keep (λ run. key_lt (created_at, run_id) (run_key run)) runs)
runs_after (some malformed) runs = err (error value_error "invalid run cursor")

unfoldable pub list_runs : String → String → Option RunCursor → ℕ → Exec Store RunPage
unfolding session_runs runs_after run_page get_session
list_runs user_id session_id cursor limit = do
  guard (not (ltb limit 1)) (error value_error "limit must be positive")
  get_session user_id session_id
  runs ← gets (session_runs session_id)
  rest ← lift (runs_after cursor runs)
  pure (run_page limit rest)
