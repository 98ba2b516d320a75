-- ===== src/InMemory/Port.antt =====
-- InMemoryChatStore as a ChatStore.
use claudeagentsdk_cloudrun.Ports.{ChatStore}
use claudeagentsdk_cloudrun.InMemory.State.{Store}
use claudeagentsdk_cloudrun.InMemory.Sessions
use claudeagentsdk_cloudrun.InMemory.Runs
use claudeagentsdk_cloudrun.InMemory.Runs.Reserve
use claudeagentsdk_cloudrun.InMemory.Runs.Pages
use claudeagentsdk_cloudrun.InMemory.Events
use claudeagentsdk_cloudrun.InMemory.Leases
use claudeagentsdk_cloudrun.InMemory.Questions
use claudeagentsdk_cloudrun.InMemory.Questions.Create

abbrev pub in_memory : ChatStore Store
in_memory = record {
  create_session = Sessions.create_session;
  get_session = Sessions.get_session;
  list_sessions = Sessions.list_sessions;
  list_runs = Pages.list_runs;
  reserve_initial_run = Reserve.reserve_initial_run;
  reserve_run = Reserve.reserve_run;
  save_execution = Runs.save_execution;
  fail_dispatch = Runs.fail_dispatch;
  claim_run = Runs.claim_run;
  heartbeat_run = Runs.heartbeat_run;
  get_run = Runs.get_run;
  get_run_for_job = Runs.get_run_for_job;
  append_event = Events.append_event;
  list_events = Events.list_events;
  latest_event = Events.latest_event;
  request_cancel = Runs.request_cancel;
  commit_terminal = Runs.commit_terminal;
  acquire_reconciliation_lease = Leases.acquire_reconciliation_lease;
  reconcile_terminal = Leases.reconcile_terminal;
  release_reconciliation_lease = Leases.release_reconciliation_lease;
  create_questions = Create.create_questions;
  list_questions_for_job = Questions.list_questions_for_job;
  list_questions = Questions.list_questions;
  answer_question_for_job = Questions.answer_question_for_job;
  answer_question = Questions.answer_question;
}
