-- ===== src/Errors.antt =====
-- cas_hosting_adapter/errors.py: the error classes with their stable details, and the builtin
-- exceptions that the modelled code raises.
use claudeagentsdk_cloudrun.Prelude.{String, Bool, true, false, Option, none, some}

pub data ErrorClass : Type 0 where
  hosting validation session_not_found session_ownership session_expired : ErrorClass
  session_unsupported workspace_error workspace_corrupted session_incompatible : ErrorClass
  workspace_too_large agent_error agent_question_timeout operation_error : ErrorClass
  execution_not_found execution_temporary execution_permission execution_conflict : ErrorClass
  execution_quota active_run_conflict timeout configuration : ErrorClass
  question_not_found question_ownership question_conflict question_closed : ErrorClass
  -- not of errors.py
  value_error key_error file_not_found file_exists os_error assertion_error other : ErrorClass

pub record ErrorDetail : Type 0 where
  pub code : String
  pub retryable : Bool
  pub stage : String

abbrev detail_of : String → Bool → String → Option ErrorDetail
detail_of code retryable stage = some (record { code = code; retryable = retryable; stage = stage })

-- `none`: the class is not a `HostingError`.
unfoldable pub detail : ErrorClass → Option ErrorDetail
detail hosting = detail_of "internal" false "configuration"
detail validation = detail_of "validation" false "validation"
detail session_not_found = detail_of "session_not_found" false "session"
detail session_ownership = detail_of "session_owner_mismatch" false "session"
detail session_expired = detail_of "session_expired" false "session"
detail session_unsupported = detail_of "unsupported" false "session"
detail workspace_error = detail_of "workspace_error" false "workspace"
detail workspace_corrupted = detail_of "workspace_corrupted" false "workspace"
detail session_incompatible = detail_of "session_incompatible" false "workspace"
detail workspace_too_large = detail_of "workspace_too_large" false "workspace"
detail agent_error = detail_of "agent_error" false "agent"
detail agent_question_timeout = detail_of "timed_out" false "question"
detail operation_error = detail_of "operation_error" true "operation"
detail execution_not_found = detail_of "execution_not_found" false "execution"
detail execution_temporary = detail_of "execution_temporary" true "execution"
detail execution_permission = detail_of "execution_permission_denied" false "execution"
detail execution_conflict = detail_of "execution_conflict" false "execution"
detail execution_quota = detail_of "execution_quota_exceeded" true "execution"
detail active_run_conflict = detail_of "active_run" false "conflict"
detail timeout = detail_of "timed_out" false "timeout"
detail configuration = detail_of "configuration" false "configuration"
detail question_not_found = detail_of "question_not_found" false "question"
detail question_ownership = detail_of "question_owner_mismatch" false "question"
detail question_conflict = detail_of "question_conflict" false "question"
detail question_closed = detail_of "question_closed" false "question"
detail _ = none

-- isinstance(error, AgentError), isinstance(error, WorkspaceError)
abbrev pub is_agent_error : ErrorClass → Bool
is_agent_error agent_error = true
is_agent_error agent_question_timeout = true
is_agent_error _ = false

abbrev pub is_workspace_error : ErrorClass → Bool
is_workspace_error workspace_error = true
is_workspace_error workspace_corrupted = true
is_workspace_error session_incompatible = true
is_workspace_error workspace_too_large = true
is_workspace_error _ = false

pub record Error : Type 0 where
  pub kind : ErrorClass
  pub message : String

abbrev pub error : ErrorClass → String → Error
error kind message = record { kind = kind; message = message }

-- type(error).__name__
unfoldable pub class_name : ErrorClass → String
class_name hosting = "HostingError"
class_name validation = "ValidationError"
class_name session_not_found = "SessionNotFoundError"
class_name session_ownership = "SessionOwnershipError"
class_name session_expired = "SessionExpiredError"
class_name session_unsupported = "SessionUnsupportedError"
class_name workspace_error = "WorkspaceError"
class_name workspace_corrupted = "WorkspaceCorruptedError"
class_name session_incompatible = "SessionIncompatibleError"
class_name workspace_too_large = "WorkspaceTooLargeError"
class_name agent_error = "AgentError"
class_name agent_question_timeout = "AgentQuestionTimeoutError"
class_name operation_error = "OperationError"
class_name execution_not_found = "ExecutionNotFoundError"
class_name execution_temporary = "ExecutionTemporaryError"
class_name execution_permission = "ExecutionPermissionError"
class_name execution_conflict = "ExecutionConflictError"
class_name execution_quota = "ExecutionQuotaError"
class_name active_run_conflict = "ActiveRunConflictError"
class_name timeout = "TimeoutError"
class_name configuration = "ConfigurationError"
class_name question_not_found = "QuestionNotFoundError"
class_name question_ownership = "QuestionOwnershipError"
class_name question_conflict = "QuestionConflictError"
class_name question_closed = "QuestionClosedError"
class_name value_error = "ValueError"
class_name key_error = "KeyError"
class_name file_not_found = "FileNotFoundError"
class_name file_exists = "FileExistsError"
class_name os_error = "OSError"
class_name assertion_error = "AssertionError"
class_name other = "Exception"
