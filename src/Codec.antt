-- ===== src/Codec.antt =====
-- cas_hosting_adapter/firestore_codec.py: document keys, and the time at which a document expires.
-- The fields that model_dump gives of a model are the model itself here.
use claudeagentsdk_cloudrun.Prelude.{
  ℕ, ◌+◌, ◌*◌, String, Bool, false, Option, none, some, leb, ltb, if◌then◌else◌,
}
use claudeagentsdk_cloudrun.Errors.{error, value_error}
use claudeagentsdk_cloudrun.Exec.{Result, ok, err}
use claudeagentsdk_cloudrun.Text.{strip, is_blank}
use claudeagentsdk_cloudrun.Models.Records.{Time, Session, Run, ChatEvent}
use claudeagentsdk_cloudrun.Models.Questions.{QuestionRequest}

-- timedelta(days=1), in microseconds
abbrev pub day : Time
day = 86_400 * 1_000_000

-- `hex_digest` stands for the digest of a text's UTF-8 encoding in hexadecimal digits.
unfoldable pub user_key : (String → String) → String → Result String
unfolding strip
user_key hex_digest user_id =
    if is_blank user_id
    then err (error value_error "user_id must not be blank")
    else ok (hex_digest (strip user_id))

unfoldable pub expiry_at : Time → ℕ → Result Time
expiry_at base retention_days =
    if ltb retention_days 1
    then err (error value_error "retention_days must be positive")
    else ok (base + retention_days * day)

pub record Document (A : Type 0) : Type 0 where
  pub schema_version : String
  pub payload : A
  pub expires_at : Time

abbrev pub document : {A : Type 0} → A → Result Time → Result (Document A)
document a (err e) = err e
document a (ok t) = ok (record { schema_version = "1"; payload = a; expires_at = t })

-- now or base
abbrev pub or_base : Option Time → Time → Time
or_base none base = base
or_base (some now) base = now

unfoldable pub encode_session : Session → ℕ → Option Time → Result (Document Session)
unfolding expiry_at
encode_session session retention_days now =
    document session (expiry_at (or_base now session.updated_at) retention_days)

unfoldable pub encode_run : Run → ℕ → Option Time → Result (Document Run)
unfolding expiry_at
encode_run run retention_days now =
    document run (expiry_at (or_base now run.created_at) retention_days)

unfoldable pub encode_event : ChatEvent → ℕ → Result (Document ChatEvent)
unfolding expiry_at
encode_event event retention_days = document event (expiry_at event.occurred_at retention_days)

-- The expiry of the document takes the place of the question's own.
abbrev expiring : QuestionRequest → Result Time → Result (Document QuestionRequest)
expiring question (err e) = err e
expiring question (ok t) = document (record question { expires_at = some t }) (ok t)

-- now or question.expires_at or question.created_at
unfoldable pub encode_question :
    QuestionRequest → ℕ → Option Time → Result (Document QuestionRequest)
unfolding expiry_at
encode_question question retention_days now =
    expiring question
      (expiry_at (or_base now (or_base question.expires_at question.created_at)) retention_days)

-- Whether a document is gone for its readers; `none` where it has no such field.
unfoldable pub is_expired : Option Time → Time → Bool
is_expired none now = false
is_expired (some expires_at) now = leb expires_at now
