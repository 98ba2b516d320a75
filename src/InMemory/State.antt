-- ===== src/InMemory/State.antt =====
-- The fields of InMemoryChatStore, and what its environment holds.
use claudeagentsdk_cloudrun.Prelude.{ℕ, String, List, [], Option, none, some}
use claudeagentsdk_cloudrun.Errors.{Error, error, key_error}
use claudeagentsdk_cloudrun.Dict.{Dict}
use claudeagentsdk_cloudrun.Models.Records.{
  Uuid, Time, Session, Run, ChatEvent, ReconciliationLease,
}
use claudeagentsdk_cloudrun.Models.Questions.{QuestionRequest}

-- A callback is known by its identity; that it is called is recorded.
abbrev pub Callback : Type 0
Callback = ℕ

pub data Delivery : Type 0 where
  event_to : Callback → ChatEvent → Delivery
  question_to : Callback → QuestionRequest → Delivery

pub record Store : Type 0 where
  pub sessions : Dict String Session
  pub runs : Dict Uuid Run
  pub events : Dict Uuid (Dict String ChatEvent)
  pub owners : Dict Uuid String
  pub subscriptions : Dict Uuid (List Callback)
  pub questions : Dict Uuid (Dict String QuestionRequest)
  pub question_subscriptions : Dict (Uuid × String) (List Callback)
  pub leases : Dict Uuid ReconciliationLease
  -- of the environment: what datetime.now(UTC) returns, and the callbacks that were made
  pub clock : Time
  pub delivered : List Delivery

abbrev pub empty : Time → Store
empty now = record {
  sessions = [];
  runs = [];
  events = [];
  owners = [];
  subscriptions = [];
  questions = [];
  question_subscriptions = [];
  leases = [];
  clock = now;
  delivered = [];
}

-- The KeyError of `d[key]`.
abbrev pub missing : Error
missing = error key_error "key"

-- d.get(key, [])
abbrev pub or_nil {ℓ} : {A : Type ℓ} → Option (List A) → List A
or_nil none = []
or_nil (some xs) = xs
