-- ===== src/InMemory/Invariant.antt =====
-- What holds of the store between two calls: of sessions, runs and event logs together.
pub mod Updates
pub mod Additions
pub mod Methods
pub mod Growth
pub mod Conversations
pub mod Reachable
use claudeagentsdk_cloudrun.Prelude.{
  ℕ, suc, String, ◌≡◌, Bool, true, false, List, [], ◌∷◌, Option, none, some, Eq, nat_eq, string_eq,
}
use claudeagentsdk_cloudrun.Dict.{Dict, get}
use claudeagentsdk_cloudrun.Models.RunStates.{active}
use claudeagentsdk_cloudrun.Models.Records.{Uuid, Session, Run, ChatEvent}
use claudeagentsdk_cloudrun.InMemory.State.{Store}

-- The run that a session's slot names belongs to the session and is active.
abbrev pub IsActiveIn : String → Option Run → Type 0
IsActiveIn k none = ⊥
IsActiveIn k (some run) = (run.session_id ≡ k) × (active run.state ≡ true)

-- The session of a run is there, and its user is the run's.
abbrev pub IsHomeOf : String → Option Session → Type 0
IsHomeOf user_id none = ⊥
IsHomeOf user_id (some session) = session.user_id ≡ user_id

abbrev pub HasLog : Option (Dict String ChatEvent) → Type 0
HasLog none = ⊥
HasLog (some events) = Unit

-- Events are stored under their ids, and numbered in the order in which they came.
abbrev pub Numbered : Uuid → ℕ → Dict String ChatEvent → Type 0
Numbered r n [] = Unit
Numbered r n ((k, e) ∷ d) = (e.id ≡ k) × (e.run_id ≡ r) × (e.sequence ≡ n) × Numbered r (suc n) d

module _ (sessions : Dict String Session) (runs : Dict Uuid Run)
    (events : Dict Uuid (Dict String ChatEvent)) where
  pub record IsConsistent : Type 0 where
    pub session_key : (k : String) (x : Session) → get sessions k ≡ some x → x.id ≡ k
    pub run_key : (r : Uuid) (run : Run) → get runs r ≡ some run → run.id ≡ r
    pub slot :
        (k : String) (x : Session) (r : Uuid)
        → get sessions k ≡ some x
        → x.active_run_id ≡ some r
        → IsActiveIn k (get runs r)
    pub home :
        (r : Uuid) (run : Run)
        → get runs r ≡ some run
        → IsHomeOf run.user_id (get sessions run.session_id)
    pub log : (r : Uuid) (run : Run) → get runs r ≡ some run → HasLog (get events r)
    pub numbered : (r : Uuid) (d : Dict String ChatEvent) → get events r ≡ some d → Numbered r 0 d

abbrev pub IsWf : Store → Type 0
IsWf s = IsConsistent s.sessions s.runs s.events
