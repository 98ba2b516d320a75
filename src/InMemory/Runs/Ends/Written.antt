-- ===== src/InMemory/Runs/Ends/Written.antt =====
-- A store after the write of one run and one session, and what it shows of states and slots.
use claudeagentsdk_cloudrun.Prelude.{
  String, ◌≡◌, Option, none, some, arith, nat_eq, string_eq, if◌then◌else◌,
}
use claudeagentsdk_cloudrun.Dict.{get, put, get-put}
use claudeagentsdk_cloudrun.Models.RunStates.{RunState}
use claudeagentsdk_cloudrun.Models.Records.{Uuid, Run, Session}
use claudeagentsdk_cloudrun.InMemory.State.{Store}

abbrev pub state_of : Option Run → Option RunState
state_of none = none
state_of (some run) = some run.state

abbrev pub slot_of : Option Session → Option (Option Uuid)
slot_of none = none
slot_of (some x) = some x.active_run_id

-- The state of a run, and the slot of a session, where they are there.
abbrev pub state_in : Store → Uuid → Option RunState
state_in s r = state_of (get s.runs r)

abbrev pub slot_in : Store → String → Option (Option Uuid)
slot_in s k = slot_of (get s.sessions k)

abbrev pub written : Store → Uuid → Run → String → Session → Store
written s r run k x = record s { runs = put s.runs r run; sessions = put s.sessions k x }

module _ (s : Store) (r : Uuid) (run : Run) (k : String) (x : Session) where
  pub state_in-written :
      (q : Uuid)
      → state_in (written s r run k x) q ≡ (if nat_eq.beq r q then some run.state else state_in s q)
  state_in-written q = rw get-put (ground arith)

  pub slot_in-written :
      (j : String)
      → slot_in (written s r run k x) j
        ≡ (if string_eq.beq k j then some x.active_run_id else slot_in s j)
  slot_in-written j = rw get-put (ground arith)

  -- A write that leaves the slot of its session alone leaves every slot alone.
  pub slot_in-same :
      slot_in s k ≡ some x.active_run_id
      → (j : String) → slot_in (written s r run k x) j ≡ slot_in s j
  slot_in-same same j = rw get-put (ground (arith, string_eq.beq_iff k j))
