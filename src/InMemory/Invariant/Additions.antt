-- ===== src/InMemory/Invariant/Additions.antt =====
-- New sessions, runs and events keep the invariant.
use claudeagentsdk_cloudrun.Prelude.{
  ℕ, suc, ◌+◌, String, ◌≡◌, true, [], ◌∷◌, ◌++◌, Option, none, some, nat_eq, string_eq, arith,
  length,
}
use claudeagentsdk_cloudrun.Dict.{Dict, get, put, get-put, put_of_none}
use claudeagentsdk_cloudrun.Models.RunStates.{active}
use claudeagentsdk_cloudrun.Models.Records.{Uuid, Session, Run, ChatEvent}
use claudeagentsdk_cloudrun.InMemory.Invariant.{IsActiveIn, Numbered, IsConsistent}

pub Numbered-append :
    (r : Uuid) (n : ℕ) (d : Dict String ChatEvent) (e : ChatEvent)
    → Numbered r n d
    → e.run_id ≡ r
    → e.sequence ≡ n + length d
    → Numbered r n (d ++ (e.id, e) ∷ [])
Numbered-append r n [] e h same at = ground arith
Numbered-append r n ((k, f) ∷ d) e h same at = ground (arith, Numbered-append r (suc n) d e)

pub Numbered-put :
    (r : Uuid) (d : Dict String ChatEvent) (e : ChatEvent)
    → Numbered r 0 d
    → get d e.id ≡ none
    → e.run_id ≡ r
    → e.sequence ≡ length d
    → Numbered r 0 (put d e.id e)
Numbered-put r d e h fresh same at =
    rw (put_of_none d e.id e fresh) (Numbered-append r 0 d e h same (omega arith))

-- The session is new, or its user is this one.
abbrev pub IsNewOrOf : String → Option Session → Type 0
IsNewOrOf user_id none = Unit
IsNewOrOf user_id (some session) = session.user_id ≡ user_id

module _ {sessions : Dict String Session} {runs : Dict Uuid Run}
    {events : Dict Uuid (Dict String ChatEvent)} (inv : IsConsistent sessions runs events) where
  -- A run under a new id takes the slot of its session, which was free or is new.
  module _ (run : Run) (x : Session) (event : ChatEvent) (fresh : get runs run.id ≡ none)
      (going : active run.state ≡ true) (session_id : x.id ≡ run.session_id)
      (user_id : x.user_id ≡ run.user_id) (taken : x.active_run_id ≡ some run.id)
      (before : IsNewOrOf x.user_id (get sessions x.id)) (own_event : event.run_id ≡ run.id)
      (first : event.sequence ≡ 0) where
    slot_taken :
        (k : String) (y : Session) (q : Uuid)
        → get (put sessions x.id x) k ≡ some y
        → y.active_run_id ≡ some q
        → IsActiveIn k (get (put runs run.id run) q)
    slot_taken k y q at open_slot = ground (
      arith,
      get-put sessions x.id k x,
      get-put runs run.id q run,
      string_eq.beq_iff x.id k,
      nat_eq.beq_iff run.id q,
      inv.slot k y q,
    )

    pub add_run :
        IsConsistent
          (put sessions x.id x)
          (put runs run.id run)
          (put events run.id ((event.id, event) ∷ []))
    add_run = record {
      session_key = λ k y at.
          ground (arith, get-put sessions x.id k x, string_eq.beq_iff x.id k, inv.session_key k y);
      run_key = λ q o at.
          ground (arith, get-put runs run.id q run, nat_eq.beq_iff run.id q, inv.run_key q o);
      slot = slot_taken;
      home = λ q o at. ground (
        arith,
        get-put runs run.id q run,
        nat_eq.beq_iff run.id q,
        inv.home q o,
        get-put sessions x.id o.session_id x,
        string_eq.beq_iff x.id o.session_id,
      );
      log = λ q o at. ground (
        arith,
        get-put runs run.id q run,
        nat_eq.beq_iff run.id q,
        inv.log q o,
        get-put events run.id q ((event.id, event) ∷ []),
      );
      numbered = λ q d at. ground (
        arith,
        get-put events run.id q ((event.id, event) ∷ []),
        nat_eq.beq_iff run.id q,
        inv.numbered q d,
      );
    }

  pub add_session :
      (x : Session)
      → get sessions x.id ≡ none
      → x.active_run_id ≡ none
      → IsConsistent (put sessions x.id x) runs events
  add_session x fresh free = record {
    session_key = λ k y at.
        ground (arith, get-put sessions x.id k x, string_eq.beq_iff x.id k, inv.session_key k y);
    run_key = inv.run_key;
    slot = λ k y q at open_slot.
        ground (arith, get-put sessions x.id k x, string_eq.beq_iff x.id k, inv.slot k y q);
    home = λ q o at. ground (
      arith,
      get-put sessions x.id o.session_id x,
      string_eq.beq_iff x.id o.session_id,
      inv.home q o,
    );
    log = inv.log;
    numbered = inv.numbered;
  }

  pub add_event :
      (r : Uuid) (d : Dict String ChatEvent) (e : ChatEvent)
      → get events r ≡ some d
      → get d e.id ≡ none
      → e.run_id ≡ r
      → e.sequence ≡ length d
      → IsConsistent sessions runs (put events r (put d e.id e))
  add_event r d e found fresh same place = record {
    session_key = inv.session_key;
    run_key = inv.run_key;
    slot = inv.slot;
    home = inv.home;
    log = λ q o at. ground (arith, get-put events r q (put d e.id e), inv.log q o);
    numbered = λ q c at. ground (
      arith,
      get-put events r q (put d e.id e),
      nat_eq.beq_iff r q,
      inv.numbered q c,
      Numbered-put r d e (inv.numbered r d found) fresh same place,
    );
  }
