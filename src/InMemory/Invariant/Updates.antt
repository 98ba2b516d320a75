-- ===== src/InMemory/Invariant/Updates.antt =====
-- The writes that the methods make keep the invariant.
use claudeagentsdk_cloudrun.Prelude.{String, ◌≡◌, ◌⊎◌, true, none, some, nat_eq, string_eq, arith}
use claudeagentsdk_cloudrun.Dict.{Dict, get, put, get-put}
use claudeagentsdk_cloudrun.Models.RunStates.{active}
use claudeagentsdk_cloudrun.Models.Records.{Uuid, Session, Run, ChatEvent}
use claudeagentsdk_cloudrun.InMemory.Invariant.{IsActiveIn, IsConsistent}

module _ {sessions : Dict String Session} {runs : Dict Uuid Run}
    {events : Dict Uuid (Dict String ChatEvent)} (inv : IsConsistent sessions runs events) where
  -- A run keeps its identity; it may end only where the session's slot is not its own.
  module _ (r : Uuid) (run run' : Run) (found : get runs r ≡ some run) (same_id : run'.id ≡ run.id)
      (same_session : run'.session_id ≡ run.session_id) (same_user : run'.user_id ≡ run.user_id)
      (x x' : Session) (here : get sessions run.session_id ≡ some x) (same_key : x'.id ≡ x.id)
      (same_owner : x'.user_id ≡ x.user_id)
      (freed : (x'.active_run_id ≡ none)
        ⊎ ((x'.active_run_id ≡ x.active_run_id)
            × (active run.state ≡ true → active run'.state ≡ true))) where
    slot_kept :
        (k : String) (y : Session) (q : Uuid)
        → get (put sessions run.session_id x') k ≡ some y
        → y.active_run_id ≡ some q
        → IsActiveIn k (get (put runs r run') q)
    slot_kept k y q at open_slot = ground (
      arith,
      get-put sessions run.session_id k x',
      get-put runs r q run',
      string_eq.beq_iff run.session_id k,
      nat_eq.beq_iff r q,
      inv.slot k y q,
      inv.slot k x q,
    )

    update_both : IsConsistent (put sessions run.session_id x') (put runs r run') events
    update_both = record {
      session_key = λ k y at. ground (
        arith,
        get-put sessions run.session_id k x',
        string_eq.beq_iff run.session_id k,
        inv.session_key k y,
        inv.session_key run.session_id x,
      );
      run_key = λ q o at.
          ground
            (arith, get-put runs r q run', nat_eq.beq_iff r q, inv.run_key q o, inv.run_key r run);
      slot = slot_kept;
      home = λ q o at. ground (
        arith,
        get-put runs r q run',
        nat_eq.beq_iff r q,
        inv.home q o,
        inv.home r run,
        get-put sessions run.session_id o.session_id x',
        string_eq.beq_iff run.session_id o.session_id,
      );
      log = λ q o at.
          ground (arith, get-put runs r q run', nat_eq.beq_iff r q, inv.log q o, inv.log r run);
      numbered = inv.numbered;
    }

    pub update_at : IsConsistent (put sessions x.id x') (put runs r run') events
    update_at = rw (inv.session_key run.session_id x here) update_both

  -- A session in the place of one of the same user, with its slot or with none.
  module _ (x old : Session) (found : get sessions x.id ≡ some old)
      (same_user : x.user_id ≡ old.user_id)
      (same_slot : (x.active_run_id ≡ none) ⊎ (x.active_run_id ≡ old.active_run_id)) where
    pub replace_session : IsConsistent (put sessions x.id x) runs events
    replace_session = record {
      session_key = λ k y at.
          ground (arith, get-put sessions x.id k x, string_eq.beq_iff x.id k, inv.session_key k y);
      run_key = inv.run_key;
      slot = λ k y q at open_slot. ground (
        arith,
        get-put sessions x.id k x,
        string_eq.beq_iff x.id k,
        inv.slot k y q,
        inv.slot x.id old q,
      );
      home = λ q o at. ground (
        arith,
        inv.home q o,
        get-put sessions x.id o.session_id x,
        string_eq.beq_iff x.id o.session_id,
      );
      log = inv.log;
      numbered = inv.numbered;
    }

  -- A run that is active goes on under its identity.
  pub update_run :
      (r : Uuid) (run run' : Run)
      → get runs r ≡ some run
      → run'.id ≡ run.id
      → run'.session_id ≡ run.session_id
      → run'.user_id ≡ run.user_id
      → active run'.state ≡ true
      → IsConsistent sessions (put runs r run') events
  update_run r run run' found same_id same_session same_user going = record {
    session_key = inv.session_key;
    run_key = λ q o at.
        ground
          (arith, get-put runs r q run', nat_eq.beq_iff r q, inv.run_key q o, inv.run_key r run);
    slot = λ k y q at open_slot.
        ground (arith, get-put runs r q run', nat_eq.beq_iff r q, inv.slot k y q);
    home = λ q o at.
        ground (arith, get-put runs r q run', nat_eq.beq_iff r q, inv.home q o, inv.home r run);
    log = λ q o at.
        ground (arith, get-put runs r q run', nat_eq.beq_iff r q, inv.log q o, inv.log r run);
    numbered = inv.numbered;
  }
