-- ===== src/InMemory/Leases/Exclusion.antt =====
-- A reconciliation lease keeps other holders out until it runs out.
use claudeagentsdk_cloudrun.Prelude.{
  ◌+◌, String, ◌≡◌, ◌≢◌, ◌∙◌, true, false, Option, none, some, arith, nat_eq, string_eq, ltb,
  if◌then◌else◌, Bool-cases, inl, inr,
}
use claudeagentsdk_cloudrun.Errors.{error, session_ownership}
use claudeagentsdk_cloudrun.Exec.{ok, err}
use claudeagentsdk_cloudrun.Dict.{get, put, remove, get-put_self}
use claudeagentsdk_cloudrun.Models.RunStates.{RunState, active}
use claudeagentsdk_cloudrun.Models.Ids.{str}
use claudeagentsdk_cloudrun.Models.Records.{Uuid, Time, ReconciliationLease}
use claudeagentsdk_cloudrun.InMemory.State.{Store}
use claudeagentsdk_cloudrun.InMemory.Leases.{
  acquire_reconciliation_lease, reconcile_terminal, release_reconciliation_lease, lease_time,
  blocks, held_by,
}

abbrev pub lease_of : Uuid → String → Time → ReconciliationLease
lease_of r holder now = record { run_id = r; holder = holder; expires_at = now + lease_time }

abbrev pub leased : Uuid → String → Store → Store
leased r holder s = record s { leases = put s.leases r (lease_of r holder s.clock) }

module _ (r : Uuid) (holder : String) (s : Store) where
  pub acquire-blocked :
      blocks (get s.leases r) holder s.clock ≡ true
      → acquire_reconciliation_lease r holder s ≡ (ok none, s)
  unfolding acquire_reconciliation_lease
  acquire-blocked busy = rw busy

  pub acquire-free :
      blocks (get s.leases r) holder s.clock ≡ false
      → acquire_reconciliation_lease r holder s
        ≡ (ok (some (lease_of r holder s.clock)), leased r holder s)
  unfolding acquire_reconciliation_lease
  acquire-free free = rw free

  acquired :
      (acquire_reconciliation_lease r holder s).0 ≢ ok none
      → get (acquire_reconciliation_lease r holder s).1.leases r ≡ some (lease_of r holder s.clock)
  acquired won = elim (Bool-cases (blocks (get s.leases r) holder s.clock)) [
    | inl busy ↦ absurd (won (rw (acquire-blocked busy)))
    | inr free ↦ rw (acquire-free free) (get-put_self s.leases r (lease_of r holder s.clock))
  ]

  -- Who does not hold the lease can neither reconcile nor release it.
  module _ (other : held_by (get s.leases r) holder ≡ false) where
    reconcile-refused :
        (target : RunState) (code : Option String)
        → active target ≡ false
        → reconcile_terminal r holder target code s ≡ (err (error session_ownership (str r)), s)
    unfolding reconcile_terminal
    reconcile-refused target code over = rw (over, other)

    release-refused : release_reconciliation_lease r holder s ≡ (ok tt, s)
    unfolding release_reconciliation_lease
    release-refused = rw other

  pub release-held :
      held_by (get s.leases r) holder ≡ true
      → release_reconciliation_lease r holder s ≡ (ok tt, record s { leases = remove s.leases r })
  unfolding release_reconciliation_lease
  release-held mine = rw mine

-- While a lease that was given still stands as it was given and the time is short of 30 seconds
-- after, no other holder is given it and the attempt writes nothing. From that time on another
-- holder is given it, and then the first holder's reconciliation to a terminal state is refused
-- and its release does nothing.
pub lease_exclusive :
    (r : Uuid) (holder other : String) (target : RunState) (code : Option String) (s t : Store)
    → holder ≢ other
    → active target ≡ false
    → (acquire_reconciliation_lease r holder s).0 ≢ ok none
    → get t.leases r ≡ get (acquire_reconciliation_lease r holder s).1.leases r
    → if ltb t.clock (s.clock + lease_time)
      then acquire_reconciliation_lease r other t ≡ (ok none, t)
      else (let after = leased r other t in
          (acquire_reconciliation_lease r other t ≡ (ok (some (lease_of r other t.clock)), after))
          × (reconcile_terminal r holder target code after
              ≡ (err (error session_ownership (str r)), after))
          × (release_reconciliation_lease r holder after ≡ (ok tt, after)))
lease_exclusive r holder other target code s t differ over won kept =
    let stands : get t.leases r ≡ some (lease_of r holder s.clock) =
      kept ∙ acquired r holder s won in
    let new = get-put_self t.leases r (lease_of r other t.clock) in
    let apart : string_eq.beq holder other ≡ false =
      ground (arith, string_eq.beq_iff holder other) in
    let apart' : string_eq.beq other holder ≡ false =
      ground (arith, string_eq.beq_iff other holder) in
    elim (Bool-cases (ltb t.clock (s.clock + lease_time))) [
      | inl early ↦ rw early (acquire-blocked r other t (rw (stands, apart) early))
      | inr late ↦
          let lost : held_by (get (leased r other t).leases r) holder ≡ false = rw new apart' in
          rw late (
            acquire-free r other t (rw (stands, apart) late),
            reconcile-refused r holder (leased r other t) lost target code over,
            release-refused r holder (leased r other t) lost,
          )
    ]
