-- ===== src/Retry/Attempts.antt =====
-- How often a retried operation is called, when it is called again, and how it ends.
use claudeagentsdk_cloudrun.Prelude.{
  ℕ, zero, suc, ◌+◌, ◌*◌, ◌≤◌, ◌≡◌, refl, sym, ◌∙◌, ap, true, false, arith, List, [], ◌∷◌, ◌++◌,
  Bool-cases, inl, inr, ◌⊎◌,
}
use claudeagentsdk_cloudrun.Retry.{
  Failure, Outcome, returned, raised, Trace, is_retryable, bound, call, slept, retry_after,
  retry_from, retry_safe,
}

-- The sleeps from attempt `n` on, one after each of `made` failed attempts.
abbrev pub waits : (ℕ → ℕ) → ℕ → ℕ → List ℕ
waits random n zero = []
waits random n (suc made) = random n * bound n ∷ waits random (n + 1) made

append_one : {A : Type 0} (xs : List A) (y : A) (zs : List A) → (xs ++ y ∷ []) ++ zs ≡ xs ++ y ∷ zs
append_one [] y zs = refl
append_one (x ∷ xs) y zs = ap (◌∷◌ x) (append_one xs y zs)

append_nil : {A : Type 0} (xs : List A) → xs ≡ xs ++ []
append_nil [] = refl
append_nil (x ∷ xs) = ap (◌∷◌ x) (append_nil xs)

Outcome-cases :
    {A : Type 0} (o : Outcome A) → ((a : A) × (o ≡ returned a)) ⊎ ((e : Failure) × (o ≡ raised e))
Outcome-cases (returned a) = inl (a, refl)
Outcome-cases (raised e) = inr (e, refl)

module _ {W A : Type 0} (operation : W → Outcome A × W) where
  -- The world after `k` calls of the operation, and the outcome of the call that comes then.
  abbrev pub world_after : ℕ → W → W
  world_after zero w = w
  world_after (suc k) w = world_after k (operation w).1

  abbrev pub outcome_after : ℕ → W → Outcome A
  outcome_after k w = (operation (world_after k w)).0

  -- `left` more calls are possible after the first one, whose attempt has the number `n`; `made` of
  -- them are made, each after an error that may be retried and a sleep.
  pub record IsRetried (left n : ℕ) (t u : Trace W) (o : Outcome A) : Type 0 where
    pub made : ℕ
    pub within : made ≤ left
    pub called : u.calls ≡ t.calls + suc made
    pub ends : o ≡ outcome_after made t.world
    pub changed : u.world ≡ world_after (suc made) t.world
    pub retried :
        (k : ℕ)
        → suc k ≤ made
        → (e : Failure) × (outcome_after k t.world ≡ raised e) × (is_retryable e ≡ true)
    pub given_up : (e : Failure) → o ≡ raised e → (is_retryable e ≡ false) ⊎ (made ≡ left)
    pub slept_between : u.sleeps ≡ t.sleeps ++ waits t.random n made

  -- The first call is the last.
  stop-IsRetried :
      (left n : ℕ) (t : Trace W) (o : Outcome A)
      → (operation t.world).0 ≡ o
      → ((e : Failure) → o ≡ raised e → (is_retryable e ≡ false) ⊎ (zero ≡ left))
      → IsRetried left n t (call operation t).1 o
  stop-IsRetried left n t o same final = record {
    made = 0;
    within = omega arith;
    called = refl;
    ends = sym same;
    changed = refl;
    retried = λ k short. absurd (omega (arith, short));
    given_up = final;
    slept_between = append_nil t.sleeps;
  }

  -- The first call fails, and others follow after a sleep.
  again-IsRetried :
      (left n : ℕ) (t u : Trace W) (o : Outcome A) (e : Failure)
      → (operation t.world).0 ≡ raised e
      → is_retryable e ≡ true
      → IsRetried left (n + 1) (slept operation n (call operation t).1) u o
      → IsRetried (suc left) n t u o
  again-IsRetried left n t u o e failed temporary r = record {
    made = suc r.made;
    within = omega (arith, r.within);
    called = omega (arith, r.called);
    ends = r.ends;
    changed = r.changed;
    retried = earlier;
    given_up = λ e' h. elim (r.given_up e' h) [
      | inl never ↦ inl never
      | inr all_used ↦ inr (ap suc all_used)
    ];
    slept_between =
        r.slept_between
        ∙ append_one t.sleeps (t.random n * bound n) (waits t.random (n + 1) r.made);
  }
    where
      earlier :
          (k : ℕ)
          → suc k ≤ suc r.made
          → (e : Failure) × (outcome_after k t.world ≡ raised e) × (is_retryable e ≡ true)
      earlier zero short = (e, failed, temporary)
      earlier (suc k) short = r.retried k (omega (arith, short))

  retry_from-IsRetried :
      (left n : ℕ) (t : Trace W)
      → IsRetried left n t (retry_from operation left n t).1 (retry_from operation left n t).0
  unfolding retry_from retry_after
  retry_from-IsRetried zero n t = elim (Outcome-cases (operation t.world).0) [
    | inl (a, good) ↦ rw good (stop-IsRetried 0 n t (returned a) good (λ e h. inr refl))
    | inr (e, bad) ↦ rw bad (stop-IsRetried 0 n t (raised e) bad (λ e' h. inr refl))
  ]
  retry_from-IsRetried (suc left) n t = elim (Outcome-cases (operation t.world).0) [
    | inl (a, good) ↦ rw good (stop-IsRetried (suc left) n t (returned a) good (λ e h. cc))
    | inr (e, bad) ↦ elim (Bool-cases (is_retryable e)) [
      | inr final ↦
          rw (bad, final)
            (stop-IsRetried (suc left) n t (raised e) bad (λ e' h. inl (ground (arith, final))))
      | inl temporary ↦
          rw (bad, temporary)
            (again-IsRetried left n t _ _ e bad temporary
              (retry_from-IsRetried left (n + 1) (slept operation n (call operation t).1)))
    ]
  ]

  -- A retried operation is called once, twice or three times, one call working on what the one before
  -- left. It is called again exactly after an error that may be retried, at most twice, with the sleep
  -- of that attempt between; the result is the last call's, so that an error comes out only where it
  -- may not be retried or is the third call's.
  pub retry_safe_lem :
      (t : Trace W) → IsRetried 2 0 t (retry_safe operation t).1 (retry_safe operation t).0
  unfolding retry_safe
  retry_safe_lem t = retry_from-IsRetried 2 0 t
