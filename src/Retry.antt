-- ===== src/Retry.antt =====
-- cas_hosting_adapter/retry.py
pub mod Attempts
use claudeagentsdk_cloudrun.Prelude.{
  ℕ, zero, suc, ◌*◌, ◌^◌, ◌+◌, ◌-◌, ◌≡◌, Bool, true, false, ◌&&◌, ◌||◌, not, String, Option, none,
  some, List, [], ◌∷◌, ◌++◌, leb, nat_beq, min, if◌then◌else◌,
}

-- What an error shows of itself: whether it is an OSError, and its attributes.
pub data Attribute : Type 0 where
  absent : Attribute
  number : ℕ → Attribute
  text : String → Attribute

pub record Failure : Type 0 where
  pub is_os_error : Bool
  pub status_code : Attribute
  pub code : Attribute

-- getattr(error, "status_code", None) or getattr(error, "code", None)
unfoldable pub status : Attribute → Attribute → Attribute
status absent code = code
status (number zero) code = code
status (number (suc n)) code = number (suc n)
status (text Prim.Native.String.[]) code = code
status (text s) code = text s

-- status in {408, 429} or isinstance(status, int) and 500 <= status <= 599
abbrev pub retryable_status : Attribute → Bool
retryable_status (number n) = nat_beq n 408 || nat_beq n 429 || (leb 500 n && leb n 599)
retryable_status _ = false

unfoldable pub is_retryable : Failure → Bool
unfolding status
is_retryable e = e.is_os_error || retryable_status (status e.status_code e.code)

pub data Outcome (A : Type 0) : Type 0 where
  returned : A → Outcome A
  raised : Failure → Outcome A

-- The calls and the sleeps of a retried operation. Its world holds what the operation changes; a
-- random value is a number of thousandths, a sleep a number of microseconds.
pub record Trace (W : Type 0) : Type 0 where
  pub world : W
  pub calls : ℕ
  pub sleeps : List ℕ
  pub random : ℕ → ℕ

-- min(5.0, 0.5 * 2 ** attempt), in milliseconds
abbrev pub bound : ℕ → ℕ
bound n = min 5000 (500 * 2 ^ n)

module _ {W A : Type 0} (operation : W → Outcome A × W) where
  abbrev pub call : Trace W → Outcome A × Trace W
  call t = let (o, w) = operation t.world in (o, record t { world = w; calls = t.calls + 1 })

  abbrev pub slept : ℕ → Trace W → Trace W
  slept n t = record t { sleeps = t.sleeps ++ t.random n * bound n ∷ [] }

  -- What follows a call: `last` says that it was the last attempt.
  unfoldable pub retry_after :
      Bool → ℕ → (Trace W → Outcome A × Trace W) → Outcome A × Trace W → Outcome A × Trace W
  unfolding is_retryable
  retry_after last n again (returned a, t) = (returned a, t)
  retry_after last n again (raised e, t) =
      if last || not (is_retryable e) then (raised e, t) else again (slept n t)

  -- The loop from attempt `n` on; `left` is the number of attempts after it.
  unfoldable pub retry_from : ℕ → ℕ → Trace W → Outcome A × Trace W
  unfolding retry_after
  retry_from zero n t = retry_after true n call (call t)
  retry_from (suc left) n t = retry_after false n (retry_from left (n + 1)) (call t)

  -- for attempt in range(3)
  unfoldable pub retry_safe : Trace W → Outcome A × Trace W
  unfolding retry_from
  retry_safe t = retry_from 2 0 t
