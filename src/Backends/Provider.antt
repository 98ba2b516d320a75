-- ===== src/Backends/Provider.antt =====
-- What the execution backends share: a provider's exceptions, by what the code reads of them, the
-- calls of a provider's client, and what a backend remembers between calls. A client is not part
-- of the repository: it is any function of a state that its provider and its network share.
use claudeagentsdk_cloudrun.Prelude.{
  ℕ, String, Bool, false, List, ◌∷◌, Option, none, some, ◌≡◌, refl, ◌⊎◌, inl, inr, nat_eq,
  string_eq, if◌then◌else◌,
}
use claudeagentsdk_cloudrun.Errors.{Error, ErrorDetail, detail, execution_temporary}
use claudeagentsdk_cloudrun.Exec.{Exec, ok, modify}
use claudeagentsdk_cloudrun.Dict.{Dict, put}
use claudeagentsdk_cloudrun.Text.Search.{is_in, lower, upper}
use claudeagentsdk_cloudrun.Models.Records.{Uuid, ExecutionReference}

-- An exception that a client raised, or that the code raised within the same `try`.
pub record Fault : Type 0 where
  -- str(getattr(code, "name", code)), where code is the attribute or None
  pub code : String
  -- the attribute `status`, or else the attribute `code`, where that is a number
  pub status : Option ℕ
  -- getattr(error, "reason", "")
  pub reason : String
  -- str(error)
  pub text : String
  -- isinstance(error, KeyError)
  pub is_key_error : Bool
  -- the message, where the exception is an ExecutionTemporaryError of errors.py
  pub temporary : Option String

code_of : Option ErrorDetail → String
code_of none = "None"
code_of (some d) = d.code

temporary_of : Error → Option String
temporary_of e = elim e.kind [ execution_temporary ↦ some e.message | _ ↦ none ]

-- An error of errors.py as an exception among others.
unfoldable pub fault_of : Error → Fault
unfolding code_of temporary_of detail
fault_of e = record {
  code = code_of (detail e.kind);
  status = none;
  reason = "";
  text = e.message;
  is_key_error = false;
  temporary = temporary_of e;
}

-- str(code).upper() and str(error).lower()
unfoldable pub code_name : Fault → String
unfolding upper
code_name fault = upper fault.code

unfoldable pub lower_text : Fault → String
unfolding lower
lower_text fault = lower fault.text

pub data Answer {ℓ} (A : Type ℓ) : Type ℓ where
  returned : A → Answer A
  failed : Fault → Answer A

abbrev pub Call : Type 0 → Type 0 → Type 0
Call C A = C → Answer A × C

-- _references_by_run and _cancelled
pub record Memory : Type 0 where
  pub references_by_run : Dict Uuid ExecutionReference
  pub cancelled : List String

-- set.add
unfoldable pub add : String → List String → List String
add name names = if is_in names name then names else name ∷ names

module _ {C : Type 0} where
  -- A call whose exception is caught.
  abbrev pub ask : {A : Type 0} → Call C A → Exec (Memory × C) (Answer A)
  ask call (m, c) = let (answer, c') = call c in (ok answer, (m, c'))

  abbrev pub remember : Uuid → ExecutionReference → Exec (Memory × C) (Unit {0})
  remember run_id reference =
      modify
        (λ p. (record p.0 { references_by_run = put p.0.references_by_run run_id reference }, p.1))

  abbrev pub mark_cancelled : String → Exec (Memory × C) (Unit {0})
  mark_cancelled name = modify (λ p. (record p.0 { cancelled = add name p.0.cancelled }, p.1))

pub Answer-cases {ℓ} :
    {A : Type ℓ} (answer : Answer A)
    → ((a : A) × (answer ≡ returned a)) ⊎ ((fault : Fault) × (answer ≡ failed fault))
Answer-cases (returned a) = inl (a, refl)
Answer-cases (failed fault) = inr (fault, refl)
