-- ===== src/Exec/Keeps.antt =====
-- A property of the state that an action keeps, whether it returns or raises: one rule for each
-- way to build an action.
use claudeagentsdk_cloudrun.Prelude.{Bool, true, false, Option, none, some, if◌then◌else◌}
use claudeagentsdk_cloudrun.Errors.{Error}
use claudeagentsdk_cloudrun.Exec.{
  Exec, Result, ok, err, pure, raise, lift, gets, modify, guard, require, continue, ◌>>=◌, ◌>>◌,
}

pub record Keeps {S A : Type 0} (P : S → Type 0) (m : Exec S A) : Type 0 where
  pub at : (s : S) → P s → P (m s).1

module _ {S A : Type 0} {P : S → Type 0} where
  pub Keeps-if : (b : Bool) (m n : Exec S A) → Keeps P m → Keeps P n → Keeps P (if b then m else n)
  Keeps-if true m n km kn = km
  Keeps-if false m n km kn = kn

  pub Keeps-pure : (a : A) → Keeps P (pure {S = S} a)
  Keeps-pure a = record { at = λ s h. h }

  pub Keeps-raise : (e : Error) → Keeps P (raise {S = S} {A = A} e)
  Keeps-raise e = record { at = λ s h. h }

  pub Keeps-lift : (r : Result A) → Keeps P (lift {S = S} r)
  Keeps-lift r = record { at = λ s h. h }

  pub Keeps-gets : (f : S → A) → Keeps P (gets f)
  Keeps-gets f = record { at = λ s h. h }

  pub Keeps-require : (o : Option A) (e : Error) → Keeps P (require {S = S} o e)
  Keeps-require none e = record { at = λ s h. h }
  Keeps-require (some a) e = record { at = λ s h. h }

module _ {S : Type 0} {P : S → Type 0} where
  pub Keeps-modify : (f : S → S) → ((s : S) → P s → P (f s)) → Keeps P (modify f)
  Keeps-modify f h = record { at = h }

  pub Keeps-guard : (b : Bool) (e : Error) → Keeps P (guard {S = S} b e)
  Keeps-guard true e = record { at = λ s h. h }
  Keeps-guard false e = record { at = λ s h. h }

module _ {S A B : Type 0} {P : S → Type 0} where
  continue_lem :
      (f : A → Exec S B) (r : Result A) (s : S)
      → ((a : A) → Keeps P (f a))
      → P s
      → P (continue f (r, s)).1
  continue_lem f (ok a) s kf h = (kf a).at s h
  continue_lem f (err e) s kf h = h

  pub Keeps-bind :
      (first : Exec S A) (rest : A → Exec S B)
      → Keeps P first
      → ((a : A) → Keeps P (rest a))
      → Keeps P (first >>= rest)
  Keeps-bind m f km kf = record { at = λ s h. continue_lem f (m s).0 (m s).1 kf (km.at s h) }

  pub Keeps-seq : (m : Exec S A) (n : Exec S B) → Keeps P m → Keeps P n → Keeps P (m >> n)
  Keeps-seq m n km kn = Keeps-bind m (λ _. n) km (λ _. kn)

pub ruleset keeps_rules = (
  Keeps-pure, Keeps-raise, Keeps-lift, Keeps-gets, Keeps-require, Keeps-if, Keeps-guard, Keeps-bind,
  Keeps-seq,
)
