-- ===== src/Text/Laws.antt =====
-- Laws of texts: `strip`, `s[:n]` and the digits of a number.
use Prim.Native.Char.{Char}
use Prim.Native.String.{String, [], ◌∷◌}
use claudeagentsdk_cloudrun.Prelude.{
  leb, ◌/◌, ◌≡◌, refl, arith, true, false, inl, inr, Bool-cases, ◌≤◌, ℕ, zero, suc,
}
use claudeagentsdk_cloudrun.Text.{digits, is_space, lstrip, rstrip, strip, length, take}

pub rstrip_idem : (s : String) → rstrip (rstrip s) ≡ rstrip s
unfolding rstrip
rstrip_idem [] = refl
rstrip_idem (c ∷ s) = ground (arith, rstrip_idem s)

pub length-take-le : (n : ℕ) (s : String) → length (take n s) ≤ n
length-take-le zero s = omega arith
length-take-le (suc n) [] = omega arith
length-take-le (suc n) (c ∷ s) = omega (arith, length-take-le n s)

lstrip-text : (c : Char) (s : String) → is_space c ≡ false → lstrip (c ∷ s) ≡ c ∷ s
unfolding lstrip
lstrip-text c s e = rw e

rstrip-text : (c : Char) (s : String) → is_space c ≡ false → rstrip (c ∷ s) ≡ c ∷ rstrip s
unfolding rstrip
rstrip-text c s e = rw e

lstrip-space : (c : Char) (s : String) → is_space c ≡ true → lstrip (c ∷ s) ≡ lstrip s
unfolding lstrip
lstrip-space c s e = rw e

lstrip-rstrip : (s : String) → lstrip (rstrip (lstrip s)) ≡ rstrip (lstrip s)
lstrip-rstrip [] = unfold lstrip rstrip in refl
lstrip-rstrip (c ∷ s) = elim (Bool-cases (is_space c)) [
  | inl e ↦ rw (lstrip-space c s e) (lstrip-rstrip s)
  | inr e ↦ rw (lstrip-text c s e, rstrip-text c s e) (lstrip-text c (rstrip s) e)
]

-- White space at the ends goes at once.
pub strip_idem : (s : String) → strip (strip s) ≡ strip s
unfolding strip
strip_idem s = rw lstrip-rstrip (rstrip_idem (lstrip s))

-- More fuel than the number gives the same digits: `decimal` has enough.
pub digits_enough : (fuel more n : ℕ) → suc n ≤ fuel → suc n ≤ more → digits fuel n ≡ digits more n
unfolding digits
digits_enough zero more n h k = absurd (omega arith)
digits_enough (suc fuel) zero n h k = absurd (omega arith)
digits_enough (suc fuel) (suc more) n h k = elim (Bool-cases (leb n 9)) [
  | inl short ↦ rw short refl
  | inr long ↦
      let big : 10 ≤ n = ground (arith, long) in
      rw (long, digits_enough fuel more (n / 10) (omega (arith, big)) (omega (arith, big))) refl
]
