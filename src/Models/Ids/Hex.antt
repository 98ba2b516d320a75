-- ===== src/Models/Ids/Hex.antt =====
-- The hexadecimal digits of a number: as many as asked for, and different for different numbers.
use Prim.Native.String.{count}
use text.Mathlib.TextLemmas.{length-append, append_inj}
use native.Mathlib.Nat.{pow-suc}
use claudeagentsdk_cloudrun.Prelude.{
  ℕ, zero, suc, ◌*◌, ◌/◌, ◌%◌, ◌^◌, ◌<◌, ◌≡◌, ◌∙◌, refl, sym, Bool, false, true, not, ◌||◌, nat_beq,
  string_eq, arith, inl, inr, Bool-cases, if◌then◌else◌,
}
use claudeagentsdk_cloudrun.Models.Ids.{hex, hex_digit}

-- Whether a test passes at each of the numbers 0, 1, …, bound - 1; the digits are compared by it.
passes_to : (ℕ → Bool) → ℕ → Bool
passes_to test zero = true
passes_to test (suc last) = if passes_to test last then test last else false

passes_at :
    (test : ℕ → Bool) (bound : ℕ)
    → passes_to test bound ≡ true
    → (number : ℕ) → number < bound
    → test number ≡ true
unfolding passes_to
passes_at test zero passed number below = absurd (omega arith)
passes_at test (suc last) passed number below = elim (Bool-cases (passes_to test last)) [
  | inr fails ↦ cc (rw fails at passed)
  | inl earlier ↦ ground (arith, passes_at test last earlier number)
]

abbrev differ : ℕ → ℕ → Bool
differ a b = not (string_eq.beq (hex_digit a) (hex_digit b)) || nat_beq a b

differ_table : passes_to (λ a. passes_to (differ a) 16) 16 ≡ true
unfolding passes_to
differ_table = refl

hex_digit_injective : (a b : ℕ) → a < 16 → b < 16 → hex_digit a ≡ hex_digit b → a ≡ b
hex_digit_injective a b ha hb same =
    let row = passes_at (λ a. passes_to (differ a) 16) 16 differ_table a ha in
    let cell = passes_at (differ a) 16 row b hb in
    ground (arith, string_eq.beq_iff (hex_digit a) (hex_digit b))

abbrev is_one : ℕ → Bool
is_one a = nat_beq (count (hex_digit a)) 1

one_table : passes_to is_one 16 ≡ true
unfolding passes_to
one_table = refl

count-hex_digit : (a : ℕ) → a < 16 → count (hex_digit a) ≡ 1
count-hex_digit a h = let cell = passes_at is_one 16 one_table a h in ground arith

pub count-hex : (k n : ℕ) → count (hex k n) ≡ k
unfolding hex
count-hex zero n = refl
count-hex (suc k) n =
    rw (length-append (hex k (n / 16)) (hex_digit (n % 16)))
      (omega (arith, count-hex k (n / 16), count-hex_digit (n % 16) (omega arith)))

shrink : (k n : ℕ) → n < 16 ^ suc k → n / 16 < 16 ^ k
shrink k n h = let power : 16 ^ suc k ≡ 16 ^ k * 16 = pow-suc 16 k in omega arith

pub hex_injective : (k m n : ℕ) → m < 16 ^ k → n < 16 ^ k → hex k m ≡ hex k n → m ≡ n
unfolding hex
hex_injective zero m n hm hn same = omega arith
hex_injective (suc k) m n hm hn same =
    let (high, low) = append_inj same (count-hex k (m / 16) ∙ sym (count-hex k (n / 16))) in
    let above = hex_injective k (m / 16) (n / 16) (shrink k m hm) (shrink k n hn) high in
    let below = hex_digit_injective (m % 16) (n % 16) (omega arith) (omega arith) low in
    omega (arith, above, below)
