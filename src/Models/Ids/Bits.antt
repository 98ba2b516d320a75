-- ===== src/Models/Ids/Bits.antt =====
-- The derived identifiers are UUIDs of version 4.
use claudeagentsdk_cloudrun.Prelude.{ℕ, suc, ◌/◌, ◌%◌, ◌^◌, ◌≤◌, ◌≡◌, arith}
use claudeagentsdk_cloudrun.Models.Ids.{version_4}

-- The UUID of version 4 that is made of any 128 bits has 128 bits: the four version bits are 4,
-- the two variant bits 2, and the other 122 are those that were given, the upper 48, the 12 in
-- the middle and the lower 62.
pub version_4_lem :
    (n : ℕ)
    → suc n ≤ 2 ^ 128
    → (suc (version_4 n) ≤ 2 ^ 128)
      × (version_4 n / 2 ^ 76 % 2 ^ 4 ≡ 4)
      × (version_4 n / 2 ^ 62 % 2 ^ 2 ≡ 2)
      × (version_4 n / 2 ^ 80 ≡ n / 2 ^ 80)
      × (version_4 n / 2 ^ 64 % 2 ^ 12 ≡ n / 2 ^ 64 % 2 ^ 12)
      × (version_4 n % 2 ^ 62 ≡ n % 2 ^ 62)
unfolding version_4
version_4_lem n h = (omega arith, omega arith, omega arith, omega arith, omega arith, omega arith)
