-- ===== src/Models/Ids.antt =====
-- models.py: the identifiers that are derived from a request. `sha256` stands for the digest of
-- a text's UTF-8 encoding, a function of the language's library.
pub mod Bits
pub mod Hex
use Prim.Native.Char.{Char}
use Prim.Native.String.{String, [], ◌∷◌, ◌++◌}
use claudeagentsdk_cloudrun.Prelude.{
  ℕ, zero, suc, ◌+◌, ◌*◌, ◌/◌, ◌%◌, ◌^◌, ◌≡◌, refl, Bool, List, nat_beq, ltb, if◌then◌else◌, arith,
}
use claudeagentsdk_cloudrun.Errors.{error, value_error}
use claudeagentsdk_cloudrun.Exec.{Result, ok, err}
use claudeagentsdk_cloudrun.Text.{strip, is_blank}
use claudeagentsdk_cloudrun.Models.Records.{Uuid}

pub data Namespace : Type 0 where
  session workspace run question : Namespace

-- _ID_NAMESPACES
unfoldable pub prefix : Namespace → String
prefix session = "cas/session/v1"
prefix workspace = "cas/workspace/v1"
prefix run = "cas/run/v1"
prefix question = "cas/question/v1"

-- The lower-case hexadecimal digits.
abbrev hex_digit : ℕ → String
hex_digit n =
    if nat_beq n 0
    then "0"
    else if nat_beq n 1
    then "1"
    else if nat_beq n 2
    then "2"
    else if nat_beq n 3
    then "3"
    else if nat_beq n 4
    then "4"
    else if nat_beq n 5
    then "5"
    else if nat_beq n 6
    then "6"
    else if nat_beq n 7
    then "7"
    else if nat_beq n 8
    then "8"
    else if nat_beq n 9
    then "9"
    else if nat_beq n 10
    then "a"
    else if nat_beq n 11
    then "b"
    else if nat_beq n 12
    then "c"
    else if nat_beq n 13
    then "d"
    else if nat_beq n 14
    then "e"
    else "f"

-- The last `k` hexadecimal digits of a number.
unfoldable pub hex : ℕ → ℕ → String
hex zero n = ""
hex (suc k) n = hex k (n / 16) ++ hex_digit (n % 16)

-- str(UUID(int=n))
unfoldable pub str : Uuid → String
unfolding hex
str n =
    hex 8 (n / 2 ^ 96)
    ++ "-"
    ++ hex 4 (n / 2 ^ 80)
    ++ "-"
    ++ hex 4 (n / 2 ^ 64)
    ++ "-"
    ++ hex 4 (n / 2 ^ 48)
    ++ "-"
    ++ hex 12 n

-- UUID(bytes=…, version=4): four bits hold the version, two the variant.
unfoldable pub version_4 : ℕ → Uuid
version_4 n =
    n / 2 ^ 80 * 2 ^ 80 + 4 * 2 ^ 76 + n / 2 ^ 64 % 2 ^ 12 * 2 ^ 64 + 2 * 2 ^ 62 + n % 2 ^ 62

-- The text that is hashed for a session, a workspace or a run.
unfoldable pub hashed_text : Namespace → String → String → String
unfolding prefix strip
hashed_text namespace user_id idempotency_key =
    prefix namespace ++ ("\0" ++ (strip user_id ++ ("\0" ++ idempotency_key)))

module _ (sha256 : String → ℕ) where
  -- The first sixteen bytes of the digest.
  unfoldable pub deterministic_uuid : Namespace → String → String → Result Uuid
  unfolding hashed_text version_4
  deterministic_uuid namespace user_id idempotency_key =
      if is_blank user_id
      then err (error value_error "user_id must not be blank")
      else if is_blank idempotency_key
      then err (error value_error "idempotency_key must not be blank")
      else ok (version_4 (sha256 (hashed_text namespace user_id idempotency_key) / 2 ^ 128))

  abbrev map_str : Result Uuid → Result String
  map_str (ok n) = ok (str n)
  map_str (err e) = err e

  unfoldable pub derive_session_id : String → String → Result String
  unfolding deterministic_uuid str
  derive_session_id user_id idempotency_key =
      map_str (deterministic_uuid session user_id idempotency_key)

  unfoldable pub derive_workspace_id : String → String → Result String
  unfolding deterministic_uuid str
  derive_workspace_id user_id idempotency_key =
      map_str (deterministic_uuid workspace user_id idempotency_key)

  unfoldable pub derive_run_id : String → String → Result Uuid
  unfolding deterministic_uuid
  derive_run_id user_id idempotency_key = deterministic_uuid run user_id idempotency_key
