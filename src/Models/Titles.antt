-- ===== src/Models/Titles.antt =====
-- models.py: normalize_session_title.
pub mod Bounds
use claudeagentsdk_cloudrun.Prelude.{ℕ, String, ◌≡◌, Bool, List, [], ◌∷◌, nat_beq, if◌then◌else◌}
use claudeagentsdk_cloudrun.Errors.{error, value_error}
use claudeagentsdk_cloudrun.Exec.{Result, ok, err}
use claudeagentsdk_cloudrun.Text.{is_empty, strip, collapse, split_lines, take}

-- re.sub(r"\s+", " ", line.strip())
unfoldable pub normalized_line : String → String
unfolding strip collapse
normalized_line line = collapse (strip line)

unfoldable pub first_title : ℕ → List String → Result String
unfolding normalized_line
first_title max_length [] = err (error value_error "prompt must contain a non-whitespace line")
first_title max_length (line ∷ lines) =
    let normalized = normalized_line line in
    if is_empty normalized then first_title max_length lines else ok (take max_length normalized)

unfoldable pub normalize_session_title : String → ℕ → Result String
unfolding first_title split_lines
normalize_session_title prompt max_length =
    if nat_beq max_length 0
    then err (error value_error "max_length must be positive")
    else first_title max_length (split_lines prompt)
