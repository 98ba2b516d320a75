-- ===== src/InMemory/Runs/Pages/Complete.antt =====
-- The pages of list_runs, one after the other, are the whole list.
use claudeagentsdk_cloudrun.Prelude.{
  ℕ, zero, suc, ◌≤◌, ◌≡◌, ap, ◌++◌, take-append-drop, refl, true, false, List, [], ◌∷◌, none, some,
  arith, ltb, keep, take, drop, last?, length, All, Bool-cases, inl, inr, if◌then◌else◌,
}
use claudeagentsdk_cloudrun.Exec.{ok}
use claudeagentsdk_cloudrun.Models.Records.{Run, RunCursor, position}
use claudeagentsdk_cloudrun.InMemory.Runs.Pages.{run_lt, run_page, runs_after}

-- The runs stand in the order of their creation times and ids, no two at the same place.
abbrev pub IsStrict : List Run → Type 0
IsStrict [] = Unit
IsStrict (r ∷ rs) = All (λ x. run_lt r x ≡ true) rs × IsStrict rs

run_lt_asym : (a b : Run) → run_lt a b ≡ true → run_lt b a ≡ false
run_lt_asym a b h = ground arith

run_lt_irrefl : (a : Run) → run_lt a a ≡ false
run_lt_irrefl a = ground arith

keep-All : (r : Run) (rs : List Run) → All (λ x. run_lt r x ≡ true) rs → keep (run_lt r) rs ≡ rs
keep-All r [] h = refl
keep-All r (x ∷ xs) h = rw (h.0, keep-All r xs h.1) refl

last_behind : (r : Run) (rs : List Run) (x : Run) → last? rs ≡ some x → last? (r ∷ rs) ≡ some x
last_behind r [] x h = cc
last_behind r (y ∷ ys) x h = h

take_whole : (n : ℕ) (rs : List Run) → length rs ≤ n → take n rs ≡ rs
take_whole zero [] h = refl
take_whole zero (r ∷ rs) h = absurd (omega arith)
take_whole (suc n) [] h = refl
take_whole (suc n) (r ∷ rs) h = ap (◌∷◌ r) (take_whole n rs (omega arith))

-- The last run of a page: what it is below is what follows the page.
record IsLast (n : ℕ) (rs : List Run) : Type 0 where
  run : Run
  last : last? (take (suc n) rs) ≡ some run
  rest : keep (run_lt run) rs ≡ drop (suc n) rs
  below : (r : Run) → All (λ x. run_lt r x ≡ true) rs → run_lt r run ≡ true

page-IsLast : (n : ℕ) (rs : List Run) → IsStrict rs → suc n ≤ length rs → IsLast n rs
page-IsLast n [] h long = absurd (omega arith)
page-IsLast zero (r ∷ rs) h long = record {
  run = r;
  last = refl;
  rest = rw (run_lt_irrefl r, keep-All r rs h.0) refl;
  below = λ q all. all.0;
}
page-IsLast (suc n) (r ∷ rs) h long =
    let i = page-IsLast n rs h.1 (omega arith) in
    record {
      run = i.run;
      last = last_behind r (take (suc n) rs) i.run i.last;
      rest = rw (run_lt_asym r i.run (i.below r h.0), i.rest) refl;
      below = λ q all. i.below q all.1;
    }

-- A page has a cursor, and after it comes what the page left out.
pub record IsContinued (n : ℕ) (rs : List Run) : Type 0 where
  pub cursor : RunCursor
  pub given : (run_page n rs).next_cursor ≡ some cursor
  pub rest : runs_after (some cursor) rs ≡ ok (drop n rs)
  pub whole : (run_page n rs).runs ++ drop n rs ≡ rs

-- Of runs in the order of their creation times and ids, no two at the same place, a page of a
-- positive limit either has a cursor, and what list_runs takes after that cursor is exactly what
-- the page left out, none missing and none twice; or it has no cursor and is the whole list.
pub run_page_lem :
    (n : ℕ) (rs : List Run)
    → IsStrict rs
    → if ltb (suc n) (length rs)
      then IsContinued (suc n) rs
      else ((run_page (suc n) rs).next_cursor ≡ none) × ((run_page (suc n) rs).runs ≡ rs)
unfolding run_page runs_after
run_page_lem n rs strict = elim (Bool-cases (ltb (suc n) (length rs))) [
  | inr all_shown ↦ rw (all_shown, take_whole (suc n) rs (ground (arith, all_shown))) (refl, refl)
  | inl more ↦
      let i = page-IsLast n rs strict (ground (arith, more)) in
      rw more (record {
        cursor = position i.run.created_at i.run.id;
        given = rw (more, i.last) refl;
        rest = ap ok i.rest;
        whole = take-append-drop (suc n) rs;
      })
]
