-- ===== src/Models/Questions/Batches/Order.antt =====
-- What an accepted batch of questions looks like.
use mathlib.Core.List.{Perm}
use claudeagentsdk_cloudrun.Prelude.{
  ◌≤◌, ◌≡◌, subst, true, false, List, arith, nat_eq, length, any, ltb,
}
use claudeagentsdk_cloudrun.Prelude.Sorting.{sort, sort-perm, sort-IsSorted, IsSorted, IsWeakOrder}
use claudeagentsdk_cloudrun.Exec.{ok}
use claudeagentsdk_cloudrun.Models.Questions.{QuestionRequest, all_distinct}
use claudeagentsdk_cloudrun.Models.Questions.Batches.{ordinals, by_ordinal, validate_question_batch}

pub by_ordinal-IsWeakOrder : IsWeakOrder by_ordinal
by_ordinal-IsWeakOrder = record { asym = λ a b h. ground arith; chain = λ a b c h k. ground arith }

pub record IsBatch (questions ordered : List QuestionRequest) : Type 0 where
  pub same : Perm ordered questions
  pub sorted : IsSorted by_ordinal ordered
  pub at_least_one : 1 ≤ length questions
  pub at_most_four : length questions ≤ 4
  pub distinct : all_distinct (ordinals questions) ≡ true
  pub small : any (λ n. ltb 4 n) (ordinals questions) ≡ false

-- A batch that is accepted has one to four questions, no two of the same ordinal and none above 4,
-- and the answer is the same questions in the order of their ordinals.
pub validate_question_batch_lem :
    (questions ordered : List QuestionRequest)
    → validate_question_batch questions ≡ ok ordered
    → IsBatch questions ordered
unfolding validate_question_batch
validate_question_batch_lem questions ordered h =
    let same : sort by_ordinal questions ≡ ordered = ground arith in
    record {
      same = subst (λ x. Perm x questions) same (sort-perm by_ordinal questions);
      sorted =
          subst (IsSorted by_ordinal) same
            (sort-IsSorted by_ordinal by_ordinal-IsWeakOrder questions);
      at_least_one = ground arith;
      at_most_four = ground arith;
      distinct = ground arith;
      small = ground arith;
    }
