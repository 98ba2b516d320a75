-- ===== src/Backends/Batch/Names.antt =====
-- The job identifiers of different runs.
use Prim.Native.String.{[], ◌∷◌, ◌++◌, count}
use text.Mathlib.TextLemmas.{append_cancel_left, length-append, length-nil, length-cons}
use claudeagentsdk_cloudrun.Prelude.{
  ℕ, suc, ◌^◌, ◌≤◌, ◌<◌, ◌≡◌, ◌↔◌, String, Option, refl, sym, ap, ◌∙◌, zero, arith, string_eq,
}
use claudeagentsdk_cloudrun.Exec.{ok}
use claudeagentsdk_cloudrun.Dict.{Dict}
use claudeagentsdk_cloudrun.Text.{length, take}
use claudeagentsdk_cloudrun.Models.Ids.{hex}
use claudeagentsdk_cloudrun.Models.Ids.Hex.{count-hex, hex_injective}
use claudeagentsdk_cloudrun.Models.Records.{Uuid}
use claudeagentsdk_cloudrun.Backends.Batch.{job_id_for_run}
use claudeagentsdk_cloudrun.Backends.Batch.Jobs.{BatchClient, Settings, new_backend, rstrip_dashes}

length-eq-count : (s : String) → length s ≡ count s
length-eq-count [] = sym length-nil
length-eq-count (c ∷ s) = omega (arith, length-eq-count s, length-cons c s)

take_all : (n : ℕ) (s : String) → length s ≤ n → take n s ≡ s
take_all zero [] h = refl
take_all (suc n) [] h = refl
take_all zero (c ∷ s) h = absurd (omega arith)
take_all (suc n) (c ∷ s) h = ap (◌∷◌ c) (take_all n s (omega arith))

rstrip_dashes-length-le : (s : String) → length (rstrip_dashes s) ≤ length s
unfolding rstrip_dashes
rstrip_dashes-length-le [] = omega arith
rstrip_dashes-length-le (c ∷ s) = ground (arith, rstrip_dashes-length-le s)

module _ (project region prefix image machine : String) (cpu memory timeout : ℕ)
    (account : Option String) (env : Dict String String) (self : Settings)
    (made : new_backend project region prefix image machine cpu memory timeout account env
      ≡ ok self) where
  short_prefix : length self.job_id_prefix ≤ 25
  unfolding new_backend
  short_prefix = ground (arith, rstrip_dashes-length-le prefix)

  module _ {C : Type 0} (client : BatchClient C) where
    abbrev full_id : Uuid → String
    full_id run_id = self.job_id_prefix ++ ("-" ++ hex 32 run_id)

    length-full_id : (run_id : Uuid) → length (full_id run_id) ≤ 58
    length-full_id run_id =
        rw (length-eq-count (full_id run_id), length-append, length-append, count-hex)
          (omega (arith, short_prefix, length-eq-count self.job_id_prefix))

    job_id-full : (run_id : Uuid) → job_id_for_run client self run_id ≡ full_id run_id
    unfolding job_id_for_run
    job_id-full run_id = take_all 63 (full_id run_id) (omega (arith, length-full_id run_id))

    -- For every backend that `__init__` accepts, no job identifier is cut: it is the prefix, a dash
    -- and the 32 digits of the run, 58 characters at most. So two runs, as numbers of 128 bits, have
    -- the same job identifier only if they are the same run.
    pub job_ids_differ :
        (run_id other : Uuid)
        → run_id < 16 ^ 32
        → other < 16 ^ 32
        → (job_id_for_run client self run_id ≡ self.job_id_prefix ++ ("-" ++ hex 32 run_id))
          × (length (job_id_for_run client self run_id) ≤ 58)
          × ((job_id_for_run client self run_id ≡ job_id_for_run client self other)
              ↔ (run_id ≡ other))
    job_ids_differ run_id other h k = (
      job_id-full run_id,
      rw (job_id-full run_id) (length-full_id run_id),
      (
        λ same. hex_injective 32 run_id other h k (
            append_cancel_left "-" _ _ (
              append_cancel_left self.job_id_prefix _ _
                (sym (job_id-full run_id) ∙ same ∙ job_id-full other))),
        λ same. ap (job_id_for_run client self) same,
      ),
    )
