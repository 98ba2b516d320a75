-- ===== src/Witnesses/Clouds.antt =====
-- The fakes.
use claudeagentsdk_cloudrun.Prelude.{
  ℕ, suc, ◌≤◌, ◌≡◌, refl, some, [], ◌∷◌, String, arith, string_eq,
}
use claudeagentsdk_cloudrun.Exec.{ok, err}
use claudeagentsdk_cloudrun.Dict.{get}
use claudeagentsdk_cloudrun.Fakes.Objects.{Bytes, Snapshots, matches, mismatch, upload, download}
use claudeagentsdk_cloudrun.Fakes.Generations.{upload_once, uploaded, IsFresh}

abbrev one_object : Snapshots
one_object = record { objects = ("p", (4, 1 ∷ [])) ∷ []; next_generation = 5 }

one_object-IsFresh : IsFresh one_object
unfolding get
one_object-IsFresh path generation bytes found = ground arith

upload_once_example :
    let t = uploaded "p" (2 ∷ []) one_object in
    (upload "p" (2 ∷ []) 4 one_object ≡ (ok 5, t))
    × (upload "p" (3 ∷ []) 4 t ≡ (err (mismatch 4 "p"), t))
    × (download "p" 5 t ≡ (ok (2 ∷ []), t))
    × ((other : String) (old : ℕ) (b : Bytes)
        → get one_object.objects other ≡ some (old, b)
        → suc old ≤ 5)
    × IsFresh t
unfolding upload matches get
upload_once_example = upload_once "p" (2 ∷ []) (3 ∷ []) 4 5 one_object one_object-IsFresh refl
