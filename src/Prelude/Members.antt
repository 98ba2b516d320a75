-- ===== src/Prelude/Members.antt =====
-- That an item stands in a list, and that sorting keeps the items.
use mathlib.Core.Path.{◌≡◌}
use mathlib.Core.Bool.{Bool}
use mathlib.Core.Logic.{◌↔◌, ◌⊎◌, inl, inr}
use mathlib.Core.List.{List, [], ◌∷◌}
use claudeagentsdk_cloudrun.Prelude.Tests.{Bool-cases}
use claudeagentsdk_cloudrun.Prelude.Sorting.{sort, insort}

module _ {A : Type 0} where
  abbrev pub In : A → List A → Type 0
  In a [] = ⊥
  In a (x ∷ xs) = (x ≡ a) ⊎ In a xs

  In-second :
      (a x y : A) (longer ys : List A)
      → In a longer ↔ ((x ≡ a) ⊎ In a ys)
      → In a (y ∷ longer) ↔ In a (x ∷ y ∷ ys)
  In-second a x y longer ys same = (
    λ h. elim h [
      | inl e ↦ inr (inl e)
      | inr t ↦ elim (same.0 t) [ inl e ↦ inl e | inr u ↦ inr (inr u) ]
    ],
    λ h. elim h [
      | inl e ↦ inr (same.1 (inl e))
      | inr t ↦ elim t [ inl e ↦ inl e | inr u ↦ inr (same.1 (inr u)) ]
    ],
  )

  module _ (lt : A → A → Bool) where
    In-insort : (a x : A) (ys : List A) → In a (insort lt x ys) ↔ In a (x ∷ ys)
    unfolding insort
    In-insort a x [] = (λ h. h, λ h. h)
    In-insort a x (y ∷ ys) = elim (Bool-cases (lt y x)) [
      | inr e ↦ rw e (λ h. h, λ h. h)
      | inl e ↦ rw e (In-second a x y (insort lt x ys) ys (In-insort a x ys))
    ]

    pub In-sort : (a : A) (xs : List A) → In a (sort lt xs) ↔ In a xs
    unfolding sort
    In-sort a [] = (λ h. h, λ h. h)
    In-sort a (x ∷ xs) =
        let first = In-insort a x (sort lt xs) in
        let rest = In-sort a xs in
        (
          λ h. elim (first.0 h) [ inl e ↦ inl e | inr t ↦ inr (rest.0 t) ],
          λ h.
              first.1
                (elim h as (λ _. In a (x ∷ sort lt xs)) [ inl e ↦ inl e | inr t ↦ inr (rest.1 t) ]),
        )
