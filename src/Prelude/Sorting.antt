-- ===== src/Prelude/Sorting.antt =====
-- Python's stable `sorted`, for a strict Boolean order on the keys.
use mathlib.Core.Path.{◌≡◌, refl}
use mathlib.Core.Bool.{Bool, true, false}
use mathlib.Core.List.{List, [], ◌∷◌, Perm}
use mathlib.Core.List.Perm
use claudeagentsdk_cloudrun.Prelude.Tests.{if◌then◌else◌, Bool-cases}
use mathlib.Core.Logic.{inl, inr}
use claudeagentsdk_cloudrun.Prelude.Lists.{All}

module _ {ℓ} {A : Type ℓ} (lt : A → A → Bool) where
  -- `x` stood before every item of the list, so it stays before its equals.
  unfoldable pub insort : A → List A → List A
  insort x [] = x ∷ []
  insort x (y ∷ ys) = if lt y x then y ∷ insort x ys else x ∷ y ∷ ys

  unfoldable pub sort : List A → List A
  unfolding insort
  sort [] = []
  sort (x ∷ xs) = insort x (sort xs)

  pub insort-perm : (x : A) (ys : List A) → Perm (insort x ys) (x ∷ ys)
  unfolding insort
  insort-perm x [] = Perm.refl (x ∷ [])
  insort-perm x (y ∷ ys) = elim (Bool-cases (lt y x)) [
    | inl e ↦ rw e (Perm.trans (Perm.cons y (insort-perm x ys)) (Perm.swap x y ys))
    | inr e ↦ rw e (Perm.refl (x ∷ y ∷ ys))
  ]

  pub sort-perm : (xs : List A) → Perm (sort xs) xs
  unfolding sort
  sort-perm [] = Perm.refl []
  sort-perm (x ∷ xs) = Perm.trans (insort-perm x (sort xs)) (Perm.cons x (sort-perm xs))

  -- Every later item is not below an earlier one.
  abbrev pub IsSorted : List A → Type 0
  IsSorted [] = Unit
  IsSorted (x ∷ xs) = All (λ y. lt y x ≡ false) xs × IsSorted xs

  -- A list that is in order already is left as it is.
  pub sort_of_IsSorted : (xs : List A) → IsSorted xs → sort xs ≡ xs
  unfolding sort insort
  sort_of_IsSorted [] h = refl
  sort_of_IsSorted (x ∷ []) h = refl
  sort_of_IsSorted (x ∷ y ∷ ys) h = rw (sort_of_IsSorted (y ∷ ys) h.1) (rw h.0.0)

  -- A strict weak order: of two items one is not below the other, and so along a chain.
  pub record IsWeakOrder : Type ℓ where
    pub asym : (a b : A) → lt a b ≡ true → lt b a ≡ false
    pub chain : (a b c : A) → lt b a ≡ false → lt c b ≡ false → lt c a ≡ false

  module _ (order : IsWeakOrder) where
    All-chain :
        (a b : A) (ys : List A)
        → lt b a ≡ false
        → All (λ y. lt y b ≡ false) ys
        → All (λ y. lt y a ≡ false) ys
    All-chain a b [] h all = tt
    All-chain a b (y ∷ ys) h all = (order.chain a b y h all.0, All-chain a b ys h all.1)

    All-insort :
        (a x : A) (ys : List A)
        → lt x a ≡ false
        → All (λ y. lt y a ≡ false) ys
        → All (λ y. lt y a ≡ false) (insort x ys)
    unfolding insort
    All-insort a x [] h all = (h, tt)
    All-insort a x (y ∷ ys) h all = elim (Bool-cases (lt y x)) [
      | inl e ↦ rw e (all.0, All-insort a x ys h all.1)
      | inr e ↦ rw e (h, all)
    ]

    insort-IsSorted : (x : A) (ys : List A) → IsSorted ys → IsSorted (insort x ys)
    unfolding insort
    insort-IsSorted x [] h = (tt, tt)
    insort-IsSorted x (y ∷ ys) h = elim (Bool-cases (lt y x)) [
      | inl e ↦ rw e (All-insort y x ys (order.asym y x e) h.0, insort-IsSorted x ys h.1)
      | inr e ↦ rw e ((e, All-chain x y ys e h.0), h)
    ]

    pub sort-IsSorted : (xs : List A) → IsSorted (sort xs)
    unfolding sort
    sort-IsSorted [] = tt
    sort-IsSorted (x ∷ xs) = insort-IsSorted x (sort xs) (sort-IsSorted xs)
