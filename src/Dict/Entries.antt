-- ===== src/Dict/Entries.antt =====
-- What is found under a key is among the values.
use claudeagentsdk_cloudrun.Prelude.{
  ◌≡◌, refl, Bool, true, List, [], ◌∷◌, ◌++◌, none, some, arith, Eq, first,
}
use claudeagentsdk_cloudrun.Dict.{Dict, get, put, values, put_of_none}

first-append {ℓ} :
    {V : Type ℓ} (p : V → Bool) (xs : List V) (y : V)
    → first p xs ≡ none
    → p y ≡ true
    → first p (xs ++ y ∷ []) ≡ some y
first-append p [] y none_yet holds = ground arith
first-append p (x ∷ xs) y none_yet holds = ground (arith, first-append p xs y)

values-append :
    {K V : Type 0} (d : Dict K V) (k : K) (v : V) → values (d ++ (k, v) ∷ []) ≡ values d ++ v ∷ []
values-append [] k v = refl
values-append ((j, w) ∷ d) k v = ground (arith, values-append d k v)

module _ {K V : Type 0} ⦃e : Eq K⦄ where
  pub first-values_of_get :
      (d : Dict K V) (k : K) (v : V) (p : V → Bool)
      → get d k ≡ some v
      → p v ≡ true
      → first p (values d) ≡ none
      → ⊥
  unfolding get
  first-values_of_get [] k v p here holds h = ground arith
  first-values_of_get ((j, w) ∷ d) k v p here holds h = ground (arith, first-values_of_get d k v p)

  pub values-put_of_none :
      (d : Dict K V) (k : K) (v : V) → get d k ≡ none → values (put d k v) ≡ values d ++ v ∷ []
  values-put_of_none d k v absent = rw (put_of_none d k v absent) (values-append d k v)

  -- A new entry is the first of its kind where there was none.
  pub first-values-put :
      (d : Dict K V) (k : K) (v : V) (p : V → Bool)
      → get d k ≡ none
      → first p (values d) ≡ none
      → p v ≡ true
      → first p (values (put d k v)) ≡ some v
  first-values-put d k v p absent none_yet holds =
      rw (values-put_of_none d k v absent) (first-append p (values d) v none_yet holds)
