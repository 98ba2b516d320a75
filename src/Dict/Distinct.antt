-- ===== src/Dict/Distinct.antt =====
-- Dictionaries in which no key stands twice.
use claudeagentsdk_cloudrun.Prelude.{
  ◌≡◌, refl, ap, ◌∙◌, ◌↔◌, inl, inr, [], ◌∷◌, none, some, arith, Eq, All, Bool-cases, beq_refl,
}
use claudeagentsdk_cloudrun.Prelude.Members.{In}
use claudeagentsdk_cloudrun.Dict.{Dict, get, put, remove, values, get-put, get-remove}

module _ {K V : Type 0} ⦃e : Eq K⦄ where
  abbrev pub IsDistinct : Dict K V → Type 0
  IsDistinct [] = Unit
  IsDistinct ((k, v) ∷ d) = (get d k ≡ none) × IsDistinct d

  pub put-IsDistinct : (d : Dict K V) (k : K) (v : V) → IsDistinct d → IsDistinct (put d k v)
  unfolding put get
  put-IsDistinct [] k v h = (refl, tt)
  put-IsDistinct ((j, w) ∷ d) k v h = elim (Bool-cases (e.beq j k)) [
    | inl same ↦ rw same h
    | inr differ ↦ rw differ (
      get-put d k j v ∙ ground (arith, e.beq_iff k j, e.beq_iff j k, h.0),
      put-IsDistinct d k v h.1,
    )
  ]

  pub remove-IsDistinct : (d : Dict K V) (k : K) → IsDistinct d → IsDistinct (remove d k)
  unfolding remove
  remove-IsDistinct [] k h = tt
  remove-IsDistinct ((j, w) ∷ d) k h = elim (Bool-cases (e.beq j k)) [
    | inl same ↦ rw same (remove-IsDistinct d k h.1)
    | inr differ ↦ rw differ (get-remove d k j ∙ ground (arith, h.0), remove-IsDistinct d k h.1)
  ]

  -- Every entry stands under the key of its value.
  abbrev pub IsOwn : (V → K) → Dict K V → Type 0
  IsOwn key d = All (λ entry. entry.0 ≡ key entry.1) d

  pub put-IsOwn : (key : V → K) (d : Dict K V) (v : V) → IsOwn key d → IsOwn key (put d (key v) v)
  unfolding put
  put-IsOwn key [] v own = (refl, tt)
  put-IsOwn key ((j, w) ∷ d) v own = elim (Bool-cases (e.beq j (key v))) [
    | inl same ↦ rw same ((e.beq_iff j (key v)).0 same, own.1)
    | inr differ ↦ rw differ (own.0, put-IsOwn key d v own.1)
  ]

  pub remove-IsOwn : (key : V → K) (d : Dict K V) (k : K) → IsOwn key d → IsOwn key (remove d k)
  unfolding remove
  remove-IsOwn key [] k own = tt
  remove-IsOwn key ((j, w) ∷ d) k own = elim (Bool-cases (e.beq j k)) [
    | inl same ↦ rw same (remove-IsOwn key d k own.1)
    | inr differ ↦ rw differ (own.0, remove-IsOwn key d k own.1)
  ]

  -- What stands under a key is there once: so it is what is found under the key.
  pub In-values :
      (d : Dict K V) (key : V → K) (v : V)
      → IsDistinct d
      → IsOwn key d
      → In v (values d) ↔ (get d (key v) ≡ some v)
  unfolding get
  In-values [] key v distinct own = (absurd, λ h. cc)
  In-values ((j, w) ∷ d) key v distinct own =
      let rest = In-values d key v distinct.1 own.1 in
      elim (Bool-cases (e.beq j (key v))) [
        | inl same ↦
            let equal : j ≡ key v = (e.beq_iff j (key v)).0 same in
            rw same (
              λ h. elim h as (λ _. some w ≡ some v) [
                | inl here ↦ ap some here
                | inr later ↦ cc (rest.0 later, distinct.0, equal)
              ],
              λ found. inl (cc found),
            )
        | inr differ ↦ rw differ (
          λ h. elim h as (λ _. get d (key v) ≡ some v) [
            | inl here ↦
                let equal : j ≡ key v = own.0 ∙ ap key here in
                cc ((e.beq_iff j (key v)).1 equal, differ)
            | inr later ↦ rest.0 later
          ],
          λ found. inr (rest.1 found),
        )
      ]

  All-found_below :
      (d entries : Dict K V) (j : K) (v : V)
      → get d j ≡ none
      → All (λ entry. get d entry.0 ≡ some entry.1) entries
      → All (λ entry. get ((j, v) ∷ d) entry.0 ≡ some entry.1) entries
  unfolding get
  All-found_below d [] j v absent found = tt
  All-found_below d ((i, w) ∷ entries) j v absent found =
      (ground (arith, e.beq_iff j i, found.0), All-found_below d entries j v absent found.1)

  pub All-found : (d : Dict K V) → IsDistinct d → All (λ entry. get d entry.0 ≡ some entry.1) d
  unfolding get
  All-found [] distinct = tt
  All-found ((j, v) ∷ d) distinct =
      (rw (beq_refl j) refl, All-found_below d d j v distinct.0 (All-found d distinct.1))
