-- ===== src/Prelude/Sort.antt =====
-- Python's stable `sorted`, by a strict test on the keys, and what it guarantees.
use mathlib.Core.List.{Perm}
use mathlib.Core.List.Perm
use arena_rank_project.Prelude.{
  ℕ, ◌+◌, ◌≤◌, ◌≡◌, refl, Bool, true, false, List, [], ◌∷◌, arith, if◌then◌else◌, any, ◌||◌, All,
  inl, inr, Bool-cases,
}

module _ {ℓ} {A : Type ℓ} (before : A → A → Bool) where
  -- An element that stood earlier stays in front of one with the same key.
  pub insert_sorted : A → List A → List A
  insert_sorted x [] = x ∷ []
  insert_sorted x (y ∷ ys) = if before y x then y ∷ insert_sorted x ys else x ∷ (y ∷ ys)

  unfoldable pub sort_by : List A → List A
  unfolding insert_sorted
  sort_by [] = []
  sort_by (x ∷ xs) = insert_sorted x (sort_by xs)

  -- No element has a smaller key than one in front of it.
  abbrev pub IsSorted : List A → Type 0
  IsSorted [] = Unit
  IsSorted (x ∷ xs) = All (λ y. before y x ≡ false) xs × IsSorted xs

module _ {ℓ} {A : Type ℓ} (before : A → A → Bool) where
  insert_sorted-front :
      (x : A) (ys : List A) → All (λ y. before y x ≡ false) ys → insert_sorted before x ys ≡ x ∷ ys
  unfolding insert_sorted
  insert_sorted-front x [] h = refl
  insert_sorted-front x (y ∷ ys) h = rw h.0 refl

  pub sort_by_sorted : (xs : List A) → IsSorted before xs → sort_by before xs ≡ xs
  unfolding sort_by
  sort_by_sorted [] h = refl
  sort_by_sorted (x ∷ xs) h = rw (sort_by_sorted xs h.1) (insert_sorted-front x xs h.0)

module _ {ℓ} {A : Type ℓ} (before : A → A → Bool) where
  insert_sorted-perm : (x : A) (ys : List A) → Perm (insert_sorted before x ys) (x ∷ ys)
  unfolding insert_sorted
  insert_sorted-perm x [] = Perm.refl (x ∷ [])
  insert_sorted-perm x (y ∷ ys) = elim (Bool-cases (before y x)) [
    | inl e ↦ rw e (Perm.trans (Perm.cons y (insert_sorted-perm x ys)) (Perm.swap x y ys))
    | inr e ↦ rw e (Perm.refl (x ∷ (y ∷ ys)))
  ]

  pub sort_by-perm : (xs : List A) → Perm (sort_by before xs) xs
  unfolding sort_by
  sort_by-perm [] = Perm.refl []
  sort_by-perm (x ∷ xs) =
      Perm.trans (insert_sorted-perm x (sort_by before xs)) (Perm.cons x (sort_by-perm xs))

  insert_sorted-any :
      (p : A → Bool) (x : A) (ys : List A) → any p (insert_sorted before x ys) ≡ (p x || any p ys)
  unfolding insert_sorted
  insert_sorted-any p x [] = refl
  insert_sorted-any p x (y ∷ ys) = ground (arith, insert_sorted-any p x ys)

  pub sort_by-any : (p : A → Bool) (xs : List A) → any p (sort_by before xs) ≡ any p xs
  unfolding sort_by
  sort_by-any p [] = refl
  sort_by-any p (x ∷ xs) =
      ground (arith, insert_sorted-any p x (sort_by before xs), sort_by-any p xs)

  pub insert_sorted-All :
      (P : A → Type 0) (x : A) (ys : List A) → P x → All P ys → All P (insert_sorted before x ys)
  unfolding insert_sorted
  insert_sorted-All P x [] h hs = (h, tt)
  insert_sorted-All P x (y ∷ ys) h hs = elim (Bool-cases (before y x)) [
    | inl e ↦ rw e (hs.0, insert_sorted-All P x ys h hs.1)
    | inr e ↦ rw e (h, hs)
  ]

  pub sort_by-All : (P : A → Type 0) (xs : List A) → All P xs → All P (sort_by before xs)
  unfolding sort_by
  sort_by-All P [] h = tt
  sort_by-All P (x ∷ xs) h = insert_sorted-All P x (sort_by before xs) h.0 (sort_by-All P xs h.1)

-- The keys never fall.
abbrev pub IsAscending {ℓ} : {A : Type ℓ} → (A → ℕ) → List A → Type 0
IsAscending key [] = Unit
IsAscending key (x ∷ xs) = All (λ y. key x ≤ key y) xs × IsAscending key xs

-- A list that is sorted by a test is in the order of a key, if the test fails only so.
module _ {ℓ} {A : Type ℓ} (before : A → A → Bool) (key : A → ℕ)
    (keyed : (x y : A) → before y x ≡ false → key x ≤ key y) where
  All-keyed : (x : A) (ys : List A) → All (λ y. before y x ≡ false) ys → All (λ y. key x ≤ key y) ys
  All-keyed x [] h = tt
  All-keyed x (y ∷ ys) h = (keyed x y h.0, All-keyed x ys h.1)

  pub IsSorted-IsAscending : (xs : List A) → IsSorted before xs → IsAscending key xs
  IsSorted-IsAscending [] h = tt
  IsSorted-IsAscending (x ∷ xs) h = (All-keyed x xs h.0, IsSorted-IsAscending xs h.1)

-- The sum of a weight over a list, which a sort does not change.
abbrev pub sum_by {ℓ} : {A : Type ℓ} → (A → ℕ) → List A → ℕ
sum_by w [] = 0
sum_by w (x ∷ xs) = w x + sum_by w xs

module _ {ℓ} {A : Type ℓ} (before : A → A → Bool) (w : A → ℕ) where
  insert_sorted-sum_by :
      (x : A) (ys : List A) → sum_by w (insert_sorted before x ys) ≡ w x + sum_by w ys
  unfolding insert_sorted
  insert_sorted-sum_by x [] = refl
  insert_sorted-sum_by x (y ∷ ys) = ground (arith, insert_sorted-sum_by x ys)

  pub sort_by-sum_by : (xs : List A) → sum_by w (sort_by before xs) ≡ sum_by w xs
  unfolding sort_by
  sort_by-sum_by [] = refl
  sort_by-sum_by (x ∷ xs) =
      ground (arith, insert_sorted-sum_by x (sort_by before xs), sort_by-sum_by xs)

-- What a test that compares keys satisfies.
module _ {ℓ} {A : Type ℓ} (before : A → A → Bool)
    (asym : (x y : A) → before x y ≡ true → before y x ≡ false)
    (trans : (x y z : A) → before y x ≡ false → before z y ≡ false → before z x ≡ false) where
  All-trans :
      (x y : A) (zs : List A)
      → before y x ≡ false
      → All (λ z. before z y ≡ false) zs
      → All (λ z. before z x ≡ false) zs
  All-trans x y [] h hs = tt
  All-trans x y (z ∷ zs) h hs = (trans x y z h hs.0, All-trans x y zs h hs.1)

  insert_sorted-IsSorted :
      (x : A) (ys : List A) → IsSorted before ys → IsSorted before (insert_sorted before x ys)
  unfolding insert_sorted
  insert_sorted-IsSorted x [] h = (tt, tt)
  insert_sorted-IsSorted x (y ∷ ys) h = elim (Bool-cases (before y x)) [
    | inl e ↦
        rw e (insert_sorted-All before _ x ys (asym y x e) h.0, insert_sorted-IsSorted x ys h.1)
    | inr e ↦ rw e ((e, All-trans x y ys e h.0), h)
  ]

  pub sort_by-IsSorted : (xs : List A) → IsSorted before (sort_by before xs)
  unfolding sort_by
  sort_by-IsSorted [] = tt
  sort_by-IsSorted (x ∷ xs) = insert_sorted-IsSorted x (sort_by before xs) (sort_by-IsSorted xs)
