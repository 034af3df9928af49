-- ===== src/Base/Sort.antt =====
-- `qsort` of the C library as an argument: it permutes its array into the order of the comparison,
-- and says nothing of the order of equal elements. An insertion sort shows that this can be met.
use Prim.Native.Nat.{◌≤◌}
use mathlib.Core.Path.{◌≡◌, refl, subst}
use mathlib.Core.Bool.{Bool, true, false}
use mathlib.Core.Logic.{inl, inr}
use mathlib.Core.List.{List, [], ◌∷◌, Permᴰ}
use mathlib.Core.List.Permᴰ as Permᴰ
use native.Mathlib.Omega.{arith}
use libxdg.Base.Tests.{if◌then◌else◌, Bool-cases}
use libxdg.Base.Lists.{All, Any, length}

-- No later element comes before an earlier one.
abbrev pub IsSorted {ℓ} : {A : Type ℓ} → (A → A → Type 0) → List A → Type 0
IsSorted le [] = Unit
IsSorted le (x ∷ xs) = All (le x) xs × IsSorted le xs

module _ {ℓ} {A : Type ℓ} where
  -- What the sources rely on of `qsort`.
  pub record IsQsort (le : A → A → Type 0) (sort : List A → List A) : Type ℓ where
    pub permutes : (xs : List A) → Permᴰ (sort xs) xs
    pub sorts : (xs : List A) → IsSorted le (sort xs)

  pub length-Permᴰ : {xs ys : List A} → Permᴰ xs ys → length xs ≡ length ys
  length-Permᴰ Permᴰ.nil = refl
  length-Permᴰ (Permᴰ.cons e d) = omega (arith, length-Permᴰ d)
  length-Permᴰ (Permᴰ.swap e f) = refl
  length-Permᴰ (Permᴰ.trans c d) = omega (arith, length-Permᴰ c, length-Permᴰ d)

  pub All-Permᴰ : (P : A → Type 0) {xs ys : List A} → Permᴰ xs ys → All P xs → All P ys
  All-Permᴰ P Permᴰ.nil h = tt
  All-Permᴰ P (Permᴰ.cons e d) h = (subst P e h.0, All-Permᴰ P d h.1)
  All-Permᴰ P (Permᴰ.swap e f) h = (subst P f h.1.0, (subst P e h.0, h.1.1))
  All-Permᴰ P (Permᴰ.trans c d) h = All-Permᴰ P d (All-Permᴰ P c h)

  pub Any-Permᴰ : (P : A → Type 0) {xs ys : List A} → Permᴰ xs ys → Any P xs → Any P ys
  Any-Permᴰ P Permᴰ.nil h = h
  Any-Permᴰ P (Permᴰ.cons e d) (inl h) = inl (subst P e h)
  Any-Permᴰ P (Permᴰ.cons e d) (inr h) = inr (Any-Permᴰ P d h)
  Any-Permᴰ P (Permᴰ.swap e f) (inl h) = inr (inl (subst P e h))
  Any-Permᴰ P (Permᴰ.swap e f) (inr (inl h)) = inl (subst P f h)
  Any-Permᴰ P (Permᴰ.swap e f) (inr (inr h)) = inr (inr h)
  Any-Permᴰ P (Permᴰ.trans c d) h = Any-Permᴰ P d (Any-Permᴰ P c h)

pub IsSorted-short {ℓ} :
    {A : Type ℓ} (le : A → A → Type 0) (xs : List A) → length xs ≤ 1 → IsSorted le xs
IsSorted-short le [] h = tt
IsSorted-short le (x ∷ []) h = (tt, tt)
IsSorted-short le (x ∷ y ∷ xs) h = absurd (omega arith)

-- An insertion sort by a Boolean test.
module _ {ℓ} {A : Type ℓ} (test : A → A → Bool) where
  abbrev pub insert : A → List A → List A
  insert x [] = x ∷ []
  insert x (y ∷ ys) = let rest = insert x ys in if test x y then x ∷ y ∷ ys else y ∷ rest

  abbrev pub insertion_sort : List A → List A
  insertion_sort [] = []
  insertion_sort (x ∷ xs) = insert x (insertion_sort xs)

  insert-Permᴰ : (x : A) (ys : List A) → Permᴰ (insert x ys) (x ∷ ys)
  insert-Permᴰ x [] = Permᴰ.refl (x ∷ [])
  insert-Permᴰ x (y ∷ ys) = elim (Bool-cases (test x y)) [
    | inl e ↦ rw e (Permᴰ.refl (x ∷ y ∷ ys))
    | inr e ↦ rw e (Permᴰ.trans (Permᴰ.cons refl (insert-Permᴰ x ys)) (Permᴰ.swap refl refl))
  ]

  sort-Permᴰ : (xs : List A) → Permᴰ (insertion_sort xs) xs
  sort-Permᴰ [] = Permᴰ.nil
  sort-Permᴰ (x ∷ xs) = Permᴰ.trans (insert-Permᴰ x _) (Permᴰ.cons refl (sort-Permᴰ xs))

  module _ (le : A → A → Type 0) (trans : (x y z : A) → le x y → le y z → le x z)
      (pass : (x y : A) → test x y ≡ true → le x y)
      (fail : (x y : A) → test x y ≡ false → le y x) where
    All-le : (x y : A) (ys : List A) → le x y → All (le y) ys → All (le x) ys
    All-le x y [] h a = tt
    All-le x y (z ∷ zs) h a = (trans x y z h a.0, All-le x y zs h a.1)

    insert-All : (P : A → Type 0) (x : A) (ys : List A) → P x → All P ys → All P (insert x ys)
    insert-All P x [] p a = (p, tt)
    insert-All P x (y ∷ ys) p a = elim (Bool-cases (test x y)) [
      | inl e ↦ rw e (p, a)
      | inr e ↦ rw e (a.0, insert-All P x ys p a.1)
    ]

    insert-IsSorted : (x : A) (ys : List A) → IsSorted le ys → IsSorted le (insert x ys)
    insert-IsSorted x [] s = (tt, tt)
    insert-IsSorted x (y ∷ ys) s = elim (Bool-cases (test x y)) [
      | inl e ↦ rw e ((pass x y e, All-le x y ys (pass x y e) s.0), s)
      | inr e ↦ rw e (insert-All (le y) x ys (fail x y e) s.0, insert-IsSorted x ys s.1)
    ]

    sort-IsSorted : (xs : List A) → IsSorted le (insertion_sort xs)
    sort-IsSorted [] = tt
    sort-IsSorted (x ∷ xs) = insert-IsSorted x _ (sort-IsSorted xs)

    pub insertion_sort-IsQsort : IsQsort le insertion_sort
    insertion_sort-IsQsort = record { permutes = sort-Permᴰ; sorts = sort-IsSorted }
