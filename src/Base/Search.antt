-- ===== src/Base/Search.antt =====
-- `bsearch` of the C library as an argument, on arrays in the order of `strcmp` on a key of their
-- elements. A linear search shows that what is asked of it can be met.
use Prim.Native.Nat.{Ordering}
use mathlib.Core.Path.{◌≡◌, subst}
use mathlib.Core.Bool.{Bool, true, false}
use mathlib.Core.Logic.{◌≢◌, inl, inr}
use mathlib.Core.List.{List, [], ◌∷◌}
use mathlib.Core.Option.{Option, none, some}
use native.Mathlib.Omega.{arith}
use libxdg.Base.Tests.{if◌then◌else◌, Bool-cases}
use libxdg.Base.Lists.{All, Any}
use libxdg.Base.Sort.{IsSorted, IsQsort, insertion_sort, insertion_sort-IsQsort}
use libxdg.Base.Text.{Bytes, strcmp, str_eq, str_eq_iff, str_eq-false}

strcmp_trans :
    (a b c : Bytes) → strcmp a b ≢ Ordering.gt → strcmp b c ≢ Ordering.gt → strcmp a c ≢ Ordering.gt
unfolding strcmp
strcmp_trans [] b [] h k = ground arith
strcmp_trans [] b (z ∷ c) h k = ground arith
strcmp_trans (x ∷ a) [] c h k = ground arith
strcmp_trans (x ∷ a) (y ∷ b) [] h k = ground arith
strcmp_trans (x ∷ a) (y ∷ b) (z ∷ c) h k = ground (arith, strcmp_trans a b c)

strcmp_total : (a b : Bytes) → strcmp a b ≡ Ordering.gt → strcmp b a ≢ Ordering.gt
unfolding strcmp
strcmp_total [] [] h = ground arith
strcmp_total [] (y ∷ b) h = ground arith
strcmp_total (x ∷ a) [] h = ground arith
strcmp_total (x ∷ a) (y ∷ b) h = ground (arith, strcmp_total a b)

module _ {A : Type 0} (key : A → Bytes) where
  -- The comparison puts the first element not behind the second.
  abbrev pub NotBehind : A → A → Type 0
  NotBehind a b = strcmp (key a) (key b) ≢ Ordering.gt

  -- What `bsearch` promises on a sorted array.
  pub record IsBsearch (bsearch : Bytes → List A → Option A) : Type 0 where
    pub found :
        (k : Bytes) (xs : List A) (e : A)
        → IsSorted NotBehind xs
        → bsearch k xs ≡ some e
        → (key e ≡ k) × Any (λ x. x ≡ e) xs
    pub missing :
        (k : Bytes) (xs : List A)
        → IsSorted NotBehind xs
        → bsearch k xs ≡ none
        → All (λ e. key e ≢ k) xs

  abbrev pub not_behind : A → A → Bool
  not_behind a b = elim (strcmp (key a) (key b)) [ Ordering.gt ↦ false | _ ↦ true ]

  pub not_behind-IsQsort : IsQsort NotBehind (insertion_sort not_behind)
  not_behind-IsQsort =
      insertion_sort-IsQsort not_behind NotBehind
        (λ x y z h k. strcmp_trans (key x) (key y) (key z) h k) (λ x y h. ground arith)
        (λ x y h. strcmp_total (key x) (key y) (ground arith))

  abbrev pub linear_search : Bytes → List A → Option A
  linear_search k [] = none
  linear_search k (e ∷ es) =
      let rest = linear_search k es in if str_eq (key e) k then some e else rest

  linear_search_found :
      (k : Bytes) (xs : List A) (e : A)
      → linear_search k xs ≡ some e
      → (key e ≡ k) × Any (λ x. x ≡ e) xs
  linear_search_found k [] e h = absurd (cc)
  linear_search_found k (x ∷ xs) e h = elim (Bool-cases (str_eq (key x) k)) [
    | inl f ↦
        let same : x ≡ e = ground arith in
        (subst (λ z. key z ≡ k) same ((str_eq_iff (key x) k).0 f), inl same)
    | inr f ↦
        let rest : linear_search k xs ≡ some e = ground arith in
        let (named, inside) = linear_search_found k xs e rest in (named, inr inside)
  ]

  linear_search_missing :
      (k : Bytes) (xs : List A) → linear_search k xs ≡ none → All (λ e. key e ≢ k) xs
  linear_search_missing k [] h = tt
  linear_search_missing k (x ∷ xs) h = elim (Bool-cases (str_eq (key x) k)) [
    | inl f ↦ absurd (ground arith)
    | inr f ↦ (str_eq-false (key x) k f, linear_search_missing k xs (ground arith))
  ]

  pub linear_search-IsBsearch : IsBsearch linear_search
  linear_search-IsBsearch = record {
    found = λ k xs e s h. linear_search_found k xs e h;
    missing = λ k xs s h. linear_search_missing k xs h;
  }
