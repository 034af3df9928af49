-- ===== src/Mime/Cache/Search.antt =====
-- The binary search of src/mime/xdgmimecache.c.
use Prim.Native.Nat.{Ordering}
use libxdg.Base.{
  ℕ, zero, suc, ◌+◌, ◌-◌, ◌/◌, ◌^◌, ◌≤◌, ◌<◌, ◌≡◌, ◌≢◌, ap, ◌∙◌, inl, inr, true, false, Option,
  some, leb, Bool-cases, ltb, ltb→lt, true-or-false, tests, Ordering-cases, leb→le, leb_false→lt,
  le→leb, arith,
}
use libxdg.Mime.Cache.{SearchResult, hit, miss, fault, unfinished, binary_search}

-- The search ends, with the index of an entry that is equal or with none where there is none.
abbrev pub Locates : (ℕ → Ordering) → ℕ → SearchResult → Type 0
Locates cmp n (hit i) = (i < n) × (cmp i ≡ Ordering.eq)
Locates cmp n miss = (i : ℕ) → i < n → cmp i ≢ Ordering.eq
Locates cmp n fault = ⊥
Locates cmp n unfinished = ⊥

module _ (compare_at : ℕ → Option Ordering) (cmp : ℕ → Ordering) (n : ℕ) (small : n ≤ 2 ^ 30)
    (reads : (i : ℕ) → i < n → compare_at i ≡ some (cmp i))
    (ascends : (i j : ℕ) → i < j → j < n → cmp i ≢ Ordering.lt → cmp j ≡ Ordering.gt) where
  -- What the items below and behind the range are, and how wide it is.
  abbrev pub Narrows : ℕ → ℕ → ℕ → Type 0
  Narrows width min above =
      (above - min < width)
      × (above ≤ n)
      × ((i : ℕ) → i < min → cmp i ≡ Ordering.lt)
      × ((i : ℕ) → above ≤ i → i < n → cmp i ≡ Ordering.gt)

  abbrev mid_of : ℕ → ℕ → ℕ
  mid_of min above = (min + (above - 1)) / 2

  below_mid : (m i : ℕ) → m < n → cmp m ≡ Ordering.lt → i < suc m → cmp i ≡ Ordering.lt
  below_mid m i inside e h = elim (Bool-cases (ltb i m)) [
    | inl p ↦ elim (Ordering-cases (cmp i)) [
      | inl less ↦ less
      | inr (inl same) ↦ absurd (ground (arith, ascends i m (ltb→lt i m p) inside))
      | inr (inr more) ↦ absurd (ground (arith, ascends i m (ltb→lt i m p) inside))
    ]
    | inr q ↦ (let same : i ≡ m = omega tests in ap cmp same ∙ e)
  ]

  behind_mid : (m i : ℕ) → cmp m ≡ Ordering.gt → m ≤ i → i < n → cmp i ≡ Ordering.gt
  behind_mid m i e h inside = elim (Bool-cases (ltb m i)) [
    | inl p ↦ ascends m i (ltb→lt m i p) inside (ground arith)
    | inr q ↦ (let same : i ≡ m = omega tests in ap cmp same ∙ e)
  ]

  none_between :
      (min above : ℕ)
      → above ≤ min
      → ((i : ℕ) → i < min → cmp i ≡ Ordering.lt)
      → ((i : ℕ) → above ≤ i → i < n → cmp i ≡ Ordering.gt)
      → (i : ℕ) → i < n
      → cmp i ≢ Ordering.eq
  none_between min above h below behind i inside e = elim (Bool-cases (ltb i min)) [
    | inl p ↦ absurd (ground (arith, below i (ltb→lt i min p)))
    | inr q ↦ absurd (ground (arith, behind i (omega tests) inside))
  ]

  pub binary_search-Locates :
      (f min above : ℕ)
      → Narrows (2 ^ f) min above
      → Locates cmp n (binary_search (suc f) compare_at min above)
  unfolding binary_search
  binary_search-Locates zero min above (narrow, inside, below, behind) =
      let done : leb above min ≡ true = le→leb above min (omega arith) in
      rw (done, binary_search) (none_between min above (omega arith) below behind)
  binary_search-Locates (suc f) min above (narrow, inside, below, behind) =
      elim (Bool-cases (leb above min)) [
        | inl done ↦
            rw (done, binary_search) (none_between min above (leb→le above min done) below behind)
        | inr more ↦
            let open_range : min < above = leb_false→lt above min more in
            let fits : leb (2 ^ 31) (min + (above - 1)) ≡ false =
              true-or-false _ (λ x. absurd (omega (tests, x))) in
            let m = mid_of min above in
            let inner : m < n = omega arith in
            let read = reads m inner in
            elim (Ordering-cases (cmp m)) [
              | inl e ↦
                  rw (more, binary_search, fits, read, e)
                    (binary_search-Locates f (m + 1) above
                      (omega arith, inside, (λ i p. below_mid m i inner e (omega arith)), behind))
              | inr (inl e) ↦ rw (more, binary_search, fits, read, e) (inner, e)
              | inr (inr e) ↦
                  rw (more, binary_search, fits, read, e)
                    (binary_search-Locates f min m
                      (omega arith, omega arith, below, (λ i p q. behind_mid m i e p q)))
            ]
      ]
