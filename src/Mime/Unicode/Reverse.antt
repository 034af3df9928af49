-- ===== src/Mime/Unicode/Reverse.antt =====
-- The loop of `_xdg_reverse_ucs4` in src/mime/xdgmimeint.c.
use mathlib.Core.List.{reverse, reverse-cons}
use native.Mathlib.Decide.{dec_lt, ℕ_discrete}
use libxdg.Base.{
  ℕ, zero, suc, ◌+◌, ◌-◌, ◌≤◌, ◌<◌, ◌≡◌, ◌≢◌, refl, sym, ap, ◌∙◌, ◌&&◌, ◌⊎◌, inl, inr, List, [],
  ◌∷◌, ◌++◌, ltb, leb, ◌==◌, if◌then◌else◌, length, get_elem?, get_or, set, arith, Bool-cases,
  length-set, get_elem?-set_self, get_elem?-set_ne, get_elem?-get_or, get_elem?-ext, length-reverse,
  length-append, get_elem?-append_left, get_elem?-append_end, get_elem?-none, ltb→lt, ltb_false→le,
  ==_iff, ==_false→ne,
}
use libxdg.Mime.Unicode.{swap_ends, reverse_loop, reverse_ucs4}

length-swap_ends : (s : List ℕ) (i j : ℕ) → length (swap_ends s i j) ≡ length s
unfolding swap_ends
length-swap_ends s i j =
    length-set (set s i (get_or s j 0)) j (get_or s i 0) ∙ length-set s i (get_or s j 0)

swap_ends-left :
    (s : List ℕ) (i j : ℕ) → i < j → j < length s → get_elem? (swap_ends s i j) i ≡ get_elem? s j
unfolding swap_ends
swap_ends-left s i j h k =
    get_elem?-set_ne (set s i (get_or s j 0)) j i (get_or s i 0) (omega arith)
    ∙ get_elem?-set_self s i (get_or s j 0) (omega arith)
    ∙ sym (get_elem?-get_or s j 0 k)

swap_ends-right :
    (s : List ℕ) (i j : ℕ) → i < j → j < length s → get_elem? (swap_ends s i j) j ≡ get_elem? s i
unfolding swap_ends
swap_ends-right s i j h k =
    get_elem?-set_self (set s i (get_or s j 0)) j (get_or s i 0)
      (omega (arith, length-set {0} s i (get_or s j 0)))
    ∙ sym (get_elem?-get_or s i 0 (omega arith))

swap_ends-other :
    (s : List ℕ) (i j n : ℕ) → i ≢ n → j ≢ n → get_elem? (swap_ends s i j) n ≡ get_elem? s n
unfolding swap_ends
swap_ends-other s i j n h k =
    get_elem?-set_ne (set s i (get_or s j 0)) j n (get_or s i 0) k
    ∙ get_elem?-set_ne s i n (get_or s j 0) h

-- The place that round `i` and those after it exchange with place `n`.
abbrev mirror : ℕ → ℕ → ℕ → ℕ
mirror i len n = if leb i n && ltb n (len - i) then len - 1 - n else n

mirror-eq :
    (i len n m : ℕ)
    → (i ≤ n → n < len - i → m ≡ len - 1 - n)
    → ((n < i) ⊎ (len - i ≤ n) → m ≡ n)
    → mirror i len n ≡ m
mirror-eq i len n m h k = ground arith

mirror_shift : (i len n : ℕ) → n ≢ i → n ≢ len - i - 1 → mirror (i + 1) len n ≡ mirror i len n
mirror_shift i len n h k = ground arith

mirror_ne :
    (i len n : ℕ)
    → i + i + 1 < len
    → n ≢ i
    → n ≢ len - i - 1
    → (i ≢ mirror i len n) × (len - i - 1 ≢ mirror i len n)
mirror_ne i len n l h k = ground arith

swap_ends-mirror :
    (i len : ℕ) (s : List ℕ) (n : ℕ)
    → length s ≡ len
    → i + i + 1 < len
    → get_elem? (swap_ends s i (len - i - 1)) (mirror (i + 1) len n) ≡ get_elem? s (mirror i len n)
swap_ends-mirror i len s n e h = elim (Bool-cases (n == i)) [
  | inl t ↦
      let ni : n ≡ i = (==_iff n i).0 t in
      rw
        (
          mirror-eq (i + 1) len n i (λ a b. omega arith) (λ _. omega arith),
          mirror-eq i len n (len - i - 1) (λ a b. omega arith) (λ o. absurd (omega arith)),
        )
        (swap_ends-left s i (len - i - 1) (omega arith) (omega arith))
  | inr t ↦
      let ni : n ≢ i = ==_false→ne n i t in
      elim (Bool-cases (n == len - i - 1)) [
        | inl u ↦
            let nj : n ≡ len - i - 1 = (==_iff n (len - i - 1)).0 u in
            rw
              (
                mirror-eq (i + 1) len n (len - i - 1) (λ a b. omega arith) (λ _. omega arith),
                mirror-eq i len n i (λ a b. omega arith) (λ o. absurd (omega arith)),
              )
              (swap_ends-right s i (len - i - 1) (omega arith) (omega arith))
        | inr u ↦
            let nj : n ≢ len - i - 1 = ==_false→ne n (len - i - 1) u in
            rw (mirror_shift i len n ni nj) (
              swap_ends-other s i (len - i - 1) (mirror i len n) (mirror_ne i len n h ni nj).0
                (mirror_ne i len n h ni nj).1)
      ]
]

get_elem?-reverse_loop :
    (f i len : ℕ) (s : List ℕ) (n : ℕ)
    → length s ≡ len
    → len ≤ i + f
    → get_elem? (reverse_loop f i len s) n ≡ get_elem? s (mirror i len n)
unfolding reverse_loop
get_elem?-reverse_loop zero i len s n e h =
    rw (mirror-eq i len n n (λ a b. omega arith) (λ _. refl))
get_elem?-reverse_loop (suc f) i len s n e h = elim (Bool-cases (ltb (i + i + 1) len)) [
  | inl t ↦ rw t (
      get_elem?-reverse_loop f (i + 1) len (swap_ends s i (len - i - 1)) n
        (length-swap_ends s i (len - i - 1) ∙ e) (omega arith)
      ∙ swap_ends-mirror i len s n e (ltb→lt (i + i + 1) len t))
  | inr t ↦
      rw (t, mirror-eq i len n n (λ a b. omega (arith, ltb_false→le (i + i + 1) len t)) (λ _. refl))
]

get_elem?-reverse :
    (s : List ℕ) (n : ℕ) → get_elem? (reverse s) n ≡ get_elem? s (mirror 0 (length s) n)
get_elem?-reverse [] n = refl
get_elem?-reverse (x ∷ s) n =
    ap (λ t. get_elem? t n) (reverse-cons x s) ∙ elim (dec_lt n (length s)) [
      | yes h ↦
          get_elem?-append_left (reverse s) (x ∷ []) n (omega (arith, length-reverse {0} s))
          ∙ get_elem?-reverse s n
          ∙ rw (
            mirror-eq 0 (length s) n (length s - 1 - n) (λ a b. refl) (λ o. absurd (omega arith)),
            mirror-eq 0 (suc (length s)) n (suc (length s - 1 - n)) (λ a b. omega arith)
                (λ o. absurd (omega arith)),
          )
      | no h ↦ elim (ℕ_discrete n (length s)) [
        | yes e ↦
            rw (mirror-eq 0 (suc (length s)) n 0 (λ a b. omega arith) (λ o. absurd (omega arith))) (
              ap (get_elem? (reverse s ++ (x ∷ []))) (e ∙ sym (length-reverse s))
              ∙ get_elem?-append_end (reverse s) x)
        | no ne ↦
            get_elem?-none (reverse s ++ (x ∷ [])) n
              (omega (arith, length-append {0} (reverse s) (x ∷ []), length-reverse {0} s))
            ∙ sym (
                get_elem?-none (x ∷ s) (mirror 0 (suc (length s)) n) (
                  rw (mirror-eq 0 (suc (length s)) n n (λ a b. omega arith) (λ _. refl))
                    (omega arith)))
      ]
    ]

-- The loop over pairs of ends, on an array of the stated length, is the reversal of the list.
pub reverse_ucs4-reverse : (s : List ℕ) → reverse_ucs4 s (length s) ≡ reverse s
unfolding reverse_ucs4
reverse_ucs4-reverse s = get_elem?-ext (reverse_loop (length s) 0 (length s) s) (reverse s) (λ n.
    get_elem?-reverse_loop (length s) 0 (length s) s n refl (omega arith)
    ∙ sym (get_elem?-reverse s n))
