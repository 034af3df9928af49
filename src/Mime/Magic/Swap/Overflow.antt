-- ===== src/Mime/Magic/Swap/Overflow.antt =====
-- The byte swap of src/mime/xdgmimemagic.c on values of one word and of several.
use mathlib.Core.List.{reverse, append-nil}
use libxdg.Base.{
  ℕ, zero, suc, ◌+◌, ◌*◌, ◌≤◌, ◌<◌, ◌≡◌, refl, ap, ◌∙◌, ◌⊎◌, inl, inr, true, false, Option, none,
  some, [], ◌∷◌, ◌++◌, ltb, length, take, drop, length-append, length-take, length-drop,
  length-reverse, take_all, drop_all, ap₂, arith, Bool-cases, lt→ltb, ltb_false→le,
}
use libxdg.Base.Text.{Bytes}
use libxdg.Mime.Magic.Swap.{swap_word, swap_mask, both, and_then, swap_loop}

-- A word written in the place of another.
length-splice :
    (p w i : ℕ) (value : Bytes)
    → p + w ≤ length value
    → i ≤ p
    → length (take p value ++ (reverse (take w (drop i value)) ++ drop (p + w) value))
      ≡ length value
length-splice p w i value h l = omega (
  arith,
  length-append (take p value) (reverse (take w (drop i value)) ++ drop (p + w) value),
  length-append (reverse (take w (drop i value))) (drop (p + w) value),
  length-reverse (take w (drop i value)),
  length-take w (drop i value),
  length-drop i value,
  length-take p value,
  length-drop (p + w) value,
)

swap_word-cases :
    (w i : ℕ) (value : Bytes)
    → i ≤ w * i
    → (swap_word w i value ≡ none)
      ⊎ ((value' : Bytes) × (swap_word w i value ≡ some value') × (length value' ≡ length value))
unfolding swap_word
swap_word-cases w i value l = elim (Bool-cases (ltb (length value) (w * i + w))) [
  | inl e ↦ rw e (inl refl)
  | inr e ↦
      rw e (
        inr
          (_, refl, length-splice (w * i) w i value (ltb_false→le (length value) (w * i + w) e) l))
]

swap_word-beyond : (w i : ℕ) (value : Bytes) → length value < w * i + w → swap_word w i value ≡ none
unfolding swap_word
swap_word-beyond w i value h = rw (lt→ltb (length value) (w * i + w) h)

with_mask :
    (onward : Bytes → Option Bytes → Option (Bytes × Option Bytes)) (value : Bytes)
    (o : Option (Option Bytes))
    → ((mask : Option Bytes) → onward value mask ≡ none)
    → and_then onward (both (some value) o) ≡ none
with_mask onward value none h = refl
with_mask onward value (some mask) h = h mask

-- With more than one word left from `i` on, or one that is not the first, the loop writes behind
-- the value.
overflow_from :
    (w : ℕ)
    → ((i : ℕ) → i ≤ w * i)
    → ((i : ℕ) → 0 < i → i < w * i)
    → 0 < w
    → (k rounds i : ℕ) (value : Bytes) (mask : Option Bytes) → length value ≡ i + (w + k * w)
    → k < rounds
    → 0 < i + k
    → swap_loop rounds w i value mask ≡ none
unfolding swap_loop
overflow_from w le lt p k zero i value mask e r z = absurd (omega arith)
overflow_from w le lt p zero (suc rounds) i value mask e r z =
    let grown : i < w * i = lt i (omega arith) in
    let inside : ltb i (length value) ≡ true = lt→ltb i (length value) (omega arith) in
    rw (inside, swap_word-beyond w i value (omega arith)) refl
overflow_from w le lt p (suc k) (suc rounds) i value mask e r z =
    let inside : ltb i (length value) ≡ true = lt→ltb i (length value) (omega arith) in
    rw inside (elim (swap_word-cases w i value (le i)) [
      | inl f ↦ rw f refl
      | inr (value', f, l) ↦ rw f (
          with_mask (swap_loop rounds w (i + w)) value' (swap_mask w i mask) (λ mask'.
            overflow_from w le lt p k rounds (i + w) value' mask' (omega arith) (omega arith)
              (omega arith)))
    ])

-- With words of two or four bytes, the swap of a value of two or more words, masked or not, writes
-- out of bounds.
pub swap_loop-overflow :
    (w k : ℕ) (value : Bytes) (mask : Option Bytes)
    → (w ≡ 2) ⊎ (w ≡ 4)
    → length value ≡ w + suc k * w
    → swap_loop (length value) w 0 value mask ≡ none
swap_loop-overflow w k value mask (inl e) l =
    overflow_from w (λ i. rw e (omega arith)) (λ i h. rw e (omega arith)) (omega arith) (suc k)
      (length value) 0 value mask (omega (arith, l)) (rw (l, e) (omega arith)) (omega arith)
swap_loop-overflow w k value mask (inr e) l =
    overflow_from w (λ i. rw e (omega arith)) (λ i h. rw e (omega arith)) (omega arith) (suc k)
      (length value) 0 value mask (omega (arith, l)) (rw (l, e) (omega arith)) (omega arith)

swap_word_whole : (w : ℕ) (v : Bytes) → length v ≡ w → swap_word w 0 v ≡ some (reverse v)
unfolding swap_word
swap_word_whole w v e =
    let start : w * 0 ≡ 0 = omega arith in
    let fits : ltb (length v) (0 + w) ≡ false = ground arith in
    rw (start, fits)
      (ap some (
        ap₂ (λ a b. reverse a ++ b) (take_all w v (omega arith)) (drop_all (0 + w) v (omega arith))
        ∙ append-nil (reverse v)))

swap_loop_end :
    (rounds w : ℕ) (value : Bytes) (mask : Option Bytes)
    → length value ≡ w
    → swap_loop rounds w (0 + w) value mask ≡ some (value, mask)
unfolding swap_loop
swap_loop_end zero w value mask e = refl
swap_loop_end (suc rounds) w value mask e =
    let out : ltb (0 + w) (length value) ≡ false = ground arith in rw out refl

-- A value of one word, and a mask of the same length, are turned round.
swap_loop-reverse :
    (w : ℕ) (value mask : Bytes)
    → 0 < w
    → length value ≡ w
    → length mask ≡ w
    → (swap_loop (length value) w 0 value (some mask) ≡ some (reverse value, some (reverse mask)))
      × (swap_loop (length value) w 0 value none ≡ some (reverse value, none))
unfolding swap_loop
swap_loop-reverse w [] mask p e f = absurd (omega arith)
swap_loop-reverse w (b ∷ value) mask p e f =
    let inside : ltb 0 (suc (length value)) ≡ true = ground arith in
    let turned : length (reverse (b ∷ value)) ≡ w = omega (arith, length-reverse (b ∷ value)) in
    (
      rw (inside, swap_word_whole w (b ∷ value) e, swap_mask, swap_word_whole w mask f)
          (swap_loop_end (length value) w (reverse (b ∷ value)) (some (reverse mask)) turned),
      rw (inside, swap_word_whole w (b ∷ value) e)
          (swap_loop_end (length value) w (reverse (b ∷ value)) none turned),
    )
