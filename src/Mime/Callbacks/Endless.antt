-- ===== src/Mime/Callbacks/Endless.antt =====
-- The reload callbacks of src/mime/xdgmime.c after one in the middle was removed.
use libxdg.Base.{
  ℕ, zero, suc, ◌<◌, ◌≡◌, ◌≢◌, refl, sym, ap, ◌∙◌, subst, Bool, true, false, Option, none, some,
  List, [], ◌∷◌, ◌==◌, All, arith, length, if◌then◌else◌, ne→==_false,
}
use libxdg.Base.Faults.{◌>>=◌}
use libxdg.Containers.Links.{set}
use libxdg.Containers.Links.Chain.{set_same, set_other}
use libxdg.Mime.Callbacks.{Callbacks, call_loop, relink_next, unlink_callback, remove_callback}

-- A walk from an address over elements with other ids to an element.
abbrev pub Walks : Callbacks → ℕ → ℕ → List ℕ → ℕ → Type 0
Walks c id a [] p = a ≡ p
Walks c id a (y ∷ ys) p = (a ≡ y) × (y ≢ 0) × (c.callback_id y ≢ id) × Walks c id (c.next y) ys p

-- The callback `x` with an id stands behind the elements `xs` and `p` and has one behind it.
pub record InMiddle (c : Callbacks) (id : ℕ) (xs : List ℕ) (p x : ℕ) : Type 0 where
  pub walks : Walks c id c.callback_list xs p
  pub p_there : p ≢ 0
  pub p_other : c.callback_id p ≢ id
  pub p_next : c.next p ≡ x
  pub x_there : x ≢ 0
  pub x_id : c.callback_id x ≡ id
  pub x_prev : c.prev x ≡ p
  pub x_next : c.next x ≢ 0
  pub p_apart : All (λ y. y ≢ p) xs
  pub x_apart : All (λ y. y ≢ x) xs

step_false {ℓ} :
    {B : Type ℓ} (b : Bool) (x y : B) {z : B}
    → b ≡ false
    → y ≡ z
    → elim b [ true ↦ x | false ↦ y ] ≡ z
step_false true x y e h = absurd (ground arith)
step_false false x y e h = h

step_true {ℓ} : {B : Type ℓ} (b : Bool) (x y : B) → b ≡ true → elim b [ true ↦ x | false ↦ y ] ≡ x
step_true true x y e = refl
step_true false x y e = absurd (ground arith)

same_test : (a b : ℕ) → a ≡ b → (a == b) ≡ true
same_test a b e = ground arith

-- An element before the one that is removed is passed.
passed :
    (f : ℕ) (c : Callbacks) (id y : ℕ) {o : Option Callbacks}
    → y ≢ 0
    → c.callback_id y ≢ id
    → remove_callback f c id (c.next y) ≡ o
    → remove_callback (suc f) c id y ≡ o
unfolding remove_callback
passed f c id y z h e =
    step_false (y == 0) _ _ (ne→==_false y 0 z)
      (step_false (c.callback_id y == id) _ _ (ne→==_false _ id h) e)

found :
    (f : ℕ) (c : Callbacks) (id x : ℕ)
    → x ≢ 0
    → c.callback_id x ≡ id
    → remove_callback (suc f) c id x ≡ some (unlink_callback c x)
unfolding remove_callback
found f c id x z h =
    step_false (x == 0) _ _ (ne→==_false x 0 z)
      (step_true (c.callback_id x == id) _ _ (same_test _ id h))

remove_callback-Walks :
    (c : Callbacks) (id a : ℕ) (xs : List ℕ) (p x f : ℕ)
    → Walks c id a xs p
    → p ≢ 0
    → c.callback_id p ≢ id
    → c.next p ≡ x
    → x ≢ 0
    → c.callback_id x ≡ id
    → suc (length xs) < f
    → remove_callback f c id a ≡ some (unlink_callback c x)
remove_callback-Walks c id a xs p x zero w h k e z i l = absurd (omega arith)
remove_callback-Walks c id a xs p x (suc zero) w h k e z i l = absurd (omega arith)
remove_callback-Walks c id a [] p x (suc (suc f)) w h k e z i l =
    subst (λ a. remove_callback (suc (suc f)) c id a ≡ some (unlink_callback c x)) (sym w)
      (passed (suc f) c id p h k (
        subst (λ y. remove_callback (suc f) c id y ≡ some (unlink_callback c x)) (sym e)
          (found f c id x z i)))
remove_callback-Walks c id a (y ∷ ys) p x (suc (suc f)) w h k e z i l =
    subst (λ a. remove_callback (suc (suc f)) c id a ≡ some (unlink_callback c x)) (sym w.0)
      (passed (suc f) c id y w.1 w.2
        (remove_callback-Walks c id (c.next y) ys p x (suc f) w.3 h k e z i (omega arith)))

-- A walk to an element that is its own successor has no end.
call_loop-own : (c : Callbacks) (p f : ℕ) → p ≢ 0 → c.next p ≡ p → call_loop f c p ≡ none
unfolding call_loop
call_loop-own c p zero h e = refl
call_loop-own c p (suc f) h e =
    step_false (p == 0) _ _ (ne→==_false p 0 h)
      (ap (λ o. o >>= λ rest. some (p ∷ rest)) (ap (call_loop f c) e ∙ call_loop-own c p f h e))

call_loop-Walks :
    (c c' : Callbacks) (id a : ℕ) (xs : List ℕ) (p f : ℕ)
    → Walks c id a xs p
    → All (λ y. c'.next y ≡ c.next y) xs
    → p ≢ 0
    → c'.next p ≡ p
    → call_loop f c' a ≡ none
unfolding call_loop
call_loop-Walks c c' id a xs p zero w k h e = refl
call_loop-Walks c c' id a [] p (suc f) w k h e =
    subst (λ a. call_loop (suc f) c' a ≡ none) (sym w) (call_loop-own c' p (suc f) h e)
call_loop-Walks c c' id a (y ∷ ys) p (suc f) w k h e =
    subst (λ a. call_loop (suc f) c' a ≡ none) (sym w.0)
      (step_false (y == 0) _ _ (ne→==_false y 0 w.1) (
        ap (λ o. o >>= λ rest. some (y ∷ rest))
          (ap (call_loop f c') k.0 ∙ call_loop-Walks c c' id (c.next y) ys p f w.3 k.1 h e)))

-- What is left of an element with elements on both sides: the one before it leads to itself.
own_next : Callbacks → ℕ → ℕ → Callbacks
own_next c p x = record c { next = set (set c.next x p) p p }

if_fails {ℓ} : {B : Type ℓ} (b : Bool) (x y : B) → b ≡ false → (if b then x else y) ≡ y
if_fails true x y e = absurd (ground arith)
if_fails false x y e = refl

relink_next-middle :
    (c : Callbacks) (p x : ℕ) → c.prev x ≡ p → c.next x ≢ 0 → relink_next c x ≡ set c.next x p
relink_next-middle c p x e h =
    if_fails (c.next x == 0) _ _ (ne→==_false (c.next x) 0 h) ∙ ap (set c.next x) e

unlink_callback-middle :
    (c : Callbacks) (p x : ℕ)
    → p ≢ 0
    → c.prev x ≡ p
    → c.next x ≢ 0
    → unlink_callback c x ≡ own_next c p x
unfolding unlink_callback own_next
unlink_callback-middle c p x z e h =
    if_fails (c.prev x == 0) _ _ (ap (λ a. a == 0) e ∙ ne→==_false p 0 z)
    ∙ ap (λ a. record c { next = set (relink_next c x) a (relink_next c x x) }) e
    ∙ ap (λ next. record c { next = set next p (next x) }) (relink_next-middle c p x e h)
    ∙ ap (λ a. record c { next = set (set c.next x p) p a }) (set_same c.next x p)

nexts_kept :
    (c : Callbacks) (p x : ℕ) (xs : List ℕ)
    → All (λ y. y ≢ p) xs
    → All (λ y. y ≢ x) xs
    → All (λ y. (own_next c p x).next y ≡ c.next y) xs
unfolding own_next
nexts_kept c p x [] h k = tt
nexts_kept c p x (y ∷ ys) h k =
    (set_other (set c.next x p) p p y h.0 ∙ set_other c.next x p y k.0, nexts_kept c p x ys h.1 k.1)

-- Where a callback stands between others, its removal comes to an end, in more rounds than the
-- callbacks before it; but then the loop that calls the callbacks has no end, whatever the rounds.
pub remove_callback-endless :
    (c : Callbacks) (id : ℕ) (xs : List ℕ) (p x f g : ℕ)
    → InMiddle c id xs p x
    → suc (length xs) < f
    → (c' : Callbacks) × (remove_callback f c id c.callback_list ≡ some c')
      × (call_loop g c' c'.callback_list ≡ none)
unfolding own_next
remove_callback-endless c id xs p x f g m l = (
  own_next c p x,
  remove_callback-Walks c id c.callback_list xs p x f m.walks m.p_there m.p_other m.p_next m.x_there
        m.x_id l
      ∙ ap some (unlink_callback-middle c p x m.p_there m.x_prev m.x_next),
  call_loop-Walks c (own_next c p x) id c.callback_list xs p g m.walks
      (nexts_kept c p x xs m.p_apart m.x_apart) m.p_there (set_same (set c.next x p) p p),
)
