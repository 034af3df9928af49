-- ===== src/Themes/Values.antt =====
-- Lines of theme files, in src/themes/xdgtheme.c: what a written line is read as.
use mathlib.Core.List.{reverse, reverse-append, reverse-reverse, append-nil, append_assoc}
use libxdg.Base.{
  ℕ, zero, suc, ◌≡◌, ◌≢◌, refl, sym, ap, ap₂, ◌∙◌, subst, Bool, true, false, Option, none, some,
  inl, inr, List, [], ◌∷◌, ◌++◌, All, arith, if◌then◌else◌, Bool-cases, ne→==_false,
}
use libxdg.Base.Text.{Bytes, codes, Lacks, str_eq, str_eq_refl, str_eq_iff, strchr-append}
use libxdg.Themes.{
  Group, Theme, ThemeMap, new_theme, search_map, change_map, list_theme_item_add, with_values,
  drop_inner, remove_white_spaces_left, remove_white_spaces_right, last_value, split_values,
  add_theme_parents, add_values, theme_group_read_entry,
}

-- A number of blanks.
abbrev pub blanks : ℕ → Bytes
blanks zero = []
blanks (suc n) = b' ' ∷ blanks n

-- A value that is not empty, does not begin with a blank and has no comma and no end of line.
abbrev pub IsValue : Bytes → Type 0
IsValue [] = ⊥
IsValue (c ∷ v) = (c ≢ b' ') × Lacks b',' (c ∷ v) × Lacks 10 (c ∷ v)

-- The values with commas between them and the end of the line.
abbrev pub join_values : List Bytes → Bytes
join_values [] = 10 ∷ []
join_values (v ∷ []) = v ++ (10 ∷ [])
join_values (v ∷ w ∷ vs) = v ++ (b',' ∷ join_values (w ∷ vs))

drop_inner-blanks : (n c : ℕ) (s : Bytes) → c ≢ b' ' → drop_inner (blanks n ++ (c ∷ s)) ≡ c ∷ s
unfolding drop_inner
drop_inner-blanks zero c [] h = refl
drop_inner-blanks zero c (d ∷ s) h = ground arith
drop_inner-blanks (suc zero) c s h = drop_inner-blanks zero c s h
drop_inner-blanks (suc (suc n)) c s h = drop_inner-blanks (suc n) c s h

blanks_snoc : (n : ℕ) → blanks n ++ (b' ' ∷ []) ≡ b' ' ∷ blanks n
blanks_snoc zero = refl
blanks_snoc (suc n) = ap (◌∷◌ b' ') (blanks_snoc n)

reverse-blanks : (n : ℕ) → reverse (blanks n) ≡ blanks n
reverse-blanks zero = refl
reverse-blanks (suc n) =
    reverse-append (b' ' ∷ []) (blanks n)
    ∙ ap (λ s. s ++ (b' ' ∷ [])) (reverse-blanks n)
    ∙ blanks_snoc n

drop_blanks :
    (m : ℕ) (s : Bytes) → remove_white_spaces_right (blanks m ++ s) ≡ remove_white_spaces_right s
drop_blanks zero s = refl
drop_blanks (suc m) s = drop_blanks m s

split_values_plain :
    (seg : Bytes) (c : ℕ) (s : Bytes)
    → c ≢ b','
    → c ≢ 10
    → split_values seg (c ∷ s) ≡ split_values (seg ++ (c ∷ [])) s
unfolding split_values
split_values_plain seg c s h k = rw (ne→==_false c 10 k, ne→==_false c b',' h) refl

split_values-last :
    (seg v : Bytes)
    → Lacks b',' v
    → Lacks 10 v
    → split_values seg (v ++ (10 ∷ [])) ≡ last_value (seg ++ v)
unfolding split_values
split_values-last seg [] h k = ap last_value (sym (append-nil seg))
split_values-last seg (c ∷ v) h k =
    split_values_plain seg c (v ++ (10 ∷ [])) h.0 k.0
    ∙ split_values-last (seg ++ (c ∷ [])) v h.1 k.1
    ∙ ap last_value (append_assoc seg (c ∷ []) v)

split_values-comma :
    (seg v s : Bytes)
    → Lacks b',' v
    → Lacks 10 v
    → split_values seg (v ++ (b',' ∷ s)) ≡ (seg ++ v) ∷ split_values [] s
unfolding split_values
split_values-comma seg [] s h k = ap (λ t. t ∷ split_values [] s) (sym (append-nil seg))
split_values-comma seg (c ∷ v) s h k =
    split_values_plain seg c (v ++ (b',' ∷ s)) h.0 k.0
    ∙ split_values-comma (seg ++ (c ∷ [])) v s h.1 k.1
    ∙ ap (λ t. t ∷ split_values [] s) (append_assoc seg (c ∷ []) v)

split_values-join : (vs : List Bytes) → All IsValue vs → split_values [] (join_values vs) ≡ vs
unfolding split_values
split_values-join [] h = refl
split_values-join ([] ∷ vs) h = absurd h.0
split_values-join ((c ∷ v) ∷ []) h = split_values-last [] (c ∷ v) h.0.1 h.0.2
split_values-join ((c ∷ v) ∷ w ∷ vs) h =
    split_values-comma [] (c ∷ v) (join_values (w ∷ vs)) h.0.1 h.0.2
    ∙ ap (λ t. (c ∷ v) ∷ t) (split_values-join (w ∷ vs) h.1)

-- The first byte is no blank.
join_values_kept :
    (vs : List Bytes) → All IsValue vs → remove_white_spaces_right (join_values vs) ≡ join_values vs
join_values_kept [] h = refl
join_values_kept ([] ∷ vs) h = absurd h.0
join_values_kept ((c ∷ v) ∷ []) h = rw (ne→==_false c b' ' h.0.0) refl
join_values_kept ((c ∷ v) ∷ w ∷ vs) h = rw (ne→==_false c b' ' h.0.0) refl

trimmed :
    (k : Bytes) (c n : ℕ)
    → c ≢ b' '
    → remove_white_spaces_left ((k ++ (c ∷ [])) ++ blanks n) ≡ k ++ (c ∷ [])
trimmed k c n h =
    ap (λ s. reverse (drop_inner s))
      (reverse-append (k ++ (c ∷ [])) (blanks n)
        ∙ ap₂ ◌++◌ (reverse-blanks n) (reverse-append k (c ∷ [])))
    ∙ ap reverse (drop_inner-blanks n c (reverse k) h)
    ∙ ap reverse (sym (reverse-append k (c ∷ [])))
    ∙ reverse-reverse (k ++ (c ∷ []))

Lacks-blanks : (x n : ℕ) → x ≢ b' ' → Lacks x (blanks n)
Lacks-blanks x zero h = tt
Lacks-blanks x (suc n) h = ((λ e. h (sym e)), Lacks-blanks x n h)

All-append : (x : ℕ) (a b : Bytes) → Lacks x a → Lacks x b → Lacks x (a ++ b)
All-append x [] b h k = k
All-append x (y ∷ a) b h k = (h.0, All-append x a b h.1 k)

-- What a lookup of a changed map gives: the changed value, or the new one changed.
abbrev value_or {ℓ} : {A : Type ℓ} → A → Option A → A
value_or a none = a
value_or a (some b) = b

module _ {ℓ} {A : Type ℓ} (new : A) (f : A → A) where
  search_map-change_map :
      (key : Bytes) (map : List (Bytes × A))
      → search_map key (change_map key new f map) ≡ some (f (value_or new (search_map key map)))
  unfolding search_map change_map
  search_map-change_map key [] = rw (str_eq_refl key) refl
  search_map-change_map key ((k, a) ∷ map) = elim (Bool-cases (str_eq k key)) [
    | inl e ↦ rw e (rw e refl)
    | inr e ↦ rw e (rw e (search_map-change_map key map))
  ]

  search_map-other :
      (key other : Bytes) (map : List (Bytes × A))
      → str_eq key other ≡ false
      → search_map other (change_map key new f map) ≡ search_map other map
  unfolding search_map change_map
  search_map-other key other [] h = rw h refl
  search_map-other key other ((k, a) ∷ map) h = elim (Bool-cases (str_eq k key)) [
    | inl e ↦
        let apart : str_eq k other ≡ false =
          ap (λ x. str_eq x other) ((str_eq_iff k key).0 e) ∙ h in
        rw e (rw apart refl)
    | inr e ↦
        rw e (ap (λ o. if str_eq k other then some a else o) (search_map-other key other map h))
  ]

abbrev groups_in : Option Theme → List (Bytes × Group)
groups_in none = []
groups_in (some theme) = theme.groups

abbrev values_in_groups : Bytes → Bytes → List (Bytes × Group) → List Bytes
values_in_groups group key groups =
    value_or [] (search_map key (value_or [] (search_map group groups)))

-- The groups of a theme, and the values of an entry in a group of it.
abbrev groups_of : Bytes → ThemeMap → List (Bytes × Group)
groups_of name themes = groups_in (search_map name themes)

abbrev pub values_of : Bytes → Bytes → Bytes → ThemeMap → List Bytes
values_of name group key themes = values_in_groups group key (groups_of name themes)

groups_in-value_or : (o : Option Theme) → (value_or new_theme o).groups ≡ groups_in o
groups_in-value_or none = refl
groups_in-value_or (some theme) = refl

add_values-values_of :
    (name group key : Bytes) (values : List Bytes) (themes : ThemeMap)
    → values_of name group key (add_values name group key values themes)
      ≡ values_of name group key themes ++ values
unfolding add_values
add_values-values_of name group key values themes =
    let entries = change_map {A = List Bytes} key [] (λ vs. vs ++ values) in
    ap (λ o. values_in_groups group key (groups_in o))
      (search_map-change_map new_theme (with_values group key values) name themes)
    ∙ ap (λ gs. values_in_groups group key (change_map group [] entries gs))
        (groups_in-value_or (search_map name themes))
    ∙ ap (λ o. value_or [] (search_map key (value_or [] o)))
        (search_map-change_map [] entries group (groups_of name themes))
    ∙ ap (value_or []) (search_map-change_map [] (λ vs. vs ++ values) key _)

-- A change that keeps the groups of a theme keeps those of all themes.
groups_of-change_map :
    (f : Theme → Theme) (other name : Bytes) (themes : ThemeMap)
    → ((t : Theme) → (f t).groups ≡ t.groups)
    → groups_of other (change_map name new_theme f themes) ≡ groups_of other themes
groups_of-change_map f other name themes keeps = elim (Bool-cases (str_eq name other)) [
  | inl e ↦
      subst (λ o. groups_of o (change_map name new_theme f themes) ≡ groups_of o themes)
        ((str_eq_iff name other).0 e)
        (ap groups_in (search_map-change_map new_theme f name themes)
          ∙ keeps _
          ∙ groups_in-value_or (search_map name themes))
  | inr e ↦ ap groups_in (search_map-other new_theme f name other themes e)
]

add_theme_parents-groups_of :
    (other name : Bytes) (ps : List Bytes) (themes : ThemeMap)
    → groups_of other (add_theme_parents name ps themes) ≡ groups_of other themes
unfolding add_theme_parents
add_theme_parents-groups_of other name [] themes = refl
add_theme_parents-groups_of other name (p ∷ ps) themes =
    add_theme_parents-groups_of other name ps _
    ∙ groups_of-change_map (list_theme_item_add p) other name _ (λ t. refl)
    ∙ groups_of-change_map (λ t. t) other p themes (λ t. refl)

groups_of-if :
    (b : Bool) (name : Bytes) (ps : List Bytes) (themes : ThemeMap)
    → groups_of name (if b then add_theme_parents name ps themes else themes)
      ≡ groups_of name themes
groups_of-if true name ps themes = add_theme_parents-groups_of name name ps themes
groups_of-if false name ps themes = refl

-- A line with a key that has no `=` and ends with another byte than a blank, with any blanks before
-- and behind the `=`, and with values that are not empty, do not begin with a blank and have no comma
-- and no end of line, adds exactly these values, in their order, behind those that the entry had.
pub theme_group_read_entry-values_of :
    (name group k : Bytes) (c n m : ℕ) (values : List Bytes) (themes : ThemeMap)
    → Lacks b'=' (k ++ (c ∷ []))
    → c ≢ b' '
    → All IsValue values
    → values_of name group (k ++ (c ∷ [])) (
        theme_group_read_entry name group
          (((k ++ (c ∷ [])) ++ blanks n) ++ (b'=' ∷ (blanks m ++ join_values values)))
          themes)
      ≡ values_of name group (k ++ (c ∷ [])) themes ++ values
unfolding theme_group_read_entry
theme_group_read_entry-values_of name group k c n m values themes h d v =
    let key = k ++ (c ∷ []) in
    rw
      (
        strchr-append b'=' (key ++ blanks n) (blanks m ++ join_values values)
            (All-append b'=' key (blanks n) h (Lacks-blanks b'=' n (ground arith))),
        theme_group_read_entry,
        trimmed k c n d,
        drop_blanks m (join_values values),
        join_values_kept values v,
        split_values-join values v,
      )
      (ap (values_in_groups group key) (
          groups_of-if (str_eq key (codes "Inherits")) name values
            (add_values name group key values themes))
        ∙ add_values-values_of name group key values themes)
