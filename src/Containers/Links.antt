-- ===== src/Containers/Links.antt =====
-- src/containers/xdglist.c: doubly linked lists on a store. An address is a number, and 0 is NULL; a
-- field of all items, or of all lists, is a function on addresses.
pub mod Chain
pub mod Append
pub mod Remove
pub mod RemoveIf
use libxdg.Base.{ℕ, zero, suc, Bool, true, false, Option, none, some, ◌==◌, if◌then◌else◌}

-- The fields of `XdgListItem`, and those of `XdgList`.
pub record Store : Type 0 where
  pub list : ℕ → ℕ
  pub prev : ℕ → ℕ
  pub next : ℕ → ℕ
  pub head : ℕ → ℕ
  pub tail : ℕ → ℕ

-- A write to a field.
unfoldable pub set : (ℕ → ℕ) → ℕ → ℕ → ℕ → ℕ
set field at v a = if a == at then v else field a

-- `_is_empty_list`
abbrev pub is_empty_list : Store → ℕ → Bool
is_empty_list s l = s.head l == 0

-- The branch for an empty list, the same in both functions.
abbrev pub only_item : Store → ℕ → ℕ → Store
only_item s l value = record {
  list = set s.list value l;
  prev = set s.prev value 0;
  next = set s.next value 0;
  head = set s.head l value;
  tail = set s.tail l value;
}

-- `_xdg_list_prepend`
unfoldable pub prepend : Store → ℕ → ℕ → Store
unfolding set
prepend s l value = if s.head l == 0 then only_item s l value else record s {
  list = set s.list value l;
  prev = set (set s.prev value 0) (s.head l) value;
  next = set s.next value (s.head l);
  head = set s.head l value;
}

-- `_xdg_list_apped`
unfoldable pub apped : Store → ℕ → ℕ → Store
unfolding set
apped s l value = if s.head l == 0 then only_item s l value else record s {
  list = set s.list value l;
  prev = set s.prev value (s.tail l);
  next = set (set s.next value 0) (s.tail l) value;
  tail = set s.tail l value;
}

-- What `_xdg_list_remove` writes in front of the item and behind it, by the list, the item before
-- and the item behind, which it reads from the item and does not write there.
abbrev pub unlink_before : Store → ℕ → ℕ → ℕ → Store
unlink_before s l p n =
    if p == 0 then record s { head = set s.head l n } else record s { next = set s.next p n }

abbrev pub unlink_behind : Store → ℕ → ℕ → ℕ → Store
unlink_behind s l p n =
    if n == 0 then record s { tail = set s.tail l p } else record s { prev = set s.prev n p }

-- `_xdg_list_remove`, and the item that it returns. The store keeps what the freed item held.
unfoldable pub remove : Store → ℕ → Store × ℕ
unfolding set
remove s item = (
  unlink_behind (unlink_before s (s.list item) (s.prev item) (s.next item)) (s.list item)
      (s.prev item) (s.next item),
  s.next item,
)

-- The loop of `_xdg_list_remove_if`.
unfoldable pub remove_loop : ℕ → (ℕ → Bool) → Store → ℕ → Option Store
unfolding remove
remove_loop zero match s item = none
remove_loop (suc f) match s item =
    let matched =
      if (remove s item).1 == 0
      then some (remove s item).0
      else remove_loop f match (remove s item).0 (remove s item).1 in
    let passed = if s.next item == 0 then some s else remove_loop f match s (s.next item) in
    if match item then matched else passed

-- `_xdg_list_remove_if`, with the rounds that the loop may take.
unfoldable pub remove_if : ℕ → (ℕ → Bool) → Store → ℕ → Option Store
unfolding remove_loop
remove_if f match s l = if s.head l == 0 then some s else remove_loop f match s (s.head l)
