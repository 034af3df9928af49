-- ===== src/Mime/Callbacks.antt =====
-- The list of reload callbacks of src/mime/xdgmime.c, on a store: an address is a number, and 0 is
-- NULL. A callback is called by its address.
pub mod Endless
use libxdg.Base.{
  ℕ, zero, suc, ◌+◌, Bool, true, false, Option, none, some, List, [], ◌∷◌, ◌==◌, if◌then◌else◌,
}
use libxdg.Base.Faults.{◌>>=◌, ◌>>◌}
use libxdg.Containers.Links.{set}

-- The fields of `XdgCallbackList` that the list is made of, `callback_list` and the next id.
pub record Callbacks : Type 0 where
  pub next : ℕ → ℕ
  pub prev : ℕ → ℕ
  pub callback_id : ℕ → ℕ
  pub callback_list : ℕ
  pub next_id : ℕ

-- `xdg_mime_register_reload_callback` on the address that `calloc` gives: the id, and the list.
unfoldable pub register_reload_callback : Callbacks → ℕ → ℕ × Callbacks
unfolding set
register_reload_callback c list_el = (
  c.next_id,
  record c {
    next = set c.next list_el c.callback_list;
    prev =
        if c.callback_list == 0
        then set c.prev list_el 0
        else set (set c.prev list_el 0) c.callback_list list_el;
    callback_id = set c.callback_id list_el c.next_id;
    callback_list = list_el;
    next_id = c.next_id + 1;
  },
)

-- The loop that calls the callbacks, with the rounds that it may take: those called, in order.
unfoldable pub call_loop : ℕ → Callbacks → ℕ → Option (List ℕ)
call_loop zero c list = none
call_loop (suc f) c list = elim (list == 0) [
  | true ↦ some []
  | false ↦ (do rest ← call_loop f c (c.next list); some (list ∷ rest))
]

-- `if (list->next) list->next = list->prev;`
abbrev pub relink_next : Callbacks → ℕ → ℕ → ℕ
relink_next c list = if c.next list == 0 then c.next else set c.next list (c.prev list)

-- The writes that take an element out.
unfoldable pub unlink_callback : Callbacks → ℕ → Callbacks
unfolding set
unlink_callback c list =
    if c.prev list == 0
    then record c { next = relink_next c list; callback_list = relink_next c list list }
    else record c { next = set (relink_next c list) (c.prev list) (relink_next c list list) }

-- The loop of `xdg_mime_remove_callback`, with the rounds that it may take.
unfoldable pub remove_callback : ℕ → Callbacks → ℕ → ℕ → Option Callbacks
unfolding unlink_callback
remove_callback zero c id list = none
remove_callback (suc f) c id list = elim (list == 0) [
  | true ↦ some c
  | false ↦ elim (c.callback_id list == id) [
    | true ↦ some (unlink_callback c list)
    | false ↦ remove_callback f c id (c.next list)
  ]
]
