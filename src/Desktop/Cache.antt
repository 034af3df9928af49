-- ===== src/Desktop/Cache.antt =====
-- The lists in the cache files of src/desktop/xdgappcache.c, over the store of
-- src/containers/xdglist.c. A file is a list of cells, the structures that are written one by one,
-- with their pointers as they were; each has an address, one more than that of the cell before it.
pub mod Keys
pub mod Mapped
use libxdg.Base.{
  ℕ, zero, suc, ◌+◌, Bool, true, false, Option, none, some, List, [], ◌∷◌, ◌++◌, ◌==◌,
}
use libxdg.Base.Faults.{◌>>=◌, ◌>>◌}
use libxdg.Base.Text.{Bytes}
use libxdg.Containers.Links.{Store, set}

-- An `XdgList` with its head and tail, or an item with its links and what it holds: the text of an
-- `XdgValue`, or the time and the path of an `XdgFileWatcher`.
pub data MappedCell {ℓ} (A : Type ℓ) : Type ℓ where
  list_cell : ℕ → ℕ → MappedCell A
  item_cell : ℕ → ℕ → A → MappedCell A

-- The memory at an address, where an item is mapped.
abbrev pub map_item : Store → ℕ → ℕ → ℕ → Store
map_item s at prev next = record s { prev = set s.prev at prev; next = set s.next at next }

abbrev pub map_list : Store → ℕ → ℕ → ℕ → Store
map_list s at head tail = record s { head = set s.head at head; tail = set s.tail at tail }

-- `prev->item.next = tmp; tmp->item.prev = prev; tmp->item.list = list;`
abbrev pub link_item : Store → ℕ → ℕ → ℕ → Store
link_item s l p tmp = record s {
  list = set s.list tmp l;
  prev = set s.prev tmp p;
  next = set s.next p tmp;
}

module _ {ℓ} {A : Type ℓ} where
  -- The loop over the items, with the rounds that it may take.
  unfoldable pub write_items : ℕ → Store → (ℕ → A) → ℕ → Option (List (MappedCell A))
  write_items zero s content item = none
  write_items (suc f) s content item = elim (item == 0) [
    | true ↦ some []
    | false ↦ (do
      cells ← write_items f s content (s.next item)
      some (item_cell (s.prev item) (s.next item) (content item) ∷ cells))
  ]

  -- `write_app_group_localized_entry` and `write_file_watcher_list`.
  unfoldable pub write_list : ℕ → Store → (ℕ → A) → ℕ → Option (List (MappedCell A))
  unfolding write_items
  write_list f s content l = do
    cells ← write_items f s content (s.head l)
    some (list_cell (s.head l) (s.tail l) ∷ cells)

  -- The loop behind the first item: the list, the last item, its `next` as it was written, and the
  -- memory behind it. A read of what is no item is a fault.
  unfoldable pub read_items :
      Store → ℕ → ℕ → ℕ → List (MappedCell A) → Option (Store × ℕ × List (MappedCell A))
  read_items s l p n [] = elim (n == 0) [
    | true ↦ some (record s { tail = set s.tail l p }, suc p, [])
    | false ↦ none
  ]
  read_items s l p n (list_cell h t ∷ memory) = elim (n == 0) [
    | true ↦ some (record s { tail = set s.tail l p }, suc p, list_cell h t ∷ memory)
    | false ↦ none
  ]
  read_items s l p n (item_cell b m x ∷ memory) = elim (n == 0) [
    | true ↦ some (record s { tail = set s.tail l p }, suc p, item_cell b m x ∷ memory)
    | false ↦ read_items (link_item (map_item s (suc p) b m) l p (suc p)) l (suc p) m memory
  ]

  -- `list->head = prev; prev->item.list = list;` and the loop.
  abbrev pub read_first : Store → ℕ → List (MappedCell A) → Option (Store × ℕ × List (MappedCell A))
  read_first s l [] = none
  read_first s l (list_cell h t ∷ memory) = none
  read_first s l (item_cell b m x ∷ memory) =
      read_items
        (record (map_item s (suc l) b m) {
          head = set s.head l (suc l);
          list = set s.list (suc l) l;
        })
        l (suc l) m memory

  -- `read_app_group_localized_entry` and `read_file_watcher_list` at an address: the store, and the
  -- address and the memory behind what was read.
  unfoldable pub read_list :
      Store → ℕ → List (MappedCell A) → Option (Store × ℕ × List (MappedCell A))
  unfolding read_items
  read_list s l [] = none
  read_list s l (item_cell b m x ∷ memory) = none
  read_list s l (list_cell h t ∷ memory) = elim (h == 0) [
    | true ↦ some (map_list s l h t, suc l, memory)
    | false ↦ read_first (map_list s l h t) l memory
  ]

-- `XdgFileWatcher`: the time and the path.
abbrev pub FileWatcher : Type 0
FileWatcher = ℕ × Bytes

-- `write_app_group_localized_entry`
abbrev pub write_app_group_localized_entry :
    ℕ → Store → (ℕ → Bytes) → ℕ → Option (List (MappedCell Bytes))
write_app_group_localized_entry f s value l = write_list f s value l

-- `read_app_group_localized_entry`
abbrev pub read_app_group_localized_entry :
    Store → ℕ → List (MappedCell Bytes) → Option (Store × ℕ × List (MappedCell Bytes))
read_app_group_localized_entry s l memory = read_list s l memory

-- `write_file_watcher_list`
abbrev pub write_file_watcher_list :
    ℕ → Store → (ℕ → FileWatcher) → ℕ → Option (List (MappedCell FileWatcher))
write_file_watcher_list f s file l = write_list f s file l

-- `read_file_watcher_list`
abbrev pub read_file_watcher_list :
    Store → ℕ → List (MappedCell FileWatcher) → Option (Store × ℕ × List (MappedCell FileWatcher))
read_file_watcher_list s l memory = read_list s l memory
