-- ===== src/Desktop/Cache/Keys.antt =====
-- The keys of trees in the cache files of src/desktop/xdgappcache.c: texts with their NUL, in the
-- cells of Containers/Avl/Serial.antt.
use libxdg.Base.{zero, suc, ◌≡◌, refl, Option, none, some, List, [], ◌∷◌, ◌++◌, arith}
use libxdg.Base.Text.{Bytes, IsText}
use libxdg.Containers.Avl.Serial.{Cell, tree_cell, node_cell, byte_cell}

unfoldable pub write_app_key : Bytes → List Cell
write_app_key [] = byte_cell 0 ∷ []
write_app_key (c ∷ key) = byte_cell c ∷ write_app_key key

-- The text at the front of the memory, and the memory behind its NUL.
unfoldable pub read_app_key : List Cell → Option (Bytes × List Cell)
read_app_key [] = none
read_app_key (tree_cell ∷ memory) = none
read_app_key (node_cell v b ∷ memory) = none
read_app_key (byte_cell zero ∷ memory) = some ([], memory)
read_app_key (byte_cell (suc c) ∷ memory) = elim (read_app_key memory) [
  | none ↦ none
  | some (key, rest) ↦ some (suc c ∷ key, rest)
]

pub read_app_key-write_app_key :
    (key : Bytes) (rest : List Cell)
    → IsText key
    → read_app_key (write_app_key key ++ rest) ≡ some (key, rest)
unfolding read_app_key write_app_key
read_app_key-write_app_key [] rest h = refl
read_app_key-write_app_key (zero ∷ key) rest h = absurd (omega arith)
read_app_key-write_app_key (suc c ∷ key) rest h = rw (read_app_key-write_app_key key rest h.1) refl
