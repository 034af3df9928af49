-- ===== src/Tests/Items.antt =====
-- A list of three items in an empty store, with additions and removals.
use libxdg.Base.{ℕ, ◌≡◌, refl, Bool, ◌||◌, some, [], ◌∷◌, ◌==◌, arith}
use libxdg.Containers.Links.{Store, prepend, apped, remove_if}
use libxdg.Containers.Links.Chain.{Holds, prepend-Holds}
use libxdg.Base.{◌+◌, List, ◌++◌}
use libxdg.Desktop.Cache.{MappedCell, write_list}
use libxdg.Desktop.Cache.Mapped.{contents_of, IsMapped, read_list-write_list}
use libxdg.Containers.Links.Append.{apped-Holds}
use libxdg.Containers.Links.RemoveIf.{remaining, remove_if-Holds}

abbrev null : ℕ → ℕ
null a = 0

abbrev nothing : Store
nothing = record { list = null; prev = null; next = null; head = null; tail = null }

abbrev one : Store
one = prepend nothing 9 1

abbrev two : Store
two = apped one 9 2

abbrev three : Store
three = apped two 9 3

one-Holds : Holds one 9 (1 ∷ [])
one-Holds = prepend-Holds nothing 9 1 [] (tt, refl, refl, tt) (omega arith) tt

two-Holds : Holds two 9 (1 ∷ 2 ∷ [])
two-Holds = apped-Holds one 9 2 (1 ∷ []) one-Holds (omega arith) (omega arith)

three-Holds : Holds three 9 (1 ∷ 2 ∷ 3 ∷ [])
three-Holds = apped-Holds two 9 3 (1 ∷ 2 ∷ []) two-Holds (omega arith) (omega arith)

-- The items 1 and 2 match.
abbrev is_small : ℕ → Bool
is_small x = (x == 1) || (x == 2)

remove_if-Holds_example :
    (s' : Store) × (remove_if 3 is_small three 9 ≡ some s')
    × Holds s' 9 (remaining is_small (1 ∷ 2 ∷ 3 ∷ []))
remove_if-Holds_example =
    remove_if-Holds 3 is_small three 9 (1 ∷ 2 ∷ 3 ∷ []) three-Holds (omega arith)

read_list-write_list_example :
    (cells : List (MappedCell ℕ)) × (write_list 4 three (λ x. x + 20) 9 ≡ some cells)
    × (contents_of cells ≡ 21 ∷ 22 ∷ 23 ∷ [])
    × IsMapped nothing 100 3 (cells ++ []) []
read_list-write_list_example =
    read_list-write_list three (λ x. x + 20) 9 (1 ∷ 2 ∷ 3 ∷ []) 4 nothing 100 [] three-Holds
      (omega arith)
