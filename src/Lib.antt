-- ===== src/Lib.antt =====
-- libxdg, the C library for the specifications of freedesktop.org: the base directories, the MIME
-- types of files by their names and by their contents, icon themes, and its containers.
--
-- The parts and the files that model them:
--   * src/basedirectory/xdgbasedirectory.c -> BaseDirectory.antt. The walks over the data and the
--     icon directories, one function for each C function, with the environment as the record `Env`
--     and the callback as a function on the state behind its `user_data`. The loops run on fuel,
--     one more than the length of the search path; every round makes the rest of the path shorter.
--   * src/mime/xdgmimeint.c -> Mime/Unicode.antt. UTF-8, UCS-4, base names, the text fallback.
--   * src/mime/xdgmimeglob.c -> Mime/Glob/Tree.antt (`XdgGlobHashNode`: `insert_ucs4`,
--     `lookup_node`) and Mime/Glob/Hash.antt (`XdgGlobHash`: `append_glob`, `lookup_file_name`).
--     The tree reads its texts from their ends, so that the walk over a name is one over the
--     reversed name. Mime/Glob/Lines.antt reads the lines of globs files, for which the buffer of
--     `fgets` has 255 bytes; Glob/Lines/Fields.antt and Mime/Table/Lines.antt describe files with
--     lines that fit in it.
--   * src/mime/xdgmimemagic.c -> Mime/Magic.antt: the rules on contents, the order of their
--     matches, their extents and the lookup; and the reader of magic files, from its single reads
--     in Magic/Reader.antt over the lines in Magic/Parse.antt and the byte swap in Magic/Swap.antt
--     to the state machine in Magic/File.antt. That loop runs on fuel, twice the number of bytes
--     and two: a line that begins a section is read twice, every other round takes a byte.
--   * src/mime/xdgmimealias.c, src/mime/xdgmimeicon.c and the equality of types in src/mime/xdgmime.c
--     -> Mime/Table.antt; src/mime/xdgmimeparent.c -> Mime/Parents.antt.
--   * src/mime/xdgmime.c -> Mime/Database.antt (the static variables and the reading of the data
--     directories), Mime/Watch.antt (the list of read files and the test for changes),
--     Mime/Database/Sniff.antt (types of data and of files), Mime/Callbacks.antt (the list of reload
--     callbacks on a store) and Mime/Subclass.antt. The subclass test calls itself for the parents of
--     a type; the fuel bounds the depth of these calls, and a rank of the types that falls to their
--     parents is enough.
--   * src/mime/xdgmimecache.c -> Mime/Cache.antt (the words and texts of a cache, binary search,
--     aliases and icons) with Cache/Parents.antt (subclass test, list of parents), Cache/Globs.antt
--     (patterns), Cache/Magic.antt (rules on contents) and Cache/Files.antt (types of data and files).
--     A cache is the list of its bytes, and words wrap at 2^32; a MIME type that a search finds there is
--     a pointer, which stands as the bytes from it on. A binary search takes at most `rounds`
--     = 33 rounds, since each halves a range of at most 2^31; the fuel of the subclass test and of the
--     matchlets bounds the depth of calls, which a cache with a cycle makes endless.
--   * src/themes/xdgtheme.c -> Themes.antt (theme files), Themes/Sizes.antt (directories that fit a
--     size) and Themes/Icons.antt (the search for the file of an icon, over the walk of
--     BaseDirectory.antt). Themes are in an association list by name, as the code only adds to its
--     trees and looks things up there. The search calls itself for parents; the fuel bounds the depth,
--     and a rank of the themes that falls to those the search goes on in is enough.
--   * src/containers/avltree.c -> Containers/Avl.antt (nodes, rotations, insertion, lookup), with
--     Avl/Traverse.antt, Avl/Serial.antt and Avl/Destroy.antt for the loops over all nodes. A node
--     is seen through the path from its parent up, which stands for the parent links. These loops
--     run on fuel: three rounds for each node, and two where the nodes are freed. A tree maps to
--     its sorted entries (Avl/Entries.antt), and an insertion to one there.
--   * src/containers/xdglist.c -> Containers/Links.antt: doubly linked lists on a store, in which
--     addresses are numbers and 0 is NULL. The walk that removes items takes as many rounds as the
--     list has items.
--   * src/desktop/xdgappcache.c -> Desktop/Cache.antt: the lists in a cache file, written from the store
--     of Containers/Links.antt and mapped into it again. The loop that writes takes one round more than
--     the list has items; the one that maps is bounded by the memory. Desktop/Cache/Keys.antt models
--     the keys of the trees, in the cells of Avl/Serial.antt.
-- Base.antt and its children hold the Boolean tests, the C strings, lists and sorting that the
-- parts share. A file name is looked up in the table of patterns first; where that leaves several
-- types or none, the caller passes the candidates and the first bytes of the file to the magic
-- rules.
--
-- Strings are lists of bytes without the final NUL. A read or a write out of bounds is the result
-- `none` of the functions that can have one. Memory is taken to be granted. Freeing is modelled for
-- the block of data that Mime/Database/Sniff.antt reads behind it and for the nodes of a tree in
-- Avl/Destroy.antt. `qsort`, `bsearch`, `fnmatch`, `atoi` and the files that `stat` finds are arguments, with
-- what the code relies on in the records `IsQsort` (Base/Sort.antt) and `IsBsearch`
-- (Base/Search.antt); so is the equality of MIME types where the magic rules call it.
--
-- Not modelled: the system calls behind the record `FileSystem` of paths, times and contents, and
-- the dumps to the standard output; in src/mime/xdgmime.c the branches that pass a call on to the
-- caches; in src/mime/xdgmimecache.c the reference count; in
-- src/containers/avltree.c delete_node, which leaves parent links that lead to other nodes than the
-- parent; in src/containers/xdglist.c xdg_list_swap and the joint lists; freeing the themes of
-- src/themes/xdgtheme.c; in src/desktop/xdgappcache.c the files themselves and the values that are
-- written as trees; src/desktop/xdgapp.c and src/menu.
pub mod Base
pub mod BaseDirectory
pub mod Containers
pub mod Desktop
pub mod Mime
pub mod Tests
pub mod Themes
