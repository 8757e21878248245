-- ===== src/Tests/Archive.antt =====
-- Runs of kernel/fs/initrd.c: an archive with a directory and a file in it.
use zeros_i.Base.{◌≡◌, refl, false, none, some, [], ◌∷◌, arith}
use zeros_i.Str.{cstr, kstrcmp, kstrlen, kstrncpy, kstrncpy_from}
use zeros_i.Vfs.{
  Vfs, vfs_lookup, vfs_normalize, parts_from, skip_slashes, take_part, push_part, join_from, walk,
  find_child, child_from,
}
use zeros_i.Vfs.Tree.{
  empty_tree, mkdir_here, make_at, add_node, place_in, ensure_parent, free_node, last_slash,
}
use zeros_i.Vfs.Calls.{Fat, vfs_init, vfs_mkdir, vfs_exists}
use zeros_i.Initrd.{Entry, entry_at, initrd_unpack, pack}
use zeros_i.Initrd.RoundTrip.{AllReady, place_all, unpack-pack}
use zeros_i.Initrd.Stall.{stalling, initrd_unpack-stalling}
use zeros_i.Tests.Processes.{machine}
use zeros_i.Tests.Spawning.{one_program}

-- No path is on the drive.
abbrev no_drive : Fat (Unit {0})
no_drive = record one_program { fat_is_path = λ d path. false }

abbrev tree : Vfs × Unit {0}
tree = (empty_tree machine.mm, tt)

abbrev directory : Entry
directory = record { path = b'/' ∷ b'b' ∷ []; content = none }

abbrev file : Entry
file = record { path = b'/' ∷ b'b' ∷ b'/' ∷ b'a' ∷ []; content = some (1 ∷ 2 ∷ 3 ∷ []) }

file_read : entry_at (pack (file ∷ [])) 0 ≡ some (file, 15)
unfolding entry_at pack cstr
file_read = refl

-- "/sys" and "/disk" are there.
abbrev made : Vfs × Unit {0}
made = vfs_init no_drive machine.mm tt

directory_first : AllReady no_drive (directory ∷ file ∷ []) made
unfolding vfs_init vfs_mkdir vfs_exists vfs_lookup kstrcmp kstrlen vfs_normalize parts_from
    skip_slashes take_part push_part join_from walk find_child child_from mkdir_here make_at
    add_node place_in ensure_parent free_node last_slash empty_tree kstrncpy kstrncpy_from cstr
directory_first = (
  tt,
  (
    (
      b'/' ∷ b's' ∷ b'y' ∷ b's' ∷ b'/' ∷ b'b' ∷ [],
      record { base = b'a' ∷ []; split = refl; last = (refl, tt); some_dir = omega arith },
      refl,
    ),
    tt,
  ),
)

unpack-pack_example :
    initrd_unpack no_drive 3 (pack (directory ∷ file ∷ [])) made
    ≡ some (place_all no_drive (directory ∷ file ∷ []) made)
unfolding pack
unpack-pack_example =
    unpack-pack no_drive (directory ∷ file ∷ []) 3 made
      (
        ((omega arith, omega arith, (omega arith, omega arith, tt)), (refl, omega arith)),
        (
          (
            (
              omega arith,
              omega arith,
              (
                omega arith,
                omega arith,
                (omega arith, omega arith, (omega arith, omega arith, tt)),
              ),
            ),
            (refl, omega arith),
          ),
          tt,
        ),
      )
      directory_first (omega arith) (omega arith)

initrd_unpack-stalling_example :
    initrd_unpack no_drive 1000 (stalling directory.path (1 ∷ 2 ∷ [])) tree ≡ none
initrd_unpack-stalling_example =
    initrd_unpack-stalling no_drive directory.path (1 ∷ 2 ∷ []) 1000 tree
      ((omega arith, omega arith, (omega arith, omega arith, tt)), omega arith, omega arith)
      (omega arith)
