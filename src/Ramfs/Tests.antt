-- ===== src/Ramfs/Tests.antt =====
-- Runs of src/fs.c on a small tree, and its theorems there.
use mykernel.Base.{
  ℕ, ◌<◌, ◌≤◌, ◌≡◌, refl, some, List, [], ◌∷◌, ◌++◌, arith, if◌then◌else◌, replicate, ltb, length,
}
use mykernel.Ramfs.Node.{
  Fs, FsResult, fs_ok, too_big, blank, find_child, file_max, is_valid_name, k_streq, is_child,
  find_from, alloc_node, alloc_from,
}
use mykernel.Ramfs.Create.{
  fs_mkdir, fs_touch, fs_cd, fs_init, bare_root, lib, bin, usr, add_node, parent_or,
}
use mykernel.Ramfs.Content.{fs_write_bin, fs_append}
use mykernel.Ramfs.Tree.{IsTree, IsValid, Live}
use mykernel.Ramfs.ReadWrite.{Updated, contents, fs_write_bin-Updated, fs_append-Updated}
use mykernel.Ramfs.Content.{update_content, after_touch, put_content}
use mathlib.Core.Path.{subst}
use mykernel.Ramfs.Init.{fs_init-IsValid}
use mykernel.Ramfs.Remove.{fs_rm_subtree, fs_rm_rf}
use mykernel.Ramfs.Erase.{Removed, RmOutcome, fs_rm_subtree-Removed, fs_rm_rf-RmOutcome}
use mykernel.Ramfs.Path.{relative, fs_mkdir_p, components, components_from}
use mykernel.Ramfs.Deep.{Fit, fs_mkdir_p-Ends}

abbrev table : Fs
table = record { nodes = replicate 256 blank; cwd = 7 }

-- `fs_init` makes lib, bin, usr and usr/lib, and ends in the root.
init_names :
    (find_child 0 lib (fs_init table).nodes ≡ some 1)
    × (find_child 0 bin (fs_init table).nodes ≡ some 2)
    × (find_child 0 usr (fs_init table).nodes ≡ some 3)
    × (find_child 3 lib (fs_init table).nodes ≡ some 4)
    × ((fs_init table).cwd ≡ 0)
unfolding fs_init fs_mkdir fs_cd add_node is_valid_name k_streq is_child find_from find_child
    alloc_node alloc_from bare_root parent_or
init_names = (refl, refl, refl, refl, refl)

-- the state behind `fs_init`
abbrev start : Fs
start = fs_init table

start-IsValid : IsValid start
start-IsValid = fs_init-IsValid table refl

abbrev notes : List ℕ
notes = b'n' ∷ b'o' ∷ b't' ∷ b'e' ∷ b's' ∷ []

abbrev hello : List ℕ
hello = b'h' ∷ b'e' ∷ b'l' ∷ b'l' ∷ b'o' ∷ []

-- a plain file beside the directories
abbrev written : Fs
written = (fs_write_bin notes hello start).1

went_well : (fs_write_bin notes hello start).0 ≡ fs_ok
unfolding fs_init fs_mkdir fs_cd add_node is_valid_name k_streq is_child find_from find_child
    alloc_node alloc_from bare_root parent_or fs_write_bin update_content after_touch put_content
    fs_touch
went_well = refl

hello_read : contents notes written ≡ hello
unfolding fs_init fs_mkdir fs_cd add_node is_valid_name k_streq is_child find_from find_child
    alloc_node alloc_from bare_root parent_or fs_write_bin update_content after_touch put_content
    fs_touch
hello_read = refl

usr-Live : Live start.nodes 3
unfolding fs_init fs_mkdir fs_cd add_node is_valid_name k_streq is_child find_from find_child
    alloc_node alloc_from bare_root parent_or fs_write_bin update_content after_touch put_content
    fs_touch
usr-Live = refl

abbrev deep_path : List ℕ
deep_path = b'/' ∷ b'u' ∷ b's' ∷ b'r' ∷ b'/' ∷ b'n' ∷ []

deep-Fit : Fit (components (relative deep_path))
unfolding components components_from
deep-Fit = (omega arith, (omega arith, tt))

written-IsValid : IsValid written
written-IsValid =
    (subst (λ r. Updated (λ old. hello) notes start r written) went_well
      ((fs_write_bin-Updated notes hello start start-IsValid).1 (omega arith))).2

fs_write_bin-Updated_example :
    (file_max ≤ length hello → fs_write_bin notes hello start ≡ (too_big, start))
    × (length hello < file_max
        → Updated
            (λ old. hello)
            notes
            start
            (fs_write_bin notes hello start).0
            (fs_write_bin notes hello start).1)
fs_write_bin-Updated_example = fs_write_bin-Updated notes hello start start-IsValid

fs_append-Updated_example :
    Updated
      (λ old.
        if ltb 0 (length (contents notes written))
        then contents notes written ++ (b'\n' ∷ hello)
        else hello)
      notes
      written
      (fs_append notes hello written).0
      (fs_append notes hello written).1
fs_append-Updated_example =
    fs_append-Updated notes hello written written-IsValid (rw hello_read (omega arith))

fs_rm_subtree-Removed_example :
    (s' : Fs) × (fs_rm_subtree 3 start ≡ some (fs_ok, s')) × Removed 3 start s'
fs_rm_subtree-Removed_example = fs_rm_subtree-Removed 3 start start-IsValid usr-Live (ground arith)

fs_rm_rf-RmOutcome_example :
    (r : FsResult) × (s' : Fs) × (fs_rm_rf usr start ≡ some (r, s')) × RmOutcome usr start r s'
fs_rm_rf-RmOutcome_example = fs_rm_rf-RmOutcome usr start start-IsValid

fs_mkdir_p-Ends_example :
    (r : FsResult) × (s' : Fs) × (fs_mkdir_p deep_path start ≡ some (r, s'))
    × IsTree s'.nodes
    × (s'.cwd ≡ start.cwd)
fs_mkdir_p-Ends_example = fs_mkdir_p-Ends deep_path start start-IsValid deep-Fit
