-- ===== src/Vfs/Tests.antt =====
-- Runs of src/vfs.c, and its theorems there.
use mykernel.Base.{ℕ, ◌≡◌, ◌≢◌, ◌⊎◌, refl, true, some, List, [], ◌∷◌, replicate, arith}
use mykernel.Ramfs.Node.{fs_ok, Fs, blank, k_streq}
use mykernel.Ramfs.Path.{
  fs_mkdir_p, mkdir_all, enter_component, enter_named, components, components_from,
}
use mykernel.Vfs.{
  mount_in, find_mount, mount_from, unused_from, fs_ram, fs_fat32, Mount, no_mount, root_mount,
  vfs_init, vfs_mount, vfs_resolve, owns, resolve_to, best_from, better, is_prefix, at_boundary,
}
use mykernel.Vfs.Longest.{Among, Longest, Answer, vfs_resolve-Longest}
use mykernel.Vfs.Owns.{Owns, Given}
use mykernel.Vfs.Root.{entry}

abbrev mnt : List ℕ
mnt = b'/' ∷ b'm' ∷ b'n' ∷ b't' ∷ []

abbrev mounts : List Mount
mounts = root_mount ∷ record { used = true; path = mnt; type = fs_fat32 } ∷ no_mount ∷ no_mount ∷ []

abbrev ram : Fs
ram = record { nodes = replicate 256 blank; cwd = 0 }

-- a file below the mount point
abbrev below : List ℕ
below = b'/' ∷ b'm' ∷ b'n' ∷ b't' ∷ b'/' ∷ b'a' ∷ []

resolve_run : vfs_resolve below 64 mounts ≡ (fs_fat32, some (b'a' ∷ []))
unfolding vfs_resolve resolve_to best_from better owns is_prefix at_boundary
resolve_run = refl

-- a name that only begins like the mount point
resolve_beside :
    vfs_resolve (b'/' ∷ b'm' ∷ b'n' ∷ b't' ∷ b'2' ∷ []) 64 mounts
    ≡ (fs_ram, some (b'm' ∷ b'n' ∷ b't' ∷ b'2' ∷ []))
unfolding vfs_resolve resolve_to best_from better owns is_prefix at_boundary
resolve_beside = refl

init_run : vfs_init (replicate 4 no_mount) ≡ root_mount ∷ no_mount ∷ no_mount ∷ no_mount ∷ []
unfolding vfs_init
init_run = refl

vfs_resolve-Longest_example :
    ((b : Mount) × Among b mounts
      × Longest below b mounts
      × Answer below 64 b (vfs_resolve below 64 mounts))
    ⊎ (((m : Mount) → Among m mounts → ¬ Owns below m)
        × ((vfs_resolve below 64 mounts).0 ≡ fs_ram)
        × Given 64 below (vfs_resolve below 64 mounts).1)
vfs_resolve-Longest_example = vfs_resolve-Longest below 64 mounts not_empty
  where
    not_empty : below ≢ []
    not_empty e = ground (arith, e)

abbrev double : List ℕ
double = b'/' ∷ b'/' ∷ []

-- a mount that succeeds
mount_run :
    vfs_mount true double fs_ram mounts ram
    ≡ some (
      fs_ok,
      root_mount
          ∷ record { used = true; path = mnt; type = fs_fat32 }
          ∷ entry double fs_ram
          ∷ no_mount
          ∷ [],
      ram,
    )
unfolding vfs_mount mount_in find_mount mount_from unused_from k_streq
mount_run = refl

made : fs_mkdir_p double ram ≡ some (fs_ok, ram)
unfolding fs_mkdir_p mkdir_all enter_component enter_named components components_from
made = refl
