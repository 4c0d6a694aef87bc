-- ===== src/Vfs/Root.antt =====
-- The root mount of src/vfs.c stays where `vfs_init` puts it.
use mykernel.Base.{
  ℕ, ◌+◌, ◌≤◌, ◌≡◌, ◌≢◌, ◌⊎◌, inl, inr, refl, sym, ap, ◌∙◌, Bool, true, false, ◌&&◌, not, some,
  List, [], ◌∷◌, arith, length, get_or, set, length-set, get_or-set_ne, Bool-cases, Option-cases,
}
use mykernel.Ramfs.Node.{
  FsResult, fs_ok, not_found, already_exists, no_space, invalid_name, Fs, slash, k_streq,
}
use mykernel.Ramfs.Table.{k_streq→eq, k_streq_refl}
use mykernel.Ramfs.Path.{fs_mkdir_p, is_absolute}
use mykernel.Vfs.{
  FsType, Mount, str_copy, mount_name_max, no_mount, root_mount, is_fat32, is_none, find_mount,
  mount_from, unused_from, mount_in, vfs_umount, vfs_mount,
}

-- four mounts, the first of them the RAM file system at "/"
abbrev pub HasRoot : List Mount → Type 0
HasRoot ms = (length ms ≡ 4) × (get_or ms 0 no_mount ≡ root_mount)

mount_from-le :
    (i : ℕ) (path : List ℕ) (ms : List Mount) (k : ℕ) → mount_from i path ms ≡ some k → i ≤ k
unfolding mount_from
mount_from-le i path [] k e = absurd (ground arith)
mount_from-le i path (m ∷ ms) k e = elim (Bool-cases (m.used && k_streq m.path path)) [
  | inl here ↦ ground arith
  | inr there ↦ ground (arith, mount_from-le (i + 1) path ms k)
]

unused_from-le : (i : ℕ) (ms : List Mount) (k : ℕ) → unused_from i ms ≡ some k → i ≤ k
unfolding unused_from
unused_from-le i [] k e = absurd (ground arith)
unused_from-le i (m ∷ ms) k e = elim (Bool-cases m.used) [
  | inl taken ↦ ground (arith, unused_from-le (i + 1) ms k)
  | inr here ↦ ground arith
]

-- Neither search stops at the root.
find_mount-positive :
    (path : List ℕ) (ms : List Mount) (k : ℕ)
    → HasRoot ms
    → k_streq path slash ≡ false
    → find_mount path ms ≡ some k
    → 1 ≤ k
unfolding find_mount mount_from
find_mount-positive path [] k r other e = absurd (ground arith)
find_mount-positive path (m ∷ ms) k r other e = elim (Bool-cases (k_streq m.path path)) [
  | inl same ↦
      let root : m.path ≡ slash = ap (λ x. x.path) r.1 in
      let here : path ≡ slash = sym (k_streq→eq m.path path same) ∙ root in
      let equal : k_streq path slash ≡ true = ap (λ x. k_streq x slash) here ∙ k_streq_refl slash in
      absurd (ground arith)
  | inr apart ↦ ground (arith, mount_from-le 1 path ms k)
]

unused_from-positive : (ms : List Mount) (k : ℕ) → HasRoot ms → unused_from 0 ms ≡ some k → 1 ≤ k
unfolding unused_from
unused_from-positive [] k r e = absurd (ground arith)
unused_from-positive (m ∷ ms) k r e =
    let used : m.used ≡ true = ap (λ x. x.used) r.1 in ground (arith, unused_from-le 1 ms k)

HasRoot-set : (ms : List Mount) (k : ℕ) (m : Mount) → HasRoot ms → 1 ≤ k → HasRoot (set ms k m)
HasRoot-set ms k m r pos =
    let away : k ≢ 0 = omega arith in
    (length-set ms k m ∙ r.0, get_or-set_ne ms k 0 m no_mount away ∙ r.1)

-- `vfs_umount` never takes the root mount out of the table, and its slot stays the first of four.
pub vfs_umount-HasRoot :
    (path : List ℕ) (ms : List Mount) → HasRoot ms → HasRoot (vfs_umount path ms).1
unfolding vfs_umount
vfs_umount-HasRoot path ms r = elim (Bool-cases (k_streq path slash)) [
  | inl root ↦ rw (root, vfs_umount) r
  | inr other ↦ elim (Option-cases (find_mount path ms)) [
    | inr e ↦ rw (other, e, vfs_umount) r
    | inl (k, e) ↦
        rw (other, e, vfs_umount)
          (HasRoot-set ms k no_mount r (find_mount-positive path ms k r other e))
  ]
]

abbrev pub entry : List ℕ → FsType → Mount
entry path type = record { used = true; path = str_copy path mount_name_max; type = type }

-- What `vfs_mount` leaves behind: nothing has changed, or the mount is new, in a slot that is not
-- the first.
abbrev pub MountOutcome :
    List ℕ → FsType → (r : FsResult) → (ms ms' : List Mount) → (fs fs' : Fs) → Type 0
MountOutcome path type r ms ms' fs fs' =
    ((ms' ≡ ms) × (fs' ≡ fs))
    ⊎ ((r ≡ fs_ok)
        × ((k : ℕ) × (1 ≤ k) × (unused_from 0 ms ≡ some k) × (ms' ≡ set ms k (entry path type))))

filled :
    (path : List ℕ) (type : FsType) (ms : List Mount) (fs : Fs) (k : ℕ) (q : FsResult) (fs₁ : Fs)
    → fs_mkdir_p path fs ≡ some (q, fs₁)
    → (fs' : Fs) × (mount_in k path type ms fs ≡ some (set ms k (entry path type), fs'))
unfolding mount_in
filled path type ms fs k q fs₁ made = elim (Bool-cases (is_fat32 type)) [
  | inl fat ↦ (fs₁, rw (fat, made, mount_in))
  | inr ram ↦ (fs, rw (ram, mount_in))
]

-- Where `fs_mkdir_p` stays in its arrays, `vfs_mount` returns, keeps the root mount, and either
-- changes neither the table nor the RAM file system or has written the mount into a slot that was
-- not used and is not the first.
pub vfs_mount-MountOutcome :
    (ready : Bool) (path : List ℕ) (type : FsType) (ms : List Mount) (fs : Fs) (q : FsResult)
    (fs₁ : Fs)
    → HasRoot ms
    → fs_mkdir_p path fs ≡ some (q, fs₁)
    → (r : FsResult) × (ms' : List Mount) × (fs' : Fs) × (vfs_mount ready path type ms fs
        ≡ some (r, ms', fs'))
      × HasRoot ms'
      × MountOutcome path type r ms ms' fs fs'
unfolding vfs_mount
vfs_mount-MountOutcome ready path type ms fs q fs₁ root made =
    elim (Bool-cases (is_absolute path)) [
      | inr a ↦ (invalid_name, ms, fs, rw (a, vfs_mount), root, inl (refl, refl))
      | inl a ↦ elim (Bool-cases (is_none type)) [
        | inl b ↦ (invalid_name, ms, fs, rw (a, b, vfs_mount), root, inl (refl, refl))
        | inr b ↦ elim (Bool-cases (k_streq path slash)) [
          | inl c ↦ (already_exists, ms, fs, rw (a, b, c, vfs_mount), root, inl (refl, refl))
          | inr c ↦ elim (Option-cases (find_mount path ms)) [
            | inl (i, d) ↦
                (already_exists, ms, fs, rw (a, b, c, d, vfs_mount), root, inl (refl, refl))
            | inr d ↦ elim (Bool-cases (is_fat32 type && not ready)) [
              | inl e ↦ (not_found, ms, fs, rw (a, b, c, d, e, vfs_mount), root, inl (refl, refl))
              | inr e ↦ elim (Option-cases (unused_from 0 ms)) [
                | inr f ↦
                    (no_space, ms, fs, rw (a, b, c, d, e, f, vfs_mount), root, inl (refl, refl))
                | inl (k, f) ↦
                    let (fs', g) = filled path type ms fs k q fs₁ made in
                    let pos = unused_from-positive ms k root f in
                    (
                      fs_ok,
                      set ms k (entry path type),
                      fs',
                      rw (a, b, c, d, e, f, g, vfs_mount),
                      HasRoot-set ms k (entry path type) root pos,
                      inr (refl, (k, pos, f, refl)),
                    )
              ]
            ]
          ]
        ]
      ]
    ]
