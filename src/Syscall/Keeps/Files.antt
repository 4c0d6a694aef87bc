-- ===== src/Syscall/Keeps/Files.antt =====
-- The calls of src/syscall.c on the file system keep the invariant.
use mykernel.Base.{
  ℕ, ◌<◌, ◌≡◌, inl, inr, refl, sym, Bool, not, Option, none, some, List, [], arith, length,
  Bool-cases, Option-cases,
}
use mathlib.Core.Path.{subst}
use mykernel.Ramfs.Node.{
  Fs, FsResult, fs_ok, not_found, already_exists, invalid_name, dir_not_empty, file_max, find_child,
  is_empty,
}
use mykernel.Ramfs.Create.{as_dir, fs_mkdir, fs_touch, fs_mv, fs_cd}
use mykernel.Ramfs.Content.{fs_read, fs_write, fs_write_bin}
use mykernel.Ramfs.Tree
use mykernel.Ramfs.Grow.{Outcome-IsValid, fs_mkdir-Outcome, fs_touch-Outcome}
use mykernel.Ramfs.Rename.{MvOutcome, fs_mv-MvOutcome, fs_cd-IsValid}
use mykernel.Ramfs.ReadWrite.{Updated, fs_write_bin-Updated}
use mykernel.Ramfs.Erase.{RmOutcome, fs_rm-RmOutcome}
use mykernel.Syscall.{Ret, Kernel, has_flag}
use mykernel.Syscall.Descriptors.{
  fd_alloc, open_fd, open_found, open_created, create_file, sys_open, is_ok,
}
use mykernel.Syscall.Paths.{sys_chdir, sys_mkdir, sys_unlink, sys_rename, unlink_code}
use mykernel.Syscall.Safe.{IsSafe, IsSafe-set, Bounded}
use mykernel.Syscall.Keeps.{Safe, to_Safe, if-Safe}
use mykernel.Syscall.Keeps.Sizes.{
  touch-Bounded, fs_write-Bounded, fs_mv-Bounded, add_node-Bounded, Removed-Bounded,
}

-- The file system may be replaced by one that is valid too.
IsSafe-fs :
    (k : Kernel) (s : Fs)
    → IsSafe k
    → Tree.IsValid s
    → Bounded s.nodes
    → IsSafe (record k { fs = s })
IsSafe-fs k s v t b = record {
  size = v.size;
  offsets = v.offsets;
  lengths = v.lengths;
  brk = v.brk;
  arena = v.arena;
  tree = t;
  small = b;
  tasks = v.tasks;
}

module _ (k : Kernel) (v : IsSafe k) where
  pub sys_chdir-IsSafe :
      {own : ℕ → Bool} (path : Option (List ℕ)) → Safe own k.mem (sys_chdir path k)
  unfolding sys_chdir
  sys_chdir-IsSafe none = to_Safe v
  sys_chdir-IsSafe (some path) =
      let (same, valid) = fs_cd-IsValid path k.fs v.tree in
      to_Safe (IsSafe-fs k (fs_cd path k.fs).1 v valid (rw same v.small))

  pub sys_mkdir-IsSafe :
      {own : ℕ → Bool} (path : Option (List ℕ)) → Safe own k.mem (sys_mkdir path k)
  unfolding sys_mkdir fs_mkdir
  sys_mkdir-IsSafe none = to_Safe v
  sys_mkdir-IsSafe (some path) =
      let s' = (fs_mkdir path k.fs).1 in
      to_Safe (
        IsSafe-fs k s' v
          (Outcome-IsValid path _ k.fs (fs_mkdir path k.fs).0 s' v.tree
            (fs_mkdir-Outcome path k.fs v.tree))
          (add_node-Bounded (as_dir k.fs.cwd path) path k.fs v.small (λ n h. h)).small)

  mv-IsValid :
      (src dst : List ℕ) (r : FsResult) (s' : Fs) → MvOutcome src dst k.fs r s' → Tree.IsValid s'
  mv-IsValid src dst fs_ok s' m = m.valid
  mv-IsValid src dst not_found s' m = subst Tree.IsValid (sym m.1) v.tree
  mv-IsValid src dst invalid_name s' m = subst Tree.IsValid (sym m.1) v.tree
  mv-IsValid src dst already_exists s' m = subst Tree.IsValid (sym m.1) v.tree
  mv-IsValid src dst _ s' m = absurd m

  pub sys_rename-IsSafe :
      {own : ℕ → Bool} (oldp newp : Option (List ℕ)) → Safe own k.mem (sys_rename oldp newp k)
  unfolding sys_rename
  sys_rename-IsSafe none newp = to_Safe v
  sys_rename-IsSafe (some oldp) none = to_Safe v
  sys_rename-IsSafe (some oldp) (some newp) =
      let t = fs_mv oldp newp k.fs in
      to_Safe (
        IsSafe-fs k t.1 v (mv-IsValid oldp newp t.0 t.1 (fs_mv-MvOutcome oldp newp k.fs v.tree))
          (fs_mv-Bounded oldp newp k.fs v.small).small)

  after_rm :
      (name : List ℕ) (r : FsResult) (s' : Fs)
      → RmOutcome name k.fs r s'
      → IsSafe (record k { fs = s' })
  after_rm name fs_ok s' (i, e, d) = IsSafe-fs k s' v d.valid (Removed-Bounded i k.fs s' d v.small)
  after_rm name not_found s' m =
      IsSafe-fs k s' v (subst Tree.IsValid (sym m.1) v.tree) (rw m.1 v.small)
  after_rm name invalid_name s' m =
      IsSafe-fs k s' v (subst Tree.IsValid (sym m.1) v.tree) (rw m.1 v.small)
  after_rm name dir_not_empty s' (i, j, e, l, p, same) =
      IsSafe-fs k s' v (subst Tree.IsValid (sym same) v.tree) (rw same v.small)
  after_rm name _ s' m = absurd m

  -- The removal always returns.
  pub sys_unlink-IsSafe :
      {own : ℕ → Bool} (path : Option (List ℕ))
      → (t : Ret × Kernel) × (sys_unlink path k ≡ some t) × Safe own k.mem t
  unfolding sys_unlink
  sys_unlink-IsSafe none = ((_, k), refl, to_Safe v)
  sys_unlink-IsSafe (some path) =
      let (r, s', e, out, _) = fs_rm-RmOutcome path k.fs v.tree in
      ((unlink_code r, record k { fs = s' }), rw (e, sys_unlink), to_Safe (after_rm path r s' out))

  open_fd-IsSafe :
      {own : ℕ → Bool} (path : List ℕ) (flags len : ℕ)
      → len < file_max
      → Safe own k.mem (open_fd path flags len k)
  unfolding open_fd
  open_fd-IsSafe path flags len h = elim (Option-cases (fd_alloc k.fds)) [
    | inr full ↦ rw (full, open_fd) (to_Safe v)
    | inl (fd, e) ↦ rw (e, open_fd) (to_Safe (IsSafe-set k fd _ k.mem v (ground arith)))
  ]

-- What `fs_read` gives is short.
read-small :
    (path c : List ℕ) (s : Fs) → Bounded s.nodes → (fs_read path s).1 ≡ some c → length c < file_max
unfolding fs_read
read-small path c s b e = elim (Option-cases (find_child s.cwd path s.nodes)) [
  | inr f ↦ absurd (ground arith)
  | inl (i, f) ↦ ground (arith, b i)
]

-- a file system that is valid and has no long file
abbrev GoodFs : Fs → Type 0
GoodFs s = Tree.IsValid s × Bounded s.nodes

touch-GoodFs : (path : List ℕ) (s : Fs) → GoodFs s → GoodFs (fs_touch path s).1
touch-GoodFs path s (t, b) = (
  Outcome-IsValid path _ s (fs_touch path s).0 (fs_touch path s).1 t (fs_touch-Outcome path s t),
  (touch-Bounded path s b).small,
)

updated-IsValid :
    (f : List ℕ → List ℕ) (path : List ℕ) (s : Fs) (r : FsResult) (s' : Fs)
    → Tree.IsValid s
    → Updated f path s r s'
    → Tree.IsValid s'
updated-IsValid f path s fs_ok s' t (reads, cwd, valid) = valid
updated-IsValid f path s _ s' t same = subst Tree.IsValid (sym same) t

write-GoodFs : (path : List ℕ) (s : Fs) → GoodFs s → GoodFs (fs_write path [] s).1
unfolding fs_write
write-GoodFs path s (t, b) = (
  updated-IsValid (λ old. []) path s (fs_write_bin path [] s).0 (fs_write_bin path [] s).1 t
      ((fs_write_bin-Updated path [] s t).1 (omega arith)),
  (fs_write-Bounded path s b).small,
)

create_file-GoodFs : (path : List ℕ) (s : Fs) → GoodFs s → GoodFs (create_file path s).1
unfolding create_file
create_file-GoodFs path s g =
    let g' = touch-GoodFs path s g in
    elim (Bool-cases (is_ok (fs_touch path s).0)) [
      | inl made ↦ rw (made, create_file) g'
      | inr not_made ↦ rw (not_made, create_file) (write-GoodFs path (fs_touch path s).1 g')
    ]

open_found-IsSafe :
    {own : ℕ → Bool} (path : List ℕ) (flags : ℕ) (k : Kernel)
    → IsSafe k
    → Safe own k.mem (open_found path flags (fs_read path k.fs).1 k)
unfolding open_found
open_found-IsSafe path flags k v = elim (Option-cases (fs_read path k.fs).1) [
  | inr e ↦ rw (e, open_found) (to_Safe v)
  | inl (c, e) ↦
      rw (e, open_found)
        (open_fd-IsSafe k v path flags (length c) (read-small path c k.fs v.small e))
]

pub sys_open-IsSafe :
    {own : ℕ → Bool} (path : Option (List ℕ)) (flags : ℕ) (k : Kernel)
    → IsSafe k
    → Safe own k.mem (sys_open path flags k)
unfolding sys_open open_created
sys_open-IsSafe none flags k v = to_Safe v
sys_open-IsSafe {own} (some path) flags k v =
    let made = create_file path k.fs in
    let (t, b) = create_file-GoodFs path k.fs (v.tree, v.small) in
    let k' = record k { fs = made.1 } in
    let w : IsSafe k' = IsSafe-fs k made.1 v t b in
    if-Safe (is_empty path) (to_Safe v) (elim (Option-cases (fs_read path k.fs).1) [
      | inl (c, e) ↦ rw e (
          subst (λ o. Safe own k.mem (open_found path flags o k)) e
            (open_found-IsSafe path flags k v))
      | inr e ↦ rw e (
          if-Safe (has_flag 6 flags)
            (if-Safe (not made.0) (to_Safe w) (open_found-IsSafe path flags k' w)) (to_Safe v))
    ])
