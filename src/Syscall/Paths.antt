-- ===== src/Syscall/Paths.antt =====
-- The calls of src/syscall.c on paths and on the attributes of files. A null string is `none`.
use mykernel.Base.{
  ℕ, ◌+◌, ◌-◌, ◌/◌, ◌||◌, Option, none, some, List, [], ◌∷◌, ◌++◌, ltb, ◌==◌, if◌then◌else◌, length,
  take, Memory, store_bytes, store_zeros, bytes16, bytes32,
}
use mykernel.Ramfs.Node.{
  Fs, FsResult, fs_ok, not_found, already_exists, not_a_directory, no_space, dir_not_empty,
}
use mykernel.Ramfs.Create.{fs_mkdir, fs_cd, fs_mv}
use mykernel.Ramfs.Content.{fs_read}
use mykernel.Ramfs.Remove.{fs_rm}
use mykernel.Ramfs.Listing.{fs_pwd}
use mykernel.Syscall.{
  Ret, ok, err, enoent, ebadf, efault, eexist, enotdir, einval, enospc, erange, enotempty, Kernel,
}
use mykernel.Syscall.Descriptors.{fd_at, bad_fd, is_console, is_ramfile}

abbrev pub in_fs : (FsResult → Ret) → FsResult × Fs → Kernel → Ret × Kernel
in_fs code t k = (code t.0, record k { fs = t.1 })

abbrev chdir_code : FsResult → Ret
chdir_code fs_ok = ok 0
chdir_code not_found = err enoent
chdir_code not_a_directory = err enotdir
chdir_code _ = err einval

unfoldable pub sys_chdir : Option (List ℕ) → Kernel → Ret × Kernel
sys_chdir none k = (err efault, k)
sys_chdir (some path) k = in_fs chdir_code (fs_cd path k.fs) k

abbrev mkdir_code : FsResult → Ret
mkdir_code fs_ok = ok 0
mkdir_code already_exists = err eexist
mkdir_code no_space = err enospc
mkdir_code _ = err einval

unfoldable pub sys_mkdir : Option (List ℕ) → Kernel → Ret × Kernel
sys_mkdir none k = (err efault, k)
sys_mkdir (some path) k = in_fs mkdir_code (fs_mkdir path k.fs) k

abbrev pub unlink_code : FsResult → Ret
unlink_code fs_ok = ok 0
unlink_code not_found = err enoent
unlink_code dir_not_empty = err enotempty
unlink_code _ = err einval

-- `none` is `none` of `fs_rm`.
unfoldable pub sys_unlink : Option (List ℕ) → Kernel → Option (Ret × Kernel)
sys_unlink none k = some (err efault, k)
sys_unlink (some path) k = elim (fs_rm path k.fs) [
  | none ↦ none
  | some t ↦ some (in_fs unlink_code t k)
]

abbrev rename_code : FsResult → Ret
rename_code fs_ok = ok 0
rename_code not_found = err enoent
rename_code _ = err einval

unfoldable pub sys_rename : (oldp newp : Option (List ℕ)) → Kernel → Ret × Kernel
sys_rename none newp k = (err efault, k)
sys_rename (some oldp) none k = (err efault, k)
sys_rename (some oldp) (some newp) k = in_fs rename_code (fs_mv oldp newp k.fs) k

-- the length of the file, if `fs_read` finds it
abbrev pub found : Option (List ℕ) → Fs → Option ℕ
found none s = none
found (some path) s = elim (fs_read path s).1 [ none ↦ none | some c ↦ some (length c) ]

unfoldable pub sys_access : Option (List ℕ) → Kernel → Ret × Kernel
sys_access none k = (err efault, k)
sys_access (some path) k = elim (found (some path) k.fs) [
  | none ↦ (err enoent, k)
  | some n ↦ (ok 0, k)
]

-- `tmp[128]` is copied as far as it fits.
unfoldable pub sys_getcwd : (buf size : ℕ) → Kernel → Ret × Kernel
sys_getcwd buf size k =
    if buf == 0 || size == 0
    then (err einval, k)
    else let tmp = fs_pwd 128 k.fs in
      let copied = take (size - 1) tmp in
      let k' = record k { mem = store_bytes buf (copied ++ 0 ∷ []) k.mem } in
      if ltb (length copied) (length tmp) then (err erange, k') else (ok (length copied + 1), k')

-- `sizeof(struct kernel_stat)`
abbrev pub stat_size : ℕ
stat_size = 72

-- `S_IFREG | S_IRUSR | S_IWUSR | S_IRGRP | S_IROTH`
abbrev pub stat_mode : ℕ
stat_mode = 0x81A4

unfoldable pub fill_stat_file : (st size : ℕ) → Memory → Memory
fill_stat_file st size m =
    let zeroed = store_zeros st stat_size m in
    let typed = store_bytes (st + 12) (bytes16 stat_mode ++ bytes16 1) zeroed in
    store_bytes (st + 28) (bytes32 size ++ (bytes32 512 ++ bytes32 ((size + 511) / 512))) typed

unfoldable pub sys_stat : Option (List ℕ) → (st : ℕ) → Kernel → Ret × Kernel
sys_stat none st k = (err efault, k)
sys_stat (some path) st k = if st == 0 then (err efault, k) else elim (found (some path) k.fs) [
  | none ↦ (err enoent, k)
  | some n ↦ (ok 0, record k { mem = fill_stat_file st n k.mem })
]

unfoldable pub sys_fstat : (fd st : ℕ) → Kernel → Ret × Kernel
sys_fstat fd st k =
    if st == 0
    then (err efault, k)
    else if bad_fd k.fds fd
    then (err ebadf, k)
    else if is_console (fd_at k.fds fd).type
    then (ok 0, record k { mem = fill_stat_file st 0 k.mem })
    else if is_ramfile (fd_at k.fds fd).type
    then (ok 0, record k { mem = fill_stat_file st (fd_at k.fds fd).len k.mem })
    else (err ebadf, k)
