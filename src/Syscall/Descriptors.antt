-- ===== src/Syscall/Descriptors.antt =====
-- The table of file descriptors of src/syscall.c and the calls on it.
use mykernel.Base.{
  ℕ, zero, suc, ◌+◌, ◌-◌, ◌%◌, ◌^◌, Bool, true, false, ◌&&◌, ◌||◌, not, Option, none, some, List,
  [], ◌∷◌, ◌++◌, ltb, leb, ◌==◌, u32, if◌then◌else◌, length, get_or, set, take, map, store_bytes,
  load_bytes, load32,
}
use mykernel.Ramfs.Node.{Fs, FsResult, fs_ok, node_at, find_child, is_empty}
use mykernel.Ramfs.Create.{fs_touch}
use mykernel.Ramfs.Content.{fs_read, fs_write}
use mykernel.Syscall.{
  Ret, ok, err, enoent, ebadf, efault, einval, emfile, espipe, FdType, fd_none, fd_console,
  fd_ramfile, FdEntry, fd_max, no_entry, Kernel, is_negative, has_flag,
}

abbrev pub fd_at : List FdEntry → ℕ → FdEntry
fd_at fds fd = get_or fds fd no_entry

abbrev pub is_console : FdType → Bool
is_console fd_console = true
is_console _ = false

abbrev pub is_ramfile : FdType → Bool
is_ramfile fd_ramfile = true
is_ramfile _ = false

-- `fd < 0 || fd >= FD_MAX || !fds[fd].used`
abbrev pub bad_fd : List FdEntry → ℕ → Bool
bad_fd fds fd = is_negative fd || leb fd_max fd || not (fd_at fds fd).used

abbrev cleared_fd : FdEntry → FdEntry
cleared_fd f = record {
  used = false;
  type = fd_none;
  data_node = none;
  len = 0;
  pos = 0;
  writable = false;
  name = [];
}

abbrev standard : Bool → FdEntry → FdEntry
standard writable f = record f { used = true; type = fd_console; writable = writable }

unfoldable pub fd_table_reset : Kernel → Kernel
fd_table_reset k =
    let fds = map cleared_fd k.fds in
    let fds₀ = set fds 0 (standard false (fd_at fds 0)) in
    let fds₁ = set fds₀ 1 (standard true (fd_at fds₀ 1)) in
    record k { fds = set fds₁ 2 (standard true (fd_at fds₁ 2)) }

-- the search from the index `i` on, `n` rounds left
unfoldable pub fd_from : (n i : ℕ) → List FdEntry → Option ℕ
fd_from zero i fds = none
fd_from (suc n) i fds =
    let rest = fd_from n (i + 1) fds in if not (fd_at fds i).used then some i else rest

-- -EMFILE is `none`.
unfoldable pub fd_alloc : List FdEntry → Option ℕ
fd_alloc fds = fd_from 29 3 fds

-- The `count` bytes at `buf` go to the terminal.
unfoldable pub sys_write : (fd buf count : ℕ) → Kernel → Ret × Kernel
sys_write fd buf count k =
    if is_negative count
    then (err einval, k)
    else if buf == 0
    then (err efault, k)
    else if bad_fd k.fds fd
    then (err ebadf, k)
    else if is_console (fd_at k.fds fd).type
    then (ok count, record k { console = k.console ++ load_bytes count buf k.mem })
    else (err ebadf, k)

-- The byte `j` of the buffer of a node. `stale` is what stands behind the end of its content.
abbrev pub content_byte : (stale : ℕ → ℕ → ℕ) → Fs → Option ℕ → ℕ → ℕ
content_byte stale s none j = 0
content_byte stale s (some i) j =
    let c = (node_at s.nodes i).content in if ltb j (length c) then get_or c j 0 else stale i j

-- the bytes from `pos` on
unfoldable pub content_bytes : (stale : ℕ → ℕ → ℕ) → Fs → Option ℕ → (n pos : ℕ) → List ℕ
content_bytes stale s source zero pos = []
content_bytes stale s source (suc n) pos =
    content_byte stale s source pos ∷ content_bytes stale s source n (pos + 1)

-- From `size_t left` on.
unfoldable pub read_ramfile :
    (stale : ℕ → ℕ → ℕ) → (fd buf count : ℕ) → FdEntry → Kernel → Ret × Kernel
read_ramfile stale fd buf count f k =
    let left = u32 (f.len + 2 ^ 32 - f.pos) in
    let n = if ltb left count then left else count in
    (
      ok n,
      record k {
        mem = store_bytes buf (content_bytes stale k.fs f.data_node n f.pos) k.mem;
        fds = set k.fds fd (record f { pos = u32 (f.pos + n) });
      },
    )

unfoldable pub sys_read : (stale : ℕ → ℕ → ℕ) → (fd buf count : ℕ) → Kernel → Ret × Kernel
sys_read stale fd buf count k =
    if is_negative count
    then (err einval, k)
    else if buf == 0
    then (err efault, k)
    else if bad_fd k.fds fd
    then (err ebadf, k)
    else if is_console (fd_at k.fds fd).type
    then (ok 0, k)
    else if is_ramfile (fd_at k.fds fd).type
    then read_ramfile stale fd buf count (fd_at k.fds fd) k
    else (err ebadf, k)

-- `name_copy` into `name[48]`
abbrev pub name_copy : List ℕ → List ℕ
name_copy s = take 47 s

-- From `fd_alloc()` on: the content was found.
unfoldable pub open_fd : (path : List ℕ) → (flags len : ℕ) → Kernel → Ret × Kernel
open_fd path flags len k = elim (fd_alloc k.fds) [
  | none ↦ (err emfile, k)
  | some fd ↦ (
    ok fd,
    record k {
      fds = set k.fds fd (record {
        used = true;
        type = fd_ramfile;
        data_node = find_child k.fs.cwd path k.fs.nodes;
        len = len;
        pos = if has_flag 10 flags then len else 0;
        writable = not (flags % 4 == 0);
        name = name_copy path;
      });
    },
  )
]

abbrev pub is_ok : FsResult → Bool
is_ok fs_ok = true
is_ok _ = false

-- `fs_touch`, and `fs_write` of nothing if that fails: whether one of them went well
unfoldable pub create_file : List ℕ → Fs → Bool × Fs
create_file path s =
    let t = fs_touch path s in
    if is_ok t.0 then (true, t.1) else let w = fs_write path [] t.1 in (is_ok w.0, w.1)

-- From the first `fs_read` on, which has found the content or not.
unfoldable pub open_found : List ℕ → (flags : ℕ) → Option (List ℕ) → Kernel → Ret × Kernel
open_found path flags none k = (err enoent, k)
open_found path flags (some content) k = open_fd path flags (length content) k

unfoldable pub open_created : List ℕ → (flags : ℕ) → Bool × Fs → Kernel → Ret × Kernel
open_created path flags (made, s) k =
    let k' = record k { fs = s } in
    if not made then (err enoent, k') else open_found path flags (fs_read path s).1 k'

-- A null path is `none`.
unfoldable pub sys_open : Option (List ℕ) → (flags : ℕ) → Kernel → Ret × Kernel
sys_open none flags k = (err enoent, k)
sys_open (some path) flags k =
    if is_empty path then (err enoent, k) else elim (fs_read path k.fs).1 [
      | some content ↦ open_found path flags (some content) k
      | none ↦
          if has_flag 6 flags
          then open_created path flags (create_file path k.fs) k
          else (err enoent, k)
    ]

unfoldable pub sys_close : ℕ → Kernel → Ret × Kernel
sys_close fd k =
    if is_negative fd || ltb fd 3 || leb fd_max fd || not (fd_at k.fds fd).used
    then (err ebadf, k)
    else (
      ok 0,
      record k { fds = set k.fds fd (record (fd_at k.fds fd) { used = false; type = fd_none }) },
    )

-- `base` of `sys_lseek`
unfoldable pub seek_base : (whence : ℕ) → FdEntry → Option ℕ
seek_base whence f =
    if whence == 0
    then some 0
    else if whence == 1
    then some f.pos
    else if whence == 2
    then some f.len
    else none

unfoldable pub sys_lseek : (fd offset whence : ℕ) → Kernel → Ret × Kernel
sys_lseek fd offset whence k =
    if bad_fd k.fds fd
    then (err ebadf, k)
    else let f = fd_at k.fds fd in
      if not (is_ramfile f.type) then (err espipe, k) else elim (seek_base whence f) [
        | none ↦ (err einval, k)
        | some base ↦
            let neu = u32 (base + offset) in
            if is_negative neu
            then (err einval, k)
            else let at = if ltb f.len neu then f.len else neu in
              (ok at, record k { fds = set k.fds fd (record f { pos = at }) })
      ]

unfoldable pub sys_dup : ℕ → Kernel → Ret × Kernel
sys_dup fd k = if bad_fd k.fds fd then (err ebadf, k) else elim (fd_alloc k.fds) [
  | none ↦ (err emfile, k)
  | some n ↦ (ok n, record k { fds = set k.fds n (record (fd_at k.fds fd) { used = true }) })
]

unfoldable pub sys_dup2 : (oldfd newfd : ℕ) → Kernel → Ret × Kernel
sys_dup2 oldfd newfd k =
    if bad_fd k.fds oldfd
    then (err ebadf, k)
    else if is_negative newfd || leb fd_max newfd
    then (err ebadf, k)
    else if oldfd == newfd
    then (ok newfd, k)
    else let target = fd_at k.fds newfd in
      let fds =
        if target.used && leb 3 newfd
        then set k.fds newfd (record target { used = false })
        else k.fds in
      (ok newfd, record k { fds = set fds newfd (record (fd_at fds oldfd) { used = true }) })

-- The loop of `sys_writev` and `sys_readv`, from the buffer at `iov` on, with `io` for the call.
unfoldable pub each_vec :
    (io : (buf count : ℕ) → Kernel → Ret × Kernel) → (n iov total : ℕ) → Kernel → Ret × Kernel
each_vec io zero iov total k = (ok total, k)
each_vec io (suc n) iov total k =
    let base = load32 k.mem iov in
    let len = load32 k.mem (iov + 4) in
    if base == 0 && not (len == 0)
    then (err efault, k)
    else let r = io base len k in
      elim r.0 [
        | err e ↦ (err e, r.1)
        | ok done ↦ elim (ltb done len) [
          | true ↦ (ok (u32 (total + done)), r.1)
          | false ↦ each_vec io n (u32 (iov + 8)) (u32 (total + done)) r.1
        ]
      ]

unfoldable pub vectored :
    (io : (buf count : ℕ) → Kernel → Ret × Kernel) → (iov iovcnt : ℕ) → Kernel → Ret × Kernel
vectored io iov iovcnt k =
    if is_negative iovcnt || ltb 64 iovcnt
    then (err einval, k)
    else if iov == 0 && not (iovcnt == 0)
    then (err efault, k)
    else each_vec io iovcnt iov 0 k

unfoldable pub sys_writev : (fd iov iovcnt : ℕ) → Kernel → Ret × Kernel
sys_writev fd iov iovcnt k = vectored (sys_write fd) iov iovcnt k

unfoldable pub sys_readv : (stale : ℕ → ℕ → ℕ) → (fd iov iovcnt : ℕ) → Kernel → Ret × Kernel
sys_readv stale fd iov iovcnt k = vectored (sys_read stale fd) iov iovcnt k
