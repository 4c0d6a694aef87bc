-- ===== src/Syscall/Keeps.antt =====
-- Every call of src/syscall.c keeps the invariant of its state.
pub mod Sizes
pub mod Files
pub mod Answers
pub mod All
use mykernel.Base.{
  ℕ, zero, suc, ◌+◌, ◌-◌, ◌%◌, ◌^◌, ◌≤◌, ◌<◌, ◌≡◌, ◌≢◌, ◌⊎◌, inl, inr, refl, ◌∙◌, Bool, true, false,
  ◌&&◌, ◌||◌, not, Option, none, some, List, [], ◌∷◌, arith, ltb, leb, ◌==◌, u32, if◌then◌else◌,
  length, length-set, get_or, set, Memory, load32, Bool-cases, Option-cases,
}
use mathlib.Core.Path.{subst}
use mykernel.Ramfs.Node.{Node, Fs, file_max, node_at}
use mykernel.Syscall.{
  Ret, ok, err, FdEntry, Kernel, fd_max, is_negative, has_flag, no_entry, mmap_base, mmap_end,
}
use mykernel.Syscall.Descriptors.{
  fd_at, bad_fd, is_console, is_ramfile, sys_write, read_ramfile, sys_read, sys_close, seek_base,
  sys_lseek, sys_dup, sys_dup2, fd_alloc, each_vec, vectored, content_bytes,
}
use mykernel.Syscall.Arena.{
  page_size, sys_brk, sys_mmap2, mmap_pages, align_up_page, sys_set_thread_area,
  sys_get_thread_area,
}
use mykernel.Syscall.Buffers.{
  Apart, Vector, MappingAt, Mapping, Spared, store_bytes-Spared, clear_range-Spared,
  length-content_bytes,
}
use mykernel.Syscall.Safe.{IsSafe, IsSafe-set, IsSafe-other, Within}

-- The state is safe, and the kernel's own data in memory are as in `m`.
pub record Kept (own : ℕ → Bool) (m : Memory) (k : Kernel) : Type 0 where
  pub state : IsSafe k
  pub spared : Spared own m k.mem

-- the same for the state behind a call
pub record Safe (own : ℕ → Bool) (m : Memory) (t : Ret × Kernel) : Type 0 where
  pub kept : Kept own m t.1

-- nothing was written
pub to_Safe : {own : ℕ → Bool} {r : Ret} {k : Kernel} → IsSafe k → Safe own k.mem (r, k)
to_Safe v = record { kept = record { state = v; spared = λ x mine. refl } }

-- what was written is not the kernel's own
pub written-Safe :
    {own : ℕ → Bool} {m : Memory} {r : Ret} {k : Kernel}
    → IsSafe k
    → Spared own m k.mem
    → Safe own m (r, k)
written-Safe v h = record { kept = record { state = v; spared = h } }

pub if-Safe :
    {own : ℕ → Bool} {m : Memory} (b : Bool) {x y : Ret × Kernel}
    → Safe own m x
    → Safe own m y
    → Safe own m (if b then x else y)
if-Safe true h g = h
if-Safe false h g = g

pub else-Safe :
    {own : ℕ → Bool} {m : Memory} (b : Bool) {x y : Ret × Kernel}
    → Safe own m x
    → (b ≡ false → Safe own m y)
    → Safe own m (if b then x else y)
else-Safe true h g = h
else-Safe false h g = g refl

pub sys_write-IsSafe :
    {own : ℕ → Bool} (fd buf count : ℕ) (k : Kernel)
    → IsSafe k
    → Safe own k.mem (sys_write fd buf count k)
unfolding sys_write
sys_write-IsSafe fd buf count k v = if-Safe (is_negative count) (to_Safe v) (
    if-Safe (buf == 0) (to_Safe v) (
      if-Safe (bad_fd k.fds fd) (to_Safe v) (
        if-Safe (is_console (fd_at k.fds fd).type) (to_Safe (IsSafe-other k _ _ _ _ _ _ v))
          (to_Safe v))))

read_ramfile-IsSafe :
    {own : ℕ → Bool} (stale : ℕ → ℕ → ℕ) (fd buf count i : ℕ) (k : Kernel)
    → IsSafe k
    → buf ≢ 0
    → Apart own buf count
    → Safe own k.mem (read_ramfile stale fd buf count (fd_at k.fds i) k)
unfolding read_ramfile
read_ramfile-IsSafe stale fd buf count i k v ne h =
    let f = fd_at k.fds i in
    let left = u32 (f.len + 2 ^ 32 - f.pos) in
    let n = if ltb left count then left else count in
    let few : n ≤ count = ground arith in
    written-Safe (IsSafe-set k fd _ _ v (ground (arith, v.offsets i, v.lengths i))) (
      store_bytes-Spared (content_bytes stale k.fs f.data_node n f.pos) k.mem ne
        (omega (arith, few, length-content_bytes stale k.fs f.data_node n f.pos)) h)

pub sys_read-IsSafe :
    {own : ℕ → Bool} (stale : ℕ → ℕ → ℕ) (fd buf count : ℕ) (k : Kernel)
    → Apart own buf count
    → IsSafe k
    → Safe own k.mem (sys_read stale fd buf count k)
unfolding sys_read
sys_read-IsSafe stale fd buf count k h v = if-Safe (is_negative count) (to_Safe v) (
    else-Safe (buf == 0) (to_Safe v) (λ not_null. if-Safe (bad_fd k.fds fd) (to_Safe v) (
      if-Safe (is_console (fd_at k.fds fd).type) (to_Safe v) (
        if-Safe (is_ramfile (fd_at k.fds fd).type)
          (read_ramfile-IsSafe stale fd buf count fd k v (λ null. ground (arith, null, not_null)) h)
          (to_Safe v)))))

pub sys_close-IsSafe :
    {own : ℕ → Bool} (fd : ℕ) (k : Kernel) → IsSafe k → Safe own k.mem (sys_close fd k)
unfolding sys_close
sys_close-IsSafe fd k v =
    if-Safe (is_negative fd || ltb fd 3 || leb fd_max fd || not (fd_at k.fds fd).used) (to_Safe v)
      (to_Safe (IsSafe-set k fd _ k.mem v (v.offsets fd, v.lengths fd)))

pub sys_lseek-IsSafe :
    {own : ℕ → Bool} (fd offset whence : ℕ) (k : Kernel)
    → IsSafe k
    → Safe own k.mem (sys_lseek fd offset whence k)
unfolding sys_lseek
sys_lseek-IsSafe fd offset whence k v = if-Safe (bad_fd k.fds fd) (to_Safe v) (
    if-Safe (not (is_ramfile (fd_at k.fds fd).type)) (to_Safe v)
      (elim (Option-cases (seek_base whence (fd_at k.fds fd))) [
        | inr unknown ↦ rw unknown (to_Safe v)
        | inl (base, e) ↦ rw e (
            if-Safe (is_negative (u32 (base + offset))) (to_Safe v)
              (to_Safe (IsSafe-set k fd _ k.mem v (ground (arith, v.offsets fd, v.lengths fd)))))
      ]))

pub sys_dup-IsSafe :
    {own : ℕ → Bool} (fd : ℕ) (k : Kernel) → IsSafe k → Safe own k.mem (sys_dup fd k)
unfolding sys_dup
sys_dup-IsSafe fd k v =
    if-Safe (bad_fd k.fds fd) (to_Safe v) (elim (Option-cases (fd_alloc k.fds)) [
      | inr full ↦ rw full (to_Safe v)
      | inl (n, e) ↦ rw e (to_Safe (IsSafe-set k n _ k.mem v (v.offsets fd, v.lengths fd)))
    ])

pub sys_dup2-IsSafe :
    {own : ℕ → Bool} (oldfd newfd : ℕ) (k : Kernel)
    → IsSafe k
    → Safe own k.mem (sys_dup2 oldfd newfd k)
unfolding sys_dup2
sys_dup2-IsSafe oldfd newfd k v =
    let target = fd_at k.fds newfd in
    let closed = record k { fds = set k.fds newfd (record target { used = false }) } in
    let w : IsSafe closed = IsSafe-set k newfd _ k.mem v (v.offsets newfd, v.lengths newfd) in
    if-Safe (bad_fd k.fds oldfd) (to_Safe v) (
      if-Safe (is_negative newfd || leb fd_max newfd) (to_Safe v) (
        if-Safe (oldfd == newfd) (to_Safe v) (elim (Bool-cases (target.used && leb 3 newfd)) [
          | inl shut ↦
              rw shut
                (to_Safe (IsSafe-set closed newfd _ k.mem w (w.offsets oldfd, w.lengths oldfd)))
          | inr left ↦
              rw left (to_Safe (IsSafe-set k newfd _ k.mem v (v.offsets oldfd, v.lengths oldfd)))
        ])))

-- The loop keeps what its calls keep: `Good n iov m` is the condition on the `n` buffers from the
-- entry at `iov` on, and `Fits` that on one buffer.
module _ {own : ℕ → Bool} (Fits : (buf count : ℕ) → Type 0) (Good : (n iov : ℕ) → Memory → Type 0)
    (one : (n iov : ℕ) (m : Memory) → Good (suc n) iov m → Fits (load32 m iov) (load32 m (iov + 4)))
    (next : (n iov : ℕ) (m m' : Memory)
      → Spared own m m'
      → Good (suc n) iov m
      → Good n (u32 (iov + 8)) m')
    (io : (buf count : ℕ) → Kernel → Ret × Kernel)
    (h : (buf count : ℕ) (k : Kernel)
      → Fits buf count
      → IsSafe k
      → Safe own k.mem (io buf count k)) where
  each_vec-IsSafe :
      (n iov total : ℕ) (m : Memory) (k : Kernel)
      → Good n iov k.mem
      → Kept own m k
      → Safe own m (each_vec io n iov total k)
  unfolding each_vec
  each_vec-IsSafe zero iov total m k g v = record { kept = v }
  each_vec-IsSafe (suc n) iov total m k g v =
      let base = load32 k.mem iov in
      let len = load32 k.mem (iov + 4) in
      let r = (h base len k (one n iov k.mem g) v.state).kept in
      if-Safe (base == 0 && not (len == 0)) (record { kept = v })
        (go len (io base len k).0 (io base len k).1
          (record { state = r.state; spared = λ x mine. r.spared x mine ∙ v.spared x mine })
          (next n iov k.mem (io base len k).1.mem r.spared g)
          (λ t k' good w. each_vec-IsSafe n (u32 (iov + 8)) t m k' good w))
    where
      go :
          (len : ℕ) (r : Ret) (k' : Kernel)
          → Kept own m k'
          → Good n (u32 (iov + 8)) k'.mem
          → ((t : ℕ) (k' : Kernel)
              → Good n (u32 (iov + 8)) k'.mem
              → Kept own m k'
              → Safe own m (each_vec io n (u32 (iov + 8)) t k'))
          → Safe own m (elim r [
            | err e ↦ (err e, k')
            | ok done ↦ elim (ltb done len) [
              | true ↦ (ok (u32 (total + done)), k')
              | false ↦ each_vec io n (u32 (iov + 8)) (u32 (total + done)) k'
            ]
          ])
      go len (err e) k' w good rest = record { kept = w }
      go len (ok done) k' w good rest = elim (Bool-cases (ltb done len)) [
        | inl short ↦ rw short (record { kept = w })
        | inr full ↦ rw full (rest (u32 (total + done)) k' good w)
      ]

  pub vectored-IsSafe :
      (iov iovcnt : ℕ) (k : Kernel)
      → Good iovcnt iov k.mem
      → IsSafe k
      → Safe own k.mem (vectored io iov iovcnt k)
  unfolding vectored
  vectored-IsSafe iov iovcnt k g v = if-Safe (is_negative iovcnt || ltb 64 iovcnt) (to_Safe v) (
      if-Safe (iov == 0 && not (iovcnt == 0)) (to_Safe v)
        (each_vec-IsSafe iovcnt iov 0 k.mem k g (record { state = v; spared = λ x mine. refl })))

pub sys_brk-IsSafe : (new_brk : ℕ) (k : Kernel) → IsSafe k → IsSafe (sys_brk new_brk k).1
unfolding sys_brk
sys_brk-IsSafe new_brk k v = ground (arith, v)

pub sys_brk-Spared :
    (own : ℕ → Bool) (new_brk : ℕ) (k : Kernel) → Spared own k.mem (sys_brk new_brk k).1.mem
unfolding sys_brk
sys_brk-Spared own new_brk k x mine = ground arith

mmap_pages-IsSafe :
    {own : ℕ → Bool} (addr len flags : ℕ) (k : Kernel)
    → IsSafe k
    → len ≤ mmap_end - mmap_base
    → Mapping own addr len flags
    → Safe own k.mem (mmap_pages addr len flags k)
unfolding mmap_pages
mmap_pages-IsSafe {own} addr len flags k v h free =
    let room = ltb mmap_end (u32 (k.mmap_bump + len)) in
    let fixed = has_flag 4 flags && not (addr == 0) in
    let moved : room ≡ false → IsSafe (record k { mmap_bump = u32 (k.mmap_bump + len) }) =
      λ e. ground (arith, v) in
    let inside : room ≡ false → k.mmap_bump + len ≤ mmap_end = λ e. ground (arith, v.arena) in
    if-Safe (not (has_flag 5 flags)) (to_Safe v) (elim (Bool-cases fixed) [
      | inl at_addr ↦
          let range = subst (λ b. MappingAt own b addr len) at_addr free in
          rw at_addr (
            if-Safe (ltb addr mmap_base || ltb mmap_end (u32 (addr + len))) (to_Safe v) (
              written-Safe (IsSafe-other k _ _ _ _ _ _ v)
                (clear_range-Spared addr len k.mem range)))
      | inr anywhere ↦
          let range = subst (λ b. MappingAt own b addr len) anywhere free in
          rw anywhere (elim (Bool-cases room) [
            | inl full ↦ rw full (to_Safe v)
            | inr left ↦ rw left (
                written-Safe (IsSafe-other _ _ _ _ _ _ _ (moved left)) (
                  clear_range-Spared k.mmap_bump len k.mem (λ x small lt.
                    range x (omega (arith, v.arena, inside left))
                      (omega (arith, v.arena, inside left)))))
          ])
    ])

pub sys_mmap2-IsSafe :
    {own : ℕ → Bool} (addr len flags : ℕ) (k : Kernel)
    → Mapping own addr (align_up_page len) flags
    → IsSafe k
    → Safe own k.mem (sys_mmap2 addr len flags k)
unfolding sys_mmap2
sys_mmap2-IsSafe addr len flags k free v =
    if-Safe (len == 0) (to_Safe v)
      (elim (Bool-cases (ltb (mmap_end - mmap_base) (align_up_page len))) [
        | inl big ↦ rw big (to_Safe v)
        | inr fits ↦
            rw fits (mmap_pages-IsSafe addr (align_up_page len) flags k v (ground arith) free)
      ])
