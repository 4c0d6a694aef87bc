-- ===== src/Syscall/Arena.antt =====
-- The memory of the process: `sys_brk`, the mmap arena and the thread area of src/syscall.c.
use mykernel.Base.{
  ℕ, ◌+◌, ◌-◌, ◌*◌, ◌/◌, ◌^◌, ◌&&◌, ◌||◌, not, ltb, ◌==◌, u32, if◌then◌else◌, ◌++◌, store_bytes,
  bytes32, load32, Memory,
}
use mykernel.Syscall.{
  Ret, ok, err, enomem, efault, einval, enosys, user_heap_base, user_heap_max, mmap_base, mmap_end,
  Kernel, has_flag,
}

unfoldable pub user_heap_reset : Kernel → Kernel
user_heap_reset k = record k { user_brk = user_heap_base; mmap_bump = mmap_base }

unfoldable pub sys_brk : ℕ → Kernel → ℕ × Kernel
sys_brk new_brk k =
    if new_brk == 0
    then (k.user_brk, k)
    else if ltb new_brk user_heap_base || ltb user_heap_max new_brk
    then (k.user_brk, k)
    else (new_brk, record k { user_brk = new_brk })

abbrev pub page_size : ℕ
page_size = 4096

-- `(n + 4095) & ~4095` on 32 bits
unfoldable pub align_up_page : ℕ → ℕ
align_up_page n = u32 (n + (page_size - 1)) / page_size * page_size

-- `p[i] = 0` for each `i` below `len`, where `p + i` wraps at 2^32
abbrev pub clear_range : (base len : ℕ) → Memory → Memory
clear_range base len m x = if ltb x (2 ^ 32) && ltb (u32 (x + (2 ^ 32 - base))) len then 0 else m x

-- the range is mapped: its bytes are zero
abbrev pub zeroed : (base len : ℕ) → Kernel → Ret × Kernel
zeroed base len k = (ok base, record k { mem = clear_range base len k.mem })

-- From `if (flags & MAP_ANONYMOUS)` on, with the rounded length.
unfoldable pub mmap_pages : (addr len flags : ℕ) → Kernel → Ret × Kernel
mmap_pages addr len flags k =
    if not (has_flag 5 flags)
    then (err enosys, k)
    else if has_flag 4 flags && not (addr == 0)
    then if ltb addr mmap_base || ltb mmap_end (u32 (addr + len))
      then (err einval, k)
      else zeroed addr len k
    else if ltb mmap_end (u32 (k.mmap_bump + len))
    then (err enomem, k)
    else zeroed k.mmap_bump len (record k { mmap_bump = u32 (k.mmap_bump + len) })

-- `prot`, `fd` and `pgoff` are not looked at.
unfoldable pub sys_mmap2 : (addr len flags : ℕ) → Kernel → Ret × Kernel
sys_mmap2 addr len flags k =
    if len == 0
    then (err einval, k)
    else if ltb (mmap_end - mmap_base) (align_up_page len)
    then (err enomem, k)
    else mmap_pages addr (align_up_page len) flags k

-- The value of `tls_entry`, which no call changes.
abbrev pub tls_entry : ℕ
tls_entry = 6

-- `struct user_desc` at `u`: `entry_number`, `base_addr`, `limit`
unfoldable pub sys_set_thread_area : ℕ → Kernel → Ret × Kernel
sys_set_thread_area u k =
    if u == 0
    then (err efault, k)
    else let m =
        if load32 k.mem u == 2 ^ 32 - 1 then store_bytes u (bytes32 tls_entry) k.mem else k.mem in
      (ok 0, record k { mem = m; tls_base = load32 m (u + 4) })

unfoldable pub sys_get_thread_area : ℕ → Kernel → Ret × Kernel
sys_get_thread_area u k = if u == 0 then (err efault, k) else (
  ok 0,
  record k {
    mem = store_bytes u (bytes32 tls_entry ++ (bytes32 k.tls_base ++ bytes32 0xFFFFF)) k.mem;
  },
)
