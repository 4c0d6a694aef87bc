-- ===== src/Syscall/Reading.antt =====
-- Opening and reading a file through the descriptors of src/syscall.c.
use mykernel.Base.{
  ℕ, zero, suc, ◌+◌, ◌-◌, ◌^◌, ◌≤◌, ◌<◌, ◌≡◌, ◌≢◌, inl, inr, refl, sym, ap, ◌∙◌, true, false, some,
  List, [], ◌∷◌, ◌++◌, arith, ltb, leb, ◌==◌, u32, if◌then◌else◌, length, length-append, length-set,
  get_or, set, get_or-set_self, Memory, store_bytes, load_bytes, Bool-cases, Option-cases,
}
use mathlib.Core.Path.{subst}
use mathlib.Core.List.{append_assoc}
use mykernel.Ramfs.Node.{Fs, node_at, find_child, is_empty, file_max}
use mykernel.Ramfs.Content.{fs_read}
use mykernel.Syscall.{ok, FdEntry, fd_ramfile, Kernel, fd_max, no_entry, is_negative}
use mykernel.Syscall.Descriptors.{
  fd_at, bad_fd, is_console, is_ramfile, fd_from, fd_alloc, open_fd, open_found, sys_open,
  content_bytes, read_ramfile, sys_read, name_copy,
}
use mykernel.Syscall.Safe.{IsSafe}

get_or-append : (pre suf : List ℕ) (x : ℕ) → get_or (pre ++ x ∷ suf) (length pre) 0 ≡ x
get_or-append [] suf x = refl
get_or-append (y ∷ pre) suf x = get_or-append pre suf x

-- The bytes of a node from behind `pre` on.
content_bytes_lem :
    (stale : ℕ → ℕ → ℕ) (s : Fs) (i : ℕ) (pre suf : List ℕ)
    → (node_at s.nodes i).content ≡ pre ++ suf
    → content_bytes stale s (some i) (length suf) (length pre) ≡ suf
unfolding content_bytes
content_bytes_lem stale s i pre [] e = refl
content_bytes_lem stale s i pre (x ∷ suf) e =
    let here : get_or (node_at s.nodes i).content (length pre) 0 ≡ x =
      ap (λ c. get_or c (length pre) 0) e ∙ get_or-append pre suf x in
    let size = ap length e ∙ length-append pre (x ∷ suf) in
    let inside : ltb (length pre) (length (node_at s.nodes i).content) ≡ true =
      ground (arith, size) in
    let longer = length-append pre (x ∷ []) in
    let rest =
      content_bytes_lem stale s i (pre ++ x ∷ []) suf (e ∙ sym (append_assoc pre (x ∷ []) suf)) in
    rw (inside, here)
      (ap (λ l. x ∷ l)
        (subst (λ p. content_bytes stale s (some i) (length suf) p ≡ suf) longer rest))

load-bytes :
    (bs : List ℕ) (a : ℕ) (m : Memory)
    → ((j : ℕ) → j < length bs → m (a + j) ≡ get_or bs j 0)
    → load_bytes (length bs) a m ≡ bs
load-bytes [] a m h = refl
load-bytes (b ∷ bs) a m h =
    let first : m a ≡ b = ap m (omega arith) ∙ h 0 (omega arith) in
    let rest = load-bytes bs (a + 1) m (λ j lt. ap m (omega arith) ∙ h (suc j) (omega arith)) in
    rw first (ap (λ l. b ∷ l) rest)

load-store : (a : ℕ) (bs : List ℕ) (m : Memory) → load_bytes (length bs) a (store_bytes a bs m) ≡ bs
load-store a bs m = load-bytes bs a (store_bytes a bs m) (λ j lt. stored j lt)
  where
    stored : (j : ℕ) → j < length bs → store_bytes a bs m (a + j) ≡ get_or bs j 0
    stored j lt =
        let off : a + j - a ≡ j = omega arith in
        let lo : leb a (a + j) ≡ true = ground arith in
        let hi : ltb (a + j) (a + length bs) ≡ true = ground arith in rw (lo, hi, off) refl

-- Descriptor 3 or more, unused, and none of that kind before it.
pub fd_from_iff :
    (n i fd : ℕ) (fds : List FdEntry)
    → fd_from n i fds ≡ some fd
    → (i ≤ fd) × (fd < i + n) × ((fd_at fds fd).used ≡ false)
unfolding fd_from
fd_from_iff zero i fd fds e = absurd (ground arith)
fd_from_iff (suc n) i fd fds e = elim (Bool-cases (fd_at fds i).used) [
  | inl taken ↦ ground (arith, fd_from_iff n (i + 1) fd fds)
  | inr here ↦ ground arith
]

-- A read from a file goes to `read_ramfile`.
sys_read-file :
    (stale : ℕ → ℕ → ℕ) (fd buf count : ℕ) (f : FdEntry) (k : Kernel)
    → fd < fd_max
    → fd_at k.fds fd ≡ f
    → f.used ≡ true
    → f.type ≡ fd_ramfile
    → buf ≢ 0
    → count < 2 ^ 31
    → sys_read stale fd buf count k ≡ read_ramfile stale fd buf count f k
unfolding sys_read
sys_read-file stale fd buf count f k lt at used file some_buf small =
    let a : is_negative count ≡ false = ground arith in
    let b : (buf == 0) ≡ false = ground arith in
    let bad : bad_fd k.fds fd ≡ false = ground arith in
    let x : is_console (fd_at k.fds fd).type ≡ false =
      ap (λ f. is_console f.type) at ∙ ap is_console file in
    let y : is_ramfile (fd_at k.fds fd).type ≡ true =
      ap (λ f. is_ramfile f.type) at ∙ ap is_ramfile file in
    rw (a, b, sys_read) (rw (bad, x, y) (ap (λ f. read_ramfile stale fd buf count f k) at))

module _ (path c : List ℕ) (fd buf count : ℕ) (stale : ℕ → ℕ → ℕ) (k : Kernel) (v : IsSafe k)
    (named : is_empty path ≡ false) (stands : (fs_read path k.fs).1 ≡ some c)
    (slot : fd_alloc k.fds ≡ some fd) where
  entry : FdEntry
  entry = record {
    used = true;
    type = fd_ramfile;
    data_node = find_child k.fs.cwd path k.fs.nodes;
    len = length c;
    pos = 0;
    writable = false;
    name = name_copy path;
  }

  open_run : sys_open (some path) 0 k ≡ (ok fd, record k { fds = set k.fds fd entry })
  unfolding sys_open open_found open_fd entry
  open_run = rw (named, stands, sys_open) (rw (slot, open_fd) refl)

  -- the content is that of the node that the path leads to
  source :
      (i : ℕ) × (find_child k.fs.cwd path k.fs.nodes ≡ some i)
      × ((node_at k.fs.nodes i).content ≡ c)
  unfolding fs_read
  source = elim (Option-cases (find_child k.fs.cwd path k.fs.nodes)) [
    | inr e ↦ absurd (ground arith)
    | inl (i, e) ↦ (i, e, ground arith)
  ]

  short : length c < file_max
  short = let (i, e, same) = source in ground (arith, ap length same, v.small i)

  -- the entry after the first read, and the state
  abbrev read_entry : FdEntry
  read_entry = record entry { pos = length c }

  abbrev after_read : Kernel
  after_read = record k {
    fds = set (set k.fds fd entry) fd read_entry;
    mem = store_bytes buf c k.mem;
  }

  whole :
      length c ≤ count
      → read_ramfile stale fd buf count entry (record k { fds = set k.fds fd entry })
        ≡ (ok (length c), after_read)
  unfolding read_ramfile entry
  whole fits =
      let (i, e, same) = source in
      let left : u32 (length c + 2 ^ 32 - 0) ≡ length c = omega (arith, short) in
      let n : (if ltb (length c) count then length c else count) ≡ length c = ground arith in
      let pos : u32 (0 + length c) ≡ length c = omega (arith, short) in
      let bytes : content_bytes stale k.fs (find_child k.fs.cwd path k.fs.nodes) (length c) 0 ≡ c =
        ap (λ o. content_bytes stale k.fs o (length c) 0) e
        ∙ content_bytes_lem stale k.fs i [] c same in
      rw (left, n, pos, bytes) refl

  nothing_left : (k₂ : Kernel) → (read_ramfile stale fd buf count read_entry k₂).0 ≡ ok 0
  unfolding read_ramfile entry
  nothing_left k₂ =
      let left : u32 (length c + 2 ^ 32 - length c) ≡ 0 = omega (arith, short) in
      let n : (if ltb 0 count then 0 else count) ≡ 0 = ground arith in rw (left, n) refl

  -- A file that is opened and read with a buffer that is large enough gives its content, in a safe
  -- state in which the path leads to the file and `fd` is the descriptor that is given; a second
  -- read gives nothing.
  pub sys_read-sys_open :
      buf ≢ 0
      → length c ≤ count
      → count < 2 ^ 31
      → (k₁ k₂ : Kernel) × (sys_open (some path) 0 k ≡ (ok fd, k₁))
        × (sys_read stale fd buf count k₁ ≡ (ok (length c), k₂))
        × (load_bytes (length c) buf k₂.mem ≡ c)
        × ((sys_read stale fd buf count k₂).0 ≡ ok 0)
  unfolding fd_alloc entry
  sys_read-sys_open some_buf fits small =
      let (lo, hi, _) = fd_from_iff 29 3 fd k.fds slot in
      let fds₁ = set k.fds fd entry in
      let k₁ = record k { fds = fds₁ } in
      let lt : fd < fd_max = omega (arith, hi) in
      let at₁ = get_or-set_self k.fds fd entry no_entry (omega (arith, lt, v.size)) in
      let at₂ =
        get_or-set_self fds₁ fd read_entry no_entry
          (omega (arith, lt, v.size, length-set k.fds fd entry)) in
      let one = sys_read-file stale fd buf count entry k₁ lt at₁ refl refl some_buf small in
      let two =
        sys_read-file stale fd buf count read_entry after_read lt at₂ refl refl some_buf small in
      (
        k₁,
        after_read,
        open_run,
        one ∙ whole fits,
        load-store buf c k.mem,
        ap (λ r. r.0) two ∙ nothing_left after_read,
      )
