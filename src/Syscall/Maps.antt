-- ===== src/Syscall/Maps.antt =====
-- The mmap arena of src/syscall.c: what is granted is fresh.
use mykernel.Base.{
  ℕ, ◌+◌, ◌-◌, ◌^◌, ◌≤◌, ◌<◌, ◌≡◌, ◌⊎◌, inl, inr, true, false, ◌&&◌, not, arith, ltb, ◌==◌, u32,
  Bool-cases,
}
use mykernel.Syscall.{ok, err, enomem, Kernel, mmap_base, mmap_end, has_flag}
use mykernel.Syscall.Arena.{align_up_page, clear_range, mmap_pages, sys_mmap2}
use mykernel.Syscall.Safe.{IsSafe}

-- The mapping of `len` bytes starts behind all that were granted before, is zero, leaves what lies
-- below as it was, and lies within the arena, as does the rest of it.
pub record Mapped (len : ℕ) (k k' : Kernel) : Type 0 where
  pub room : k.mmap_bump + len ≤ k'.mmap_bump
  pub within : k'.mmap_bump ≤ mmap_end
  pub zero : (x : ℕ) → k.mmap_bump ≤ x → x < k.mmap_bump + len → k'.mem x ≡ 0
  pub below : (x : ℕ) → x < k.mmap_bump → k'.mem x ≡ k.mem x
  pub above : (x : ℕ) → k'.mmap_bump ≤ x → k'.mem x ≡ k.mem x

module _ (addr len flags : ℕ) (k : Kernel) (v : IsSafe k) where
  round_up : len + 4095 < 2 ^ 32 → (len ≤ align_up_page len) × (align_up_page len < len + 4096)
  unfolding align_up_page
  round_up h = omega arith

  -- In a safe state, an anonymous mapping at no fixed address, of at least one byte and at most
  -- 2^32 - 4096, is granted as fresh zeroed bytes of the arena, or refused without any change
  -- because the rest of the arena is too small.
  pub sys_mmap2-Mapped :
      1 ≤ len
      → len + 4095 < 2 ^ 32
      → has_flag 5 flags ≡ true
      → (has_flag 4 flags && not (addr == 0)) ≡ false
      → ((sys_mmap2 addr len flags k ≡ (err enomem, k)) × (mmap_end < k.mmap_bump + len + 4095))
        ⊎ ((k' : Kernel) × (sys_mmap2 addr len flags k ≡ (ok k.mmap_bump, k')) × Mapped len k k')
  unfolding sys_mmap2 mmap_pages
  sys_mmap2-Mapped pos small anon moving =
      let n = align_up_page len in
      let (above, near) = round_up small in
      let some_bytes : (len == 0) ≡ false = ground arith in
      elim (Bool-cases (ltb (mmap_end - mmap_base) n)) [
        | inl big ↦ inl (rw (some_bytes, big, sys_mmap2), ground (arith, v.arena))
        | inr fits ↦ elim (Bool-cases (ltb mmap_end (u32 (k.mmap_bump + n)))) [
          | inl full ↦ inl (
            rw (some_bytes, fits, sys_mmap2) (rw (anon, moving, full, mmap_pages)),
            ground (arith, v.arena),
          )
          | inr room ↦
              let exact : u32 (k.mmap_bump + n) ≡ k.mmap_bump + n = ground (arith, v.arena) in
              inr (
                record k {
                  mem = clear_range k.mmap_bump n k.mem;
                  mmap_bump = u32 (k.mmap_bump + n);
                },
                rw (some_bytes, fits, sys_mmap2) (rw (anon, moving, room, mmap_pages)),
                record {
                  room = omega (arith, exact, above);
                  within = ground (arith, exact);
                  zero = λ x lo hi. ground (arith, above);
                  below = λ x lo. ground arith;
                  above = λ x hi. ground (arith, exact);
                },
              )
        ]
      ]
