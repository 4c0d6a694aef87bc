-- ===== src/Sched/Spawn/Frame.antt =====
-- The first frame on the stack of a task that `sched_spawn` of src/sched.c makes.
use mykernel.Base.{
  ℕ, zero, suc, ◌+◌, ◌-◌, ◌*◌, ◌/◌, ◌%◌, ◌^◌, ◌≤◌, ◌<◌, ◌≡◌, ◌⊎◌, inl, inr, refl, ap, ◌∙◌, arith,
  Memory, load32, Bool-cases, ltb,
}
use mykernel.Sched.Spawn.{write32, push_zeros, initial_stack}

-- The frame is at the top of the stack, up to a multiple of 16: eight zero words for `popa`, and
-- above them the address that `ret` goes to. All other bytes are as before.
pub record Frame (bootstrap stack sp : ℕ) (m m' : Memory) : Type 0 where
  pub inside : (stack ≤ sp) × (sp + 36 ≤ stack + 4096)
  pub top : stack + 4096 < sp + 36 + 16
  pub aligned : (sp + 36) % 16 ≡ 0
  pub zeros : (x : ℕ) → sp ≤ x → x < sp + 32 → m' x ≡ 0
  pub target : load32 m' (sp + 32) ≡ bootstrap % 2 ^ 32
  pub others : (x : ℕ) → (x < sp) ⊎ (sp + 36 ≤ x) → m' x ≡ m x

write32-outside : (a v : ℕ) (m : Memory) (x : ℕ) → (x < a) ⊎ (a + 4 ≤ x) → write32 a v m x ≡ m x
unfolding write32
write32-outside a v m x out = ground arith

write32_zero : (a : ℕ) (m : Memory) (x : ℕ) → a ≤ x → x < a + 4 → write32 a 0 m x ≡ 0
unfolding write32
write32_zero a m x low high = ground arith

load32-write32 : (a v : ℕ) (m : Memory) → load32 (write32 a v m) a ≡ v % 2 ^ 32
unfolding write32
load32-write32 a v m =
    let b0 : write32 a v m a ≡ v % 256 = ground arith in
    let b1 : write32 a v m (a + 1) ≡ v / 2 ^ 8 % 256 = ground arith in
    let b2 : write32 a v m (a + 2) ≡ v / 2 ^ 16 % 256 = ground arith in
    let b3 : write32 a v m (a + 3) ≡ v / 2 ^ 24 % 256 = ground arith in
    omega (arith, b0, b1, b2, b3)

-- `k` zero words below `sp`, and nothing else
record Pushed (k sp : ℕ) (m : Memory) (r : ℕ × Memory) : Type 0 where
  at : r.0 + 4 * k ≡ sp
  zeros : (x : ℕ) → r.0 ≤ x → x < sp → r.1 x ≡ 0
  others : (x : ℕ) → (x < r.0) ⊎ (sp ≤ x) → r.1 x ≡ m x

push_zeros-Pushed : (k sp : ℕ) (m : Memory) → 4 * k ≤ sp → Pushed k sp m (push_zeros k (sp, m))
unfolding push_zeros
push_zeros-Pushed zero sp m le = record {
  at = omega arith;
  zeros = λ x low high. absurd (omega arith);
  others = λ x out. refl;
}
push_zeros-Pushed (suc k) sp m le =
    let one = write32 (sp - 4) 0 m in
    let r = push_zeros-Pushed k (sp - 4) one (omega arith) in
    let at = r.at in
    record {
      at = omega (arith, at);
      zeros = λ x low high. elim (Bool-cases (ltb x (sp - 4))) [
        | inl below ↦ r.zeros x low (ground (arith, below))
        | inr above ↦
            r.others x (inr (ground (arith, above)))
            ∙ write32_zero (sp - 4) m x (ground (arith, above)) (omega arith)
      ];
      others = λ x out. elim out [
        | inl low ↦
            r.others x (inl low) ∙ write32-outside (sp - 4) 0 m x (inl (omega (arith, at, low)))
        | inr high ↦
            r.others x (inr (omega arith)) ∙ write32-outside (sp - 4) 0 m x (inr (omega arith))
      ];
    }

pub initial_stack-Frame :
    (bootstrap stack : ℕ) (m : Memory)
    → Frame bootstrap stack
        (initial_stack bootstrap stack m).0
        m
        (initial_stack bootstrap stack m).1
unfolding initial_stack
initial_stack-Frame bootstrap stack m =
    let top = (stack + 4096) / 16 * 16 in
    let one = write32 (top - 4) bootstrap m in
    let r = push_zeros-Pushed 8 (top - 4) one (omega arith) in
    let sp = (push_zeros 8 (top - 4, one)).0 in
    let at : sp + 36 ≡ top = omega (arith, r.at) in
    let word : sp + 32 ≡ top - 4 = omega (arith, at) in
    let kept : (i : ℕ) → (push_zeros 8 (top - 4, one)).1 (top - 4 + i) ≡ one (top - 4 + i) =
      λ i. r.others (top - 4 + i) (inr (omega arith)) in
    let first = kept 0 in
    record {
      inside = omega (arith, at);
      top = omega (arith, at);
      aligned = omega (arith, at);
      zeros = λ x low high. r.zeros x low (omega (arith, word));
      target =
          ap (load32 (push_zeros 8 (top - 4, one)).1) word
          ∙ rw (r.others (top - 4) (inr (omega arith)), kept 1, kept 2, kept 3)
              (load32-write32 (top - 4) bootstrap m);
      others = λ x out. elim out [
        | inl low ↦
            r.others x (inl low)
            ∙ write32-outside (top - 4) bootstrap m x (inl (omega (arith, at, low)))
        | inr high ↦
            r.others x (inr (omega (arith, at)))
            ∙ write32-outside (top - 4) bootstrap m x (inr (omega (arith, at)))
      ];
    }
