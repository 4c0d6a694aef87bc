-- ===== src/Fat32/Entries.antt =====
-- The entries of the table in src/fat32.c: what was set is read, and all others are as before.
use mykernel.Base.{
  ℕ, zero, suc, ◌+◌, ◌-◌, ◌*◌, ◌/◌, ◌%◌, ◌^◌, ◌<◌, ◌≤◌, ◌≡◌, ◌≢◌, ◌⊎◌, refl, ap, ◌∙◌, true, arith,
  Memory, store_bytes, store_bytes-outside, bytes32, load32, Bool-cases, ltb, leb, ltb→lt, get_or,
  inl, inr,
}
use mathlib.Core.Path.{subst}
use mykernel.Fat32.{Volume, entry_offset, entry_lba, entry_value, new_entry, put_entry}

-- The copies of the table lie one behind the other below 2^32, and an entry is in its copy.
pub record Placed (v : Volume) (cluster : ℕ) : Type 0 where
  pub inside : cluster * 4 / 512 < v.fat_size_sectors
  pub small : cluster < 2 ^ 30
  pub fits : v.partition_lba + (v.fat_start + v.num_fats * v.fat_size_sectors) < 2 ^ 32

mul_step : (f n size : ℕ) → f < n → f * size + size ≤ n * size
mul_step f zero size lt = absurd (omega arith)
mul_step f (suc n) size lt = elim (Bool-cases (ltb f n)) [
  | inl e ↦ omega (arith, mul_step f n size (ltb→lt f n e))
  | inr e ↦ let same : f ≡ n = ground (arith, e) in rw same (omega arith)
]

-- where an entry is in the copy `f`, and its first byte there
abbrev pub copy_sector : Volume → (f cluster : ℕ) → ℕ
copy_sector v f cluster = v.partition_lba + v.fat_start + f * v.fat_size_sectors + cluster * 4 / 512

abbrev pub first_byte : ℕ → ℕ
first_byte cluster = cluster * 4 % 512

pub entry_lba-exact :
    (v : Volume) (f c : ℕ) → Placed v c → f < v.num_fats → entry_lba v f c ≡ copy_sector v f c
entry_lba-exact v f c p lt =
    let all = mul_step f v.num_fats v.fat_size_sectors lt in
    let a = p.inside in let small = p.small in let fits = p.fits in omega arith

pub copy_sector-apart :
    (v : Volume) (f g c c' : ℕ)
    → Placed v c
    → Placed v c'
    → f < g
    → copy_sector v f c ≢ copy_sector v g c'
copy_sector-apart v f g c c' p p' lt same =
    let step = mul_step f g v.fat_size_sectors lt in
    let a = p.inside in let b = p'.inside in absurd (omega (arith, same))

join_bytes :
    (x : ℕ)
    → x < 2 ^ 32
    → x % 256
        + 2 ^ 8 * (x / 2 ^ 8 % 256)
        + 2 ^ 16 * (x / 2 ^ 16 % 256)
        + 2 ^ 24 * (x / 2 ^ 24 % 256)
      ≡ x
join_bytes x lt = omega arith

-- a byte of the word that was stored
store_bytes-word :
    (a x i : ℕ) (s : Memory) → i < 4 → store_bytes a (bytes32 x) s (a + i) ≡ get_or (bytes32 x) i 0
store_bytes-word a x i s lt =
    let low : leb a (a + i) ≡ true = ground arith in
    let high : ltb (a + i) (a + 4) ≡ true = ground arith in
    let back : a + i - a ≡ i = omega arith in rw (low, high, back) refl

-- a word that was stored is loaded
pub load32-store : (a x : ℕ) (s : Memory) → x < 2 ^ 32 → load32 (store_bytes a (bytes32 x) s) a ≡ x
load32-store a x s small =
    let first : store_bytes a (bytes32 x) s a ≡ x % 256 = ground arith in
    let b = store_bytes-word a x 1 s (omega arith) in
    let c = store_bytes-word a x 2 s (omega arith) in
    let d = store_bytes-word a x 3 s (omega arith) in
    omega (arith, join_bytes x small, first, b, c, d)

pub put_entry_self :
    (c value : ℕ) (s : Memory) → entry_value c (put_entry c value s) ≡ value % 2 ^ 28
put_entry_self c value s =
    let old = load32 s (entry_offset c) in
    let low = value % 2 ^ 28 in
    let stored = load32-store (entry_offset c) (new_entry old value) s (omega arith) in
    ap (λ x. x % 2 ^ 28) stored ∙ omega arith

pub put_entry-other :
    (c c' value : ℕ) (s : Memory)
    → c < 2 ^ 30
    → c' < 2 ^ 30
    → c ≢ c'
    → c * 4 / 512 ≡ c' * 4 / 512
    → entry_value c' (put_entry c value s) ≡ entry_value c' s
put_entry-other c c' value s small small' ne same =
    let bs = bytes32 (new_entry (load32 s (entry_offset c)) value) in
    let a = entry_offset c in
    let b = entry_offset c' in
    let apart : (i : ℕ) → i < 4 → store_bytes a bs s (b + i) ≡ s (b + i) =
      λ i lt. store_bytes-outside a bs s (b + i) (away i lt) in
    let here : b + 0 ≡ b = omega arith in
    let first = subst (λ p. store_bytes a bs s p ≡ s p) here (apart 0 (omega arith)) in
    rw (first, apart 1 (omega arith), apart 2 (omega arith), apart 3 (omega arith)) refl
  where
    away :
        (i : ℕ)
        → i < 4
        → (entry_offset c' + i < entry_offset c) ⊎ (entry_offset c + 4 ≤ entry_offset c' + i)
    away i lt = elim (Bool-cases (ltb c' c)) [
      | inl e ↦ inl (omega (arith, ltb→lt c' c e))
      | inr e ↦ let above : c < c' = ground (arith, e, ne) in inr (omega arith)
    ]
