-- ===== src/Base/Bytes.antt =====
-- Bytes in memory: a memory is a function from the address, words have their low byte first.
use Prim.Native.Nat.{ℕ, zero, suc, ◌+◌, ◌-◌, ◌*◌, ◌/◌, ◌%◌, ◌^◌, ◌<◌, ◌≤◌}
use mathlib.Core.Path.{◌≡◌}
use mathlib.Core.Logic.{◌⊎◌}
use mathlib.Core.Bool.{◌&&◌}
use mathlib.Core.List.{List, [], ◌∷◌}
use native.Mathlib.Omega.{arith}
use mykernel.Base.Tests.{leb, ltb, ◌==◌, if◌then◌else◌}
use mykernel.Base.Lists.{length, get_or}

abbrev pub Memory : Type 0
Memory = ℕ → ℕ

-- the bytes of the list from the address `a` on
abbrev pub store_bytes : ℕ → List ℕ → Memory → Memory
store_bytes a bs m x = if leb a x && ltb x (a + length bs) then get_or bs (x - a) 0 else m x

-- `n` zero bytes from the address `a` on
abbrev pub store_zeros : ℕ → ℕ → Memory → Memory
store_zeros a n m x = if leb a x && ltb x (a + n) then 0 else m x

abbrev pub bytes16 : ℕ → List ℕ
bytes16 v = v % 256 ∷ v / 2 ^ 8 % 256 ∷ []

abbrev pub bytes32 : ℕ → List ℕ
bytes32 v = v % 256 ∷ v / 2 ^ 8 % 256 ∷ v / 2 ^ 16 % 256 ∷ v / 2 ^ 24 % 256 ∷ []

abbrev pub load16 : Memory → ℕ → ℕ
load16 m a = m a + 2 ^ 8 * m (a + 1)

abbrev pub load32 : Memory → ℕ → ℕ
load32 m a = m a + 2 ^ 8 * m (a + 1) + 2 ^ 16 * m (a + 2) + 2 ^ 24 * m (a + 3)

-- `n` bytes from the address `a` on
abbrev pub load_bytes : ℕ → ℕ → Memory → List ℕ
load_bytes zero a m = []
load_bytes (suc n) a m = m a ∷ load_bytes n (a + 1) m

-- The string at the address `a`, read for at most `n` bytes.
abbrev pub load_string : ℕ → ℕ → Memory → List ℕ
load_string zero a m = []
load_string (suc n) a m = if m a == 0 then [] else m a ∷ load_string n (a + 1) m

pub store_bytes-outside :
    (a : ℕ) (bs : List ℕ) (m : Memory) (x : ℕ)
    → (x < a) ⊎ (a + length bs ≤ x)
    → store_bytes a bs m x ≡ m x
store_bytes-outside a bs m x h = ground arith
