-- ===== src/Kmalloc/Realloc.antt =====
-- `krealloc` of src/kmalloc.c, and the sizes that `align_up` wraps.
use mykernel.Base.{ℕ, ◌+◌, ◌≤◌, ◌<◌, ◌≡◌, ◌≢◌, Option, none, some}
use mykernel.Kmalloc.{Heap}
use mykernel.Kmalloc.Chain.{live, IsValid}

-- What `krealloc` leaves behind: on failure the heap as it was, else an allocation of at least `n`
-- bytes that starts with the bytes of the old one, and every other allocation untouched.
abbrev pub Resized : (n p k : ℕ) → Heap → Option ℕ → Heap → Type 0
Resized n p k h none h' = h' ≡ h
Resized n p k h (some q) h' =
    IsValid h'
    × ((m : ℕ) × (n ≤ m) × (live q h'.blocks ≡ some m))
    × ((j : ℕ) → j < k → h'.mem (q + j) ≡ h.mem (p + j))
    × ((r : ℕ) → r ≢ p → r ≢ q → live r h'.blocks ≡ live r h.blocks)
