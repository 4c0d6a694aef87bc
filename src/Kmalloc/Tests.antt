-- ===== src/Kmalloc/Tests.antt =====
-- Runs of src/kmalloc.c on a small heap, and its theorems there.
use mykernel.Base.{
  ℕ, ◌+◌, ◌≤◌, ◌≡◌, ◌↔◌, ◌⊎◌, refl, true, false, none, some, List, [], ◌∷◌, arith, ◌==◌,
  if◌then◌else◌,
}
use mykernel.Kmalloc.{Block, Heap, header, kheap_start, align_up, kmalloc, kmalloc_init, kfree}
use mykernel.Kmalloc.Chain.{live, IsValid}
use mykernel.Kmalloc.Contract.{kmalloc-IsValid, kmalloc_grants, kfree_releases}
use mykernel.Kmalloc.RoundTrip.{kfree-kmalloc}
use mykernel.Kmalloc.Limits.{Exhausted, kmalloc-none_iff, kmalloc_wraps}

-- two live allocations, of 16 and 8 bytes, and the rest free
abbrev blocks : List Block
blocks =
    record { addr = 0x200000; size = 16; free = false }
    ∷ record { addr = 0x20001c; size = 8; free = false }
    ∷ record { addr = 0x200030; size = 1048516; free = true }
    ∷ []

abbrev heap : Heap
heap = record { blocks = blocks; heap_used = 24; mem = λ a. a }

-- after a further request for 5 bytes
abbrev heap_of_three : Heap
heap_of_three = record heap {
  blocks =
      record { addr = 0x200000; size = 16; free = false }
      ∷ record { addr = 0x20001c; size = 8; free = false }
      ∷ record { addr = 0x200030; size = 8; free = false }
      ∷ record { addr = 0x200044; size = 1048496; free = true }
      ∷ [];
  heap_used = 32;
}

heap-IsValid : IsValid heap
heap-IsValid = ground arith

kmalloc_run : kmalloc 5 heap ≡ (some 0x20003c, heap_of_three)
unfolding kmalloc
kmalloc_run = refl

kmalloc-IsValid_example : IsValid (kmalloc 5 heap).1
kmalloc-IsValid_example = kmalloc-IsValid 5 heap heap-IsValid

kmalloc_grants_example :
    (live 0x20003c heap.blocks ≡ none)
    × ((k : ℕ) × (5 ≤ k)
        × ((q : ℕ)
            → live q heap_of_three.blocks ≡ (if 0x20003c == q then some k else live q heap.blocks)))
kmalloc_grants_example =
    kmalloc_grants 5 0x20003c heap heap_of_three heap-IsValid (omega arith) kmalloc_run

kfree_releases_example :
    (h' : Heap) × (kfree (some 0x20000c) heap ≡ some h')
    × IsValid h'
    × ((q : ℕ) → live q h'.blocks ≡ (if 0x20000c == q then none else live q heap.blocks))
    × (h'.heap_used + 16 ≡ 24)
    × (h'.mem ≡ heap.mem)
kfree_releases_example = kfree_releases 0x20000c 16 heap heap-IsValid refl

kfree-kmalloc_example :
    (h'' : Heap) × (kfree (some 0x20003c) heap_of_three ≡ some h'')
    × (h''.blocks ≡ heap.blocks)
    × (h''.heap_used ≡ heap.heap_used)
kfree-kmalloc_example = kfree-kmalloc 5 0x20003c heap heap_of_three heap-IsValid kmalloc_run

kmalloc-none_iff_example :
    ((kmalloc 2000000 heap).0 ≡ none)
    ↔ (◌≡◌ {A = ℕ} 2000000 0 ⊎ Exhausted (align_up 2000000) heap.blocks)
kmalloc-none_iff_example = kmalloc-none_iff 2000000 heap

kmalloc_wraps_example :
    ((kmalloc 0xfffffffe (kmalloc_init heap)).0 ≡ some (kheap_start + header))
    × (live (kheap_start + header) (kmalloc 0xfffffffe (kmalloc_init heap)).1.blocks ≡ some 0)
kmalloc_wraps_example = kmalloc_wraps 0xfffffffe heap (omega arith) (omega arith)
