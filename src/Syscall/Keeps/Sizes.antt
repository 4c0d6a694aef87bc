-- ===== src/Syscall/Keeps/Sizes.antt =====
-- The operations of src/fs.c that src/syscall.c calls keep every file below 8192 bytes.
use mykernel.Base.{
  ℕ, zero, suc, ◌<◌, inl, inr, Bool, true, false, not, Option, none, some, List, [], ◌∷◌, arith,
  if◌then◌else◌, length, set, Option-cases,
}
use native.Mathlib.Decide.{dec_lt}
use mykernel.Ramfs.Collect.{Under}
use mykernel.Ramfs.Erase.{Removed}
use mykernel.Ramfs.Node.{
  Node, Fs, FsResult, fs_ok, file_max, node_at, find_child, alloc_node, is_file, is_valid_name,
}
use mykernel.Ramfs.Create.{add_node, as_file, fs_touch, fs_mv}
use mykernel.Ramfs.Content.{fs_write, fs_write_bin, update_content, after_touch, put_content}
use mykernel.Syscall.Safe.{Bounded}

set-Bounded :
    (ns : List Node) (i : ℕ) (n : Node)
    → Bounded ns
    → length n.content < file_max
    → Bounded (set ns i n)
set-Bounded [] i n b h j = b j
set-Bounded (m ∷ ns) zero n b h zero = h
set-Bounded (m ∷ ns) zero n b h (suc j) = b (suc j)
set-Bounded (m ∷ ns) (suc i) n b h zero = b zero
set-Bounded (m ∷ ns) (suc i) n b h (suc j) = set-Bounded ns i n (λ j. b (suc j)) h j

-- the nodes behind an operation
pub record After (t : FsResult × Fs) : Type 0 where
  pub small : Bounded t.1.nodes

pub to_After : {r : FsResult} {s : Fs} → Bounded s.nodes → After (r, s)
to_After b = record { small = b }

pub if-After : (b : Bool) {x y : FsResult × Fs} → After x → After y → After (if b then x else y)
if-After true h g = h
if-After false h g = g

pub add_node-Bounded :
    (fill : Node → Node) (name : List ℕ) (s : Fs)
    → Bounded s.nodes
    → ((n : Node) → length n.content < file_max → length (fill n).content < file_max)
    → After (add_node fill name s)
unfolding add_node
add_node-Bounded fill name s b h =
    if-After (not (is_valid_name name)) (to_After b)
      (elim (Option-cases (find_child s.cwd name s.nodes)) [
        | inl (i, e) ↦ rw (e, add_node) (to_After b)
        | inr e ↦ elim (Option-cases (alloc_node s.nodes)) [
          | inl (i, f) ↦ rw (e, f, add_node) (to_After (set-Bounded s.nodes i _ b (h _ (b i))))
          | inr f ↦ rw (e, f, add_node) (to_After b)
        ]
      ])

pub fs_mv-Bounded : (src dst : List ℕ) (s : Fs) → Bounded s.nodes → After (fs_mv src dst s)
unfolding fs_mv
fs_mv-Bounded src dst s b = elim (Option-cases (find_child s.cwd src s.nodes)) [
  | inr e ↦ rw (e, fs_mv) (to_After b)
  | inl (i, e) ↦
      rw (e, fs_mv)
        (if-After (not (is_valid_name dst)) (to_After b)
          (elim (Option-cases (find_child s.cwd dst s.nodes)) [
            | inl (j, f) ↦ rw f (to_After b)
            | inr f ↦ rw f (to_After (set-Bounded s.nodes i _ b (b i)))
          ]))
]

put_content-Bounded :
    (f : List ℕ → List ℕ) (o : Option ℕ) (s : Fs)
    → Bounded s.nodes
    → ((c : List ℕ) → length (f c) < file_max)
    → After (put_content f o s)
unfolding put_content
put_content-Bounded f none s b h = to_After b
put_content-Bounded f (some i) s b h =
    if-After (not (is_file (node_at s.nodes i).type)) (to_After b)
      (to_After (set-Bounded s.nodes i _ b (h (node_at s.nodes i).content)))

pub touch-Bounded : (path : List ℕ) (s : Fs) → Bounded s.nodes → After (fs_touch path s)
unfolding fs_touch
touch-Bounded path s b = add_node-Bounded (as_file s.cwd path []) path s b (λ n h. omega arith)

-- A write of no bytes.
pub fs_write-Bounded : (path : List ℕ) (s : Fs) → Bounded s.nodes → After (fs_write path [] s)
unfolding fs_write fs_write_bin update_content after_touch
fs_write-Bounded path s b = elim (Option-cases (find_child s.cwd path s.nodes)) [
  | inl (i, e) ↦
      rw (e, fs_write, fs_write_bin, update_content)
        (put_content-Bounded (λ old. []) (some i) s b (λ c. omega arith))
  | inr e ↦
      rw (e, fs_write, fs_write_bin, update_content)
        (touched (fs_touch path s).0 (fs_touch path s).1 (touch-Bounded path s b).small)
]
  where
    touched :
        (r : FsResult) (s' : Fs) → Bounded s'.nodes → After (after_touch (λ old. []) path (r, s'))
    touched fs_ok s' w = put_content-Bounded (λ old. []) _ s' w (λ c. omega arith)
    touched _ s' w = to_After w

pub Removed-Bounded : (i : ℕ) (s s' : Fs) → Removed i s s' → Bounded s.nodes → Bounded s'.nodes
Removed-Bounded i s s' d b j = elim (dec_lt (length (node_at s'.nodes j).content) file_max) [
  | yes small ↦ small
  | no big ↦
      let out : ¬ Under s.nodes i j = λ u. absurd (big (rw (d.gone j u) (omega arith))) in
      absurd (big (rw (d.kept j out) (b j)))
]
