-- ===== src/Ramfs/Search.antt =====
-- The search of `fs_rm_subtree` in src/fs.c collects exactly the subtree, and ends.
use mykernel.Base.{
  ℕ, zero, suc, ◌+◌, ◌<◌, ◌≤◌, ◌≡◌, ◌↔◌, inl, inr, sym, ap, ◌∙◌, Bool, true, false, some, List, [],
  ◌∷◌, ◌++◌, arith, ◌==◌, ltb, length, length-append, length-set, get_or, set, Bool-cases, ==→eq,
}
use mathlib.Core.Path.{subst}
use mathlib.Core.List.{append-nil}
use mykernel.Ramfs.Node.{Node, max_nodes, node_at, is_dir}
use mykernel.Ramfs.Remove.{scan_from, collected, expand, bfs, first_search, no_marks, fuel}
use mykernel.Ramfs.Marks.{
  has, has-append, has-get_or, index_of_has, get_or-append, marked, marked-set, marked-replicate,
  length-replicate, marks, marks-replicate, marks-set, marks-le,
}
use mykernel.Ramfs.Table.{lt_of_live}
use mykernel.Ramfs.Tree.{Live, IsTree}
use mykernel.Ramfs.Collect.{Under, top, under, Holds, Grown, scan_from-Grown}

pub marked-no_marks : (j : ℕ) → marked no_marks j ≡ false
unfolding no_marks
marked-no_marks j = marked-replicate max_nodes j

pub length-no_marks : length no_marks ≡ max_nodes
unfolding no_marks
length-no_marks = length-replicate max_nodes

pub marks-no_marks : marks no_marks ≡ 0
unfolding no_marks
marks-no_marks = marks-replicate max_nodes

-- The children of the first `qh` entries are in the queue.
abbrev Closed : List Node → ℕ → List ℕ → Type 0
Closed ns qh queue =
    (k : ℕ)
    → k < qh
    → (j : ℕ) → Live ns j
    → (node_at ns j).parent ≡ some (get_or queue k 0)
    → has j queue ≡ true

-- One round of the outer loop.
expand-Grown :
    (ns : List Node) (r u : ℕ) (seen : List Bool) (queue : List ℕ)
    → IsTree ns
    → Holds ns r seen queue
    → has u queue ≡ true
    → Grown ns r 0 max_nodes u queue (expand u ns (seen, queue))
unfolding expand
expand-Grown ns r u seen queue t h hu = elim (Bool-cases (is_dir (node_at ns u).type)) [
  | inl folder ↦
      rw (folder, expand)
        (subst (λ n. Grown ns r 0 n u queue (scan_from 0 u ns (seen, queue))) t.size
          (scan_from-Grown ns r u 0 ns seen queue (omega (arith, t.size))
            (λ k. ap (node_at ns) (omega arith)) h hu))
  | inr other ↦ record {
    seen' = seen;
    more = [];
    done = rw (append-nil queue) (rw (other, expand));
    holds = rw (append-nil queue) h;
    covers = λ j lo hi l e. absurd (ground (arith, t.parents j u l e));
  }
]

-- With a round for each entry that can come the loop ends, and nothing hangs out of the queue.
bfs-collected :
    (fuel qh : ℕ) (ns : List Node) (r : ℕ) (seen : List Bool) (queue : List ℕ)
    → max_nodes < fuel + qh
    → qh ≤ length queue
    → IsTree ns
    → Holds ns r seen queue
    → Closed ns qh queue
    → has r queue ≡ true
    → (q : List ℕ) × (seen' : List Bool) × (bfs fuel qh ns (seen, queue) ≡ collected q)
      × Holds ns r seen' q
      × Closed ns (length q) q
      × (has r q ≡ true)
unfolding bfs
bfs-collected zero qh ns r seen queue enough le t h c hr =
    absurd (omega (arith, le, h.count, h.len, marks-le seen))
bfs-collected (suc f) qh ns r seen queue enough le t h c hr =
    elim (Bool-cases (ltb qh (length queue))) [
      | inr done ↦
          let at : qh ≡ length queue = ground arith in
          (queue, seen, rw (done, bfs), h, subst (λ k. Closed ns k queue) at c, hr)
      | inl more ↦
          let lt : qh < length queue = ground arith in
          let u = get_or queue qh 0 in
          let g = expand-Grown ns r u seen queue t h (has-get_or queue qh lt) in
          let ih =
            bfs-collected f (qh + 1) ns r g.seen' (queue ++ g.more) (omega arith)
              (omega (arith, length-append queue g.more)) t g.holds (closed g lt)
              (ground (arith, has-append r queue g.more)) in
          rw (more, g.done, bfs) ih
    ]
  where
    closed :
        (g : Grown ns r 0 max_nodes
          (get_or queue qh 0)
          queue
          (expand (get_or queue qh 0) ns (seen, queue)))
        → qh < length queue
        → Closed ns (qh + 1) (queue ++ g.more)
    closed g lt k near j l e = elim (Bool-cases (k == qh)) [
      | inl now ↦
          g.covers j (omega arith) (omega (arith, lt_of_live ns j l, t.size)) l
            (ground (arith, get_or-append queue g.more k))
      | inr before ↦
          let hi : k < qh = ground arith in
          ground (arith, has-append j queue g.more, c k hi j l, get_or-append queue g.more k)
    ]

module _ (ns : List Node) (r : ℕ) (t : IsTree ns) (l : Live ns r) where
  first-Holds : Holds ns r (set no_marks r true) (r ∷ [])
  first-Holds =
      let lt : r < length no_marks = omega (arith, lt_of_live ns r l, t.size, length-no_marks) in
      record {
        len = length-set no_marks r true ∙ length-no_marks;
        same = λ j. ground (arith, marked-set no_marks r j lt, marked-no_marks j);
        count = omega (arith, marks-set no_marks r lt (marked-no_marks r), marks-no_marks);
        live = λ j m. subst (Live ns) (==→eq r j (ground arith)) l;
        sound = λ j m. top (sym (==→eq r j (ground arith)));
      }

  -- A closed queue with `r` in it holds all that hangs under `r`.
  has_of_Under :
      (q : List ℕ)
      → Closed ns (length q) q
      → has r q ≡ true
      → {j : ℕ} → Under ns r j
      → has j q ≡ true
  has_of_Under q c hr (top e) = rw e hr
  has_of_Under q c hr {j} (under p lj e u) =
      let (k, lt, at) = index_of_has q p (has_of_Under q c hr u) in c k lt j lj (ground arith)

  -- The search from `r` collects `r` and what hangs under it, all of it and nothing else.
  pub bfs-Under :
      (q : List ℕ) × (bfs fuel 0 ns (first_search r) ≡ collected q)
      × ((j : ℕ) → (has j q ≡ true) ↔ Under ns r j)
      × ((j : ℕ) → has j q ≡ true → Live ns j)
  bfs-Under =
      let (q, seen, e, h, c, hr) =
        bfs-collected fuel 0 ns r (set no_marks r true) (r ∷ []) (omega arith) (omega arith) t
          first-Holds (λ k lt. absurd (omega arith)) (ground arith) in
      (q, e, (λ j. (h.sound j, λ u. has_of_Under q c hr u)), h.live)
