-- ===== src/Ramfs/Collect.antt =====
-- The inner loop of the search in `fs_rm_subtree` of src/fs.c takes the children of one node in.
use mykernel.Base.{
  ℕ, suc, ◌+◌, ◌<◌, ◌≤◌, ◌≡◌, inl, inr, sym, ap, ◌∙◌, Bool, true, false, ◌||◌, not, Option, none,
  some, List, [], ◌∷◌, ◌++◌, arith, ◌==◌, leb, length, length-append, length-set, set, Bool-cases,
  ==→eq, ==-refl,
}
use mathlib.Core.Path.{subst}
use mathlib.Core.List.{append-nil, append_assoc}
use mykernel.Ramfs.Node.{Node, max_nodes, node_at, is_free, parent_is}
use mykernel.Ramfs.Remove.{Search, visit, scan_from}
use mykernel.Ramfs.Marks.{has, has-append, marked, marked-set, marks, marks-set, marks-lt}
use mykernel.Ramfs.Tree.{Live}

-- `i` is `r`, or hangs under it through nodes in use.
pub data Under (ns : List Node) (r : ℕ) : ℕ → Type 0 where
  top : {i : ℕ} → i ≡ r → Under ns r i
  under : {i : ℕ} (p : ℕ) → Live ns i → (node_at ns i).parent ≡ some p → Under ns r p → Under ns r i

-- What holds of the marks and the queue all the time.
pub record Holds (ns : List Node) (r : ℕ) (seen : List Bool) (queue : List ℕ) : Type 0 where
  pub len : length seen ≡ max_nodes
  pub same : (j : ℕ) → marked seen j ≡ has j queue
  pub count : marks seen ≡ length queue
  pub live : (j : ℕ) → has j queue ≡ true → Live ns j
  pub sound : (j : ℕ) → has j queue ≡ true → Under ns r j

-- The children of `u` among the `n` indices from `i` on are in the queue.
abbrev pub Covers : List Node → (i n u : ℕ) → List ℕ → Type 0
Covers ns i n u queue =
    (j : ℕ) → i ≤ j → j < i + n → Live ns j → (node_at ns j).parent ≡ some u → has j queue ≡ true

-- A search that went on from `queue`: more indices behind it.
pub record Grown (ns : List Node) (r i n u : ℕ) (queue : List ℕ) (result : Option Search)
    : Type 0 where
  pub seen' : List Bool
  pub more : List ℕ
  pub done : result ≡ some (seen', queue ++ more)
  pub holds : Holds ns r seen' (queue ++ more)
  pub covers : Covers ns i n u (queue ++ more)

pub parent_is→ : (o : Option ℕ) (u : ℕ) → parent_is o u ≡ true → o ≡ some u
parent_is→ none u h = absurd (ground arith)
parent_is→ (some p) u h = ground arith

module _ (ns : List Node) (r u : ℕ) where
  -- One node: it is taken in, or it need not be.
  visit-Grown :
      (i : ℕ) (n : Node) (seen : List Bool) (queue : List ℕ)
      → n ≡ node_at ns i
      → i < max_nodes
      → Holds ns r seen queue
      → has u queue ≡ true
      → Grown ns r i 1 u queue (visit i u n (seen, queue))
  unfolding visit
  visit-Grown i n seen queue here lt h hu =
      let skips = is_free n.type || (not (parent_is n.parent u) || marked seen i) in
      elim (Bool-cases skips) [
        | inl skip ↦ record {
          seen' = seen;
          more = [];
          done = rw (append-nil queue) (rw (skip, visit));
          holds = rw (append-nil queue) h;
          covers = λ j lo hi l e.
              let at : i ≡ j = omega arith in
              ground (arith, h.same i, has-append j queue [], ==-refl u);
        }
        | inr take ↦
            let l : Live ns i = ground arith in
            let par : (node_at ns i).parent ≡ some u =
              ap (λ (x : Node). x.parent) (sym here) ∙ parent_is→ n.parent u (ground arith) in
            let new : marked seen i ≡ false = ground arith in
            let room : leb max_nodes (length queue) ≡ false =
              ground (arith, marks-lt seen i (omega (arith, h.len)) new, h.count, h.len) in
            record {
              seen' = set seen i true;
              more = i ∷ [];
              done = rw (take, room, visit);
              holds = record {
                len = length-set seen i true ∙ h.len;
                same = λ j. ground (
                  arith,
                  marked-set seen i j (omega (arith, h.len)),
                  h.same j,
                  has-append j queue (i ∷ []),
                );
                count = omega (
                  arith,
                  marks-set seen i (omega (arith, h.len)) new,
                  h.count,
                  length-append queue (i ∷ []),
                );
                live = λ j m. elim (Bool-cases (i == j)) [
                  | inl new_one ↦ subst (Live ns) (==→eq i j new_one) l
                  | inr there ↦ h.live j (ground (arith, has-append j queue (i ∷ [])))
                ];
                sound = λ j m. elim (Bool-cases (i == j)) [
                  | inl new_one ↦
                      subst (Under ns r) (==→eq i j new_one) (under u l par (h.sound u hu))
                  | inr there ↦ h.sound j (ground (arith, has-append j queue (i ∷ [])))
                ];
              };
              covers = λ j lo hi lj e.
                  let at : i ≡ j = omega arith in
                  ground (arith, has-append j queue (i ∷ []), ==-refl j);
            }
      ]

  Grown-join :
      (i m : ℕ) (queue more : List ℕ) {result : Option Search}
      → Covers ns i 1 u (queue ++ more)
      → Grown ns r (i + 1) m u (queue ++ more) result
      → Grown ns r i (suc m) u queue result
  Grown-join i m queue more c g =
      let assoc = append_assoc queue more g.more in
      record {
        seen' = g.seen';
        more = more ++ g.more;
        done = rw (← assoc) g.done;
        holds = subst (Holds ns r g.seen') assoc g.holds;
        covers = λ j lo hi l e. elim (Bool-cases (i == j)) [
          | inl first ↦
              rw (← assoc)
                (ground (arith, has-append j (queue ++ more) g.more, c j lo (ground arith) l e))
          | inr later ↦ rw (← assoc) (g.covers j (ground arith) (omega arith) l e)
        ];
      }

  -- The whole inner loop.
  pub scan_from-Grown :
      (i : ℕ) (suffix : List Node) (seen : List Bool) (queue : List ℕ)
      → i + length suffix ≡ max_nodes
      → ((k : ℕ) → node_at suffix k ≡ node_at ns (i + k))
      → Holds ns r seen queue
      → has u queue ≡ true
      → Grown ns r i (length suffix) u queue (scan_from i u suffix (seen, queue))
  unfolding scan_from
  scan_from-Grown i [] seen queue len at h hu = record {
    seen' = seen;
    more = [];
    done = rw (append-nil queue);
    holds = rw (append-nil queue) h;
    covers = λ j lo hi l e. absurd (omega arith);
  }
  scan_from-Grown i (n ∷ ns') seen queue len at h hu =
      let g =
        visit-Grown i n seen queue (at 0 ∙ ap (node_at ns) (omega arith)) (omega arith) h hu in
      rw (g.done, scan_from)
        (Grown-join i (length ns') queue g.more g.covers (
          scan_from-Grown (i + 1) ns' g.seen' (queue ++ g.more) (omega arith)
            (λ k. at (suc k) ∙ ap (node_at ns) (omega arith)) g.holds
            (ground (arith, has-append u queue g.more))))
