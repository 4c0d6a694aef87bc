-- ===== src/Sched/Exit.antt =====
-- `sched_exit` of src/sched.c.
use mykernel.Base.{
  ℕ, ◌+◌, ◌-◌, ◌%◌, ◌<◌, ◌≡◌, ◌≢◌, inl, inr, refl, ◌∙◌, some, arith, if◌then◌else◌, Option-cases,
  ◌==◌, length, set, length-set,
}
use mykernel.Sched.{
  free, ready, running, Sched, task_at, max_tasks, set_state, context_switch, pick_from, pick_next,
  sched_exit, exit_from,
}
use mykernel.Sched.Table.{
  state_of, task_at-set, state_of-set_state, id_of-set_state, length-set_state,
  state_of-context_switch, id_of-context_switch, length-context_switch,
}
use mykernel.Sched.Pick.{pick_from-Chosen, pick_from-none}
use mykernel.Sched.Inv.{Runs}

-- the table with the slot of the leaving task given back
abbrev left : ℕ → Sched → Sched
left c s = record s {
  tasks = set s.tasks c (record (task_at s.tasks c) { state = free; stack_base = 0 });
}

abbrev resumed : (c next : ℕ) → Sched → Sched
resumed c next s =
    let ts = set_state (left c s).tasks next running in
    context_switch c (task_at ts next).sp (record (left c s) { tasks = ts; current = some next })

module _ (now : ℕ) (s : Sched) (v : Runs now s) where
  left_at :
      (j : ℕ)
      → task_at (left now s).tasks j ≡ (
          if now == j
          then record (task_at s.tasks now) { state = free; stack_base = 0 }
          else task_at s.tasks j)
  left_at j =
      task_at-set s.tasks now j (record (task_at s.tasks now) { state = free; stack_base = 0 })
        (omega (arith, v.size, v.within))

  -- Behind the shell there is always a ready task to go on with.
  pick_next-left :
      now ≢ 0
      → (next : ℕ) × (pick_next (left now s) ≡ some next)
        × (next < max_tasks)
        × (state_of s.tasks next ≡ ready)
        × (next ≢ now)
  unfolding pick_next
  pick_next-left ne = elim (Option-cases (pick_from max_tasks 1 now (left now s).tasks)) [
    | inl (next, e) ↦
        let c = pick_from-Chosen max_tasks 1 now (left now s).tasks next e in
        (
          next,
          ground (arith, v.current, left_at now, v.ids now v.within),
          omega (arith, c.at),
          ground (arith, c.ready, left_at next),
          λ q. absurd (ground (arith, c.ready, left_at next)),
        )
    | inr e ↦ absurd (
        ground (
          arith,
          pick_from-none max_tasks 1 now (left now s).tasks e (max_tasks - now)
              (omega (arith, v.within)) (omega (arith, v.within)),
          back,
          left_at 0,
          v.others 0,
          v.shell,
        ))
  ]
    where
      back : (now + (max_tasks - now)) % max_tasks ≡ 0
      back = omega (arith, v.within)

  exit_lem :
      now ≢ 0 → (next : ℕ) → pick_next (left now s) ≡ some next → sched_exit s ≡ resumed now next s
  unfolding sched_exit exit_from
  exit_lem ne next e = ground (arith, v.current, v.ids now v.within, e)

  module _ (next : ℕ) (lt : next < max_tasks) (r : state_of s.tasks next ≡ ready)
      (ne : next ≢ now) where
    len : length (left now s).tasks ≡ max_tasks
    len = omega (
      arith,
      v.size,
      length-set s.tasks now (record (task_at s.tasks now) { state = free; stack_base = 0 }),
    )

    abbrev woken : Sched
    woken = record (left now s) {
      tasks = set_state (left now s).tasks next running;
      current = some next;
    }

    len' : length woken.tasks ≡ max_tasks
    len' = omega (arith, len, length-set_state (left now s).tasks next running)

    state_of-resumed :
        (j : ℕ)
        → state_of (resumed now next s).tasks j
          ≡ (if next == j then running else if now == j then free else state_of s.tasks j)
    state_of-resumed j =
        rw
          (state_of-context_switch now (task_at woken.tasks next).sp woken
            (omega (arith, len', v.within)) j)
          (ground (
            arith,
            state_of-set_state (left now s).tasks next j running (omega (arith, len)),
            left_at j,
          ))

    resumed-Runs : now ≢ 0 → Runs next (resumed now next s)
    unfolding context_switch
    resumed-Runs away = record {
      size = omega (arith, len', length-context_switch now (task_at woken.tasks next).sp woken);
      enabled = v.enabled;
      current = refl;
      within = lt;
      runs = ground (arith, state_of-resumed next);
      others = λ i h other. ground (arith, state_of-resumed i, v.others i);
      ids = λ i h.
          id_of-context_switch now (task_at woken.tasks next).sp woken
            (omega (arith, len', v.within)) i
          ∙ ground (
            arith,
            id_of-set_state (left now s).tasks next i running (omega (arith, len)),
            left_at i,
            v.ids i,
          );
      shell = ground (arith, state_of-resumed 0, v.shell);
    }

  -- When a task other than the shell exits in a valid table, its slot is free afterwards, another
  -- task that was ready runs, no other state changes, and the table is valid.
  pub sched_exit-Runs :
      now ≢ 0
      → (next : ℕ) × (next ≢ now)
        × (state_of s.tasks next ≡ ready)
        × Runs next (sched_exit s)
        × ((j : ℕ)
            → state_of (sched_exit s).tasks j
              ≡ (if next == j then running else if now == j then free else state_of s.tasks j))
  sched_exit-Runs away =
      let (next, e, lt, r, ne) = pick_next-left away in
      (
        next,
        ne,
        r,
        rw (exit_lem away next e) (resumed-Runs next lt r ne away),
        λ j. rw (exit_lem away next e) (state_of-resumed next lt r ne j),
      )
