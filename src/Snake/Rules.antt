-- ===== src/Snake/Rules.antt =====
-- The rules of src/snake.c keep the game valid, whatever keys are pressed and however long it runs.
use mykernel.Base.{
  ℕ, zero, suc, ◌+◌, ◌%◌, ◌^◌, ◌<◌, ◌≤◌, ◌≡◌, refl, sym, ap, ◌∙◌, Bool, true, false, ◌&&◌, ◌||◌,
  some, List, [], ◌∷◌, ◌++◌, arith, ltb, ◌==◌, u32, if◌then◌else◌, length, Bool-cases, inl, inr,
}
use mathlib.Core.Path.{subst}
use mathlib.Core.Option.{some_inj}
use mykernel.Calc.{negated}
use mykernel.Keyboard.{key_up, key_down, key_left, key_right}
use mykernel.Snake.{
  max_len, Snake, same_cell, on_snake, next_rng, rand_u, place_food, shifted, last_cell, turned,
  off_grid, grown, advance, next_cell, moved, step, queued, handle_key, new_game, minus_one,
}

-- the cells are in the grid
abbrev pub InGrid : (w h : ℕ) → List (ℕ × ℕ) → Type 0
InGrid w h [] = Unit
InGrid w h (c ∷ body) = (c.0 < w) × (c.1 < h) × InGrid w h body

-- no cell is there twice
abbrev pub Apart : List (ℕ × ℕ) → Type 0
Apart [] = Unit
Apart (c ∷ body) = (on_snake c body ≡ false) × Apart body

-- the cells of a snake on a grid
pub record Cells (w h : ℕ) (body : List (ℕ × ℕ)) : Type 0 where
  pub some_cell : 0 < length body
  pub short : length body ≤ max_len
  pub in_grid : InGrid w h body
  pub apart : Apart body

-- The snake is in the grid and does not meet itself, and the food is in the grid beside it.
pub record Valid (s : Snake) : Type 0 where
  pub grid : (0 < s.grid_w) × (0 < s.grid_h)
  pub cells : Cells s.grid_w s.grid_h s.body
  pub food_apart : on_snake s.food s.body ≡ false
  pub food_inside : (s.food.0 < s.grid_w) × (s.food.1 < s.grid_h)

place_food-Valid :
    (n : ℕ) (s s' : Snake)
    → (0 < s.grid_w) × (0 < s.grid_h)
    → Cells s.grid_w s.grid_h s.body
    → place_food n s ≡ some s'
    → Valid s'
unfolding place_food
place_food-Valid zero s s' g h e = absurd (ground (arith, e))
place_food-Valid (suc n) s s' g h e =
    let cell : ℕ × ℕ = (rand_u s.rng % s.grid_w, rand_u (next_rng s.rng) % s.grid_h) in
    let t : Snake = record s { food = cell; rng = next_rng (next_rng s.rng) } in
    elim (Bool-cases (on_snake cell s.body)) [
      | inl on ↦
          let again : place_food n t ≡ some s' = sym (rw (on, place_food) refl) ∙ e in
          place_food-Valid n t s' g h again
      | inr off ↦
          let same : some t ≡ some s' = sym (rw (off, place_food) refl) ∙ e in
          let (wide, high) = g in
          subst Valid (some_inj.0 same) (record {
            grid = g;
            cells = h;
            food_apart = off;
            food_inside = (omega arith, omega arith);
          })
    ]

on_snake-shifted :
    (c : ℕ × ℕ) (body : List (ℕ × ℕ)) → on_snake c body ≡ false → on_snake c (shifted body) ≡ false
on_snake-shifted c [] h = refl
on_snake-shifted c (b ∷ []) h = refl
on_snake-shifted c (b ∷ a ∷ body) h =
    let here : same_cell b c ≡ false = or_left (same_cell b c) _ h in
    rw here (on_snake-shifted c (a ∷ body) (or_right (same_cell b c) _ h))
  where
    or_left : (x y : Bool) → (x || y) ≡ false → x ≡ false
    or_left true y h = h
    or_left false y h = refl

    or_right : (x y : Bool) → (x || y) ≡ false → y ≡ false
    or_right true y h = absurd (ground (arith, h))
    or_right false y h = h

shifted-Apart : (body : List (ℕ × ℕ)) → Apart body → Apart (shifted body)
shifted-Apart [] h = tt
shifted-Apart (b ∷ []) h = tt
shifted-Apart (b ∷ a ∷ body) h = (on_snake-shifted b (a ∷ body) h.0, shifted-Apart (a ∷ body) h.1)

shifted-InGrid : (w h : ℕ) (body : List (ℕ × ℕ)) → InGrid w h body → InGrid w h (shifted body)
shifted-InGrid w h [] i = tt
shifted-InGrid w h (b ∷ []) i = tt
shifted-InGrid w h (b ∷ a ∷ body) (x, y, rest) = (x, y, shifted-InGrid w h (a ∷ body) rest)

length-shifted : (body : List (ℕ × ℕ)) → 0 < length body → length (shifted body) + 1 ≡ length body
length-shifted [] some_cell = absurd (omega arith)
length-shifted (b ∷ []) some_cell = refl
length-shifted (b ∷ a ∷ body) some_cell = omega (arith, length-shifted (a ∷ body) (omega arith))

-- the cells with the last one behind them
shifted-last : (body : List (ℕ × ℕ)) → 0 < length body → shifted body ++ last_cell body ∷ [] ≡ body
shifted-last [] some_cell = absurd (omega arith)
shifted-last (b ∷ []) some_cell = refl
shifted-last (b ∷ a ∷ body) some_cell = ap (λ t. b ∷ t) (shifted-last (a ∷ body) (omega arith))

-- The snake moves to a free cell, and grows at most to its longest.
advance-Valid :
    (n : ℕ) (cell : ℕ × ℕ) (s s' : Snake)
    → Valid s
    → on_snake cell s.body ≡ false
    → (cell.0 < s.grid_w) × (cell.1 < s.grid_h)
    → advance n cell s ≡ some s'
    → Valid s'
advance-Valid n cell s s' v free (wide, high) e =
    let c = v.cells in
    let body = cell ∷ shifted s.body in
    let long = length-shifted s.body c.some_cell in
    let short = c.short in
    let moved_cells : Cells s.grid_w s.grid_h body = record {
      some_cell = omega arith;
      short = omega arith;
      in_grid = (wide, high, shifted-InGrid s.grid_w s.grid_h s.body c.in_grid);
      apart = (on_snake-shifted cell s.body free, shifted-Apart s.body c.apart);
    } in
    elim (Bool-cases (same_cell cell s.food)) [
      | inr other ↦
          let same : some (record s { body = body }) ≡ some s' = sym (rw other refl) ∙ e in
          subst Valid (some_inj.0 same) (record {
            grid = v.grid;
            cells = moved_cells;
            food_apart = rw other (on_snake-shifted s.food s.body v.food_apart);
            food_inside = v.food_inside;
          })
      | inl eaten ↦
          let t : Snake = record s {
            body = grown body (last_cell s.body);
            score = u32 (s.score + 1);
          } in
          let run : place_food n t ≡ some s' = sym (rw eaten refl) ∙ e in
          place_food-Valid n t s' v.grid (grown-Cells moved_cells) run
    ]
  where
    grown-Cells :
        Cells s.grid_w s.grid_h (cell ∷ shifted s.body)
        → Cells s.grid_w s.grid_h (grown (cell ∷ shifted s.body) (last_cell s.body))
    grown-Cells h = elim (Bool-cases (ltb (length (cell ∷ shifted s.body)) max_len)) [
      | inr full ↦ rw full h
      | inl room ↦
          let back = shifted-last s.body v.cells.some_cell in
          let long = length-shifted s.body v.cells.some_cell in
          rw (room, back)
            (record {
              some_cell = omega arith;
              short = ground (arith, room);
              in_grid = (wide, high, v.cells.in_grid);
              apart = (free, v.cells.apart);
            })
    ]

turned-Valid : (s : Snake) → Valid s → Valid (turned s)
turned-Valid s v =
    elim (Bool-cases (s.next_dx == negated s.dir_x && s.next_dy == negated s.dir_y)) [
      | inl e ↦ rw e v
      | inr e ↦ rw e (record {
        grid = v.grid;
        cells = v.cells;
        food_apart = v.food_apart;
        food_inside = v.food_inside;
      })
    ]

moved-Valid : (n : ℕ) (s s' : Snake) → Valid s → moved n s ≡ some s' → Valid s'
moved-Valid n s s' v e =
    elim (Bool-cases (off_grid s (next_cell s) || on_snake (next_cell s) s.body)) [
      | inl hit ↦
          let same : some (record s { dead = true }) ≡ some s' = sym (rw hit refl) ∙ e in
          subst Valid (some_inj.0 same) (record {
            grid = v.grid;
            cells = v.cells;
            food_apart = v.food_apart;
            food_inside = v.food_inside;
          })
      | inr free ↦
          let run : advance n (next_cell s) s ≡ some s' = sym (rw free refl) ∙ e in
          let (inside, apart) = both_false (off_grid s (next_cell s)) _ free in
          advance-Valid n (next_cell s) s s' v apart
            (ground (arith, inside), ground (arith, inside)) run
    ]
  where
    both_false : (x y : Bool) → (x || y) ≡ false → (x ≡ false) × (y ≡ false)
    both_false true y h = absurd (ground (arith, h))
    both_false false y h = (refl, h)

step-Valid : (n : ℕ) (s s' : Snake) → Valid s → step n s ≡ some s' → Valid s'
unfolding step
step-Valid n s s' v e = elim (Bool-cases s.dead) [
  | inl over ↦
      let same : some s ≡ some s' = sym (rw (over, step) refl) ∙ e in
      subst Valid (some_inj.0 same) v
  | inr playing ↦
      let run : moved n (turned s) ≡ some s' = sym (rw (playing, step) refl) ∙ e in
      moved-Valid n (turned s) s' (turned-Valid s v) run
]

queued-Valid : (d : ℕ × ℕ) (s : Snake) → Valid s → Valid (queued d s)
queued-Valid d s v = elim (Bool-cases (d.0 == negated s.dir_x && d.1 == negated s.dir_y)) [
  | inl e ↦ rw e v
  | inr e ↦ rw e (record {
    grid = v.grid;
    cells = v.cells;
    food_apart = v.food_apart;
    food_inside = v.food_inside;
  })
]

if-Valid : (b : Bool) (s t : Snake) → Valid s → Valid t → Valid (if b then s else t)
if-Valid true s t v w = v
if-Valid false s t v w = w

handle_key-Valid : (c : ℕ) (s : Snake) → Valid s → Valid (handle_key c s)
unfolding handle_key
handle_key-Valid c s v =
    let up = queued (0, minus_one) s in
    let down = queued (0, 1) s in
    let left = queued (minus_one, 0) s in
    let right = queued (1, 0) s in
    let w : Bool = c == b'w' || c == b'W' || c == key_up in
    let z : Bool = c == b's' || c == b'S' || c == key_down in
    let a : Bool = c == b'a' || c == b'A' || c == key_left in
    let d : Bool = c == b'd' || c == b'D' || c == key_right in
    let rights = if-Valid d right s (queued-Valid (1, 0) s v) v in
    let lefts = if-Valid a left (if d then right else s) (queued-Valid (minus_one, 0) s v) rights in
    let downs =
      if-Valid z down (if a then left else (if d then right else s)) (queued-Valid (0, 1) s v)
        lefts in
    if-Valid w up (if z then down else (if a then left else (if d then right else s)))
      (queued-Valid (0, minus_one) s v) downs

-- What happens in a game: keys and steps of the timer, in any order.
pub data Plays (s : Snake) : Snake → Type 0 where
  begins : Plays s s
  presses : (c : ℕ) {t : Snake} → Plays s t → Plays s (handle_key c t)
  ticks : (fuel : ℕ) {t t' : Snake} → Plays s t → step fuel t ≡ some t' → Plays s t'

-- Every state that is reached from a valid game by any keys and steps is valid: the snake has 1 to
-- 200 cells, all different and in the grid, and the food is in the grid beside it.
pub Plays-Valid : {s t : Snake} → Valid s → Plays s t → Valid t
Plays-Valid v begins = v
Plays-Valid v (presses c {t = t} p) = handle_key-Valid c t (Plays-Valid v p)
Plays-Valid v (ticks fuel {t = t} {t' = t'} p e) = step-Valid fuel t t' (Plays-Valid v p) e

-- The start of a game is valid: on a grid that is at least four cells wide and one high, and below
-- 2^31 cells in each direction.
pub new_game-Valid :
    (fuel w h rng : ℕ) (s : Snake)
    → 4 ≤ w
    → w < 2 ^ 31
    → 1 ≤ h
    → new_game fuel w h rng ≡ some s
    → Valid s
unfolding new_game
new_game-Valid fuel w h rng s wide small high e =
    place_food-Valid fuel _ s (omega arith, omega arith)
      (record {
        some_cell = omega arith;
        short = omega arith;
        in_grid =
            (omega arith, omega arith, (omega arith, omega arith, (omega arith, omega arith, tt)));
        apart = (ground arith, (ground arith, (refl, tt)));
      })
      e
