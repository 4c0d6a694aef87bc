-- ===== src/Snake.antt =====
-- src/snake.c: the rules of the snake game. Coordinates and directions are 32-bit patterns, a `char`
-- is its byte. What is drawn and the sounds are left out, with the variables that only they use.
pub mod Rules
mod Tests
use mykernel.Base.{
  ℕ, zero, suc, ◌+◌, ◌-◌, ◌*◌, ◌/◌, ◌%◌, ◌^◌, Bool, true, false, ◌&&◌, ◌||◌, not, Option, none,
  some, List, [], ◌∷◌, ◌++◌, leb, ltb, ◌==◌, u32, if◌then◌else◌, length,
}
use mykernel.Calc.{is_negative, negated}
use mykernel.Keyboard.{key_up, key_down, key_left, key_right}

abbrev pub max_len : ℕ
max_len = 200

-- the static variables; `body` is `sx` and `sy` up to `slen`
pub record Snake : Type 0 where
  pub grid_w : ℕ
  pub grid_h : ℕ
  pub body : List (ℕ × ℕ)
  pub dir_x : ℕ
  pub dir_y : ℕ
  pub next_dx : ℕ
  pub next_dy : ℕ
  pub food : ℕ × ℕ
  pub score : ℕ
  pub dead : Bool
  pub rng : ℕ

abbrev pub minus_one : ℕ
minus_one = 2 ^ 32 - 1

abbrev pub same_cell : ℕ × ℕ → ℕ × ℕ → Bool
same_cell a b = a.0 == b.0 && a.1 == b.1

-- one of the cells of the snake
abbrev pub on_snake : ℕ × ℕ → List (ℕ × ℕ) → Bool
on_snake c [] = false
on_snake c (b ∷ body) = same_cell b c || on_snake c body

abbrev pub next_rng : ℕ → ℕ
next_rng rng = u32 (rng * 1103515245 + 12345)

-- the number of `rand_u`, whose state is `next_rng`
abbrev pub rand_u : ℕ → ℕ
rand_u rng = next_rng rng / 2 ^ 16 % 2 ^ 15

-- `place_food`, with one unit of fuel for each cell that is tried: there is none if it is spent
unfoldable pub place_food : (fuel : ℕ) → Snake → Option Snake
place_food zero s = none
place_food (suc n) s =
    let cell : ℕ × ℕ = (rand_u s.rng % s.grid_w, rand_u (next_rng s.rng) % s.grid_h) in
    let rng : ℕ = next_rng (next_rng s.rng) in
    elim (on_snake cell s.body) [
      | true ↦ place_food n (record s { food = cell; rng = rng })
      | false ↦ some (record s { food = cell; rng = rng })
    ]

-- the cells without the last one, and the last one
abbrev pub shifted : List (ℕ × ℕ) → List (ℕ × ℕ)
shifted [] = []
shifted (c ∷ []) = []
shifted (c ∷ b ∷ body) = c ∷ shifted (b ∷ body)

abbrev pub last_cell : List (ℕ × ℕ) → ℕ × ℕ
last_cell [] = (0, 0)
last_cell (c ∷ []) = c
last_cell (c ∷ b ∷ body) = last_cell (b ∷ body)

abbrev pub head_cell : List (ℕ × ℕ) → ℕ × ℕ
head_cell [] = (0, 0)
head_cell (c ∷ body) = c

-- the pending direction, unless it is the reverse
abbrev pub turned : Snake → Snake
turned s =
    if s.next_dx == negated s.dir_x && s.next_dy == negated s.dir_y
    then s
    else record s { dir_x = s.next_dx; dir_y = s.next_dy }

abbrev pub off_grid : Snake → ℕ × ℕ → Bool
off_grid s c = is_negative c.0 || is_negative c.1 || leb s.grid_w c.0 || leb s.grid_h c.1

abbrev pub grown : List (ℕ × ℕ) → ℕ × ℕ → List (ℕ × ℕ)
grown body tail = if ltb (length body) max_len then body ++ tail ∷ [] else body

-- the snake moves to the cell
abbrev pub advance : (fuel : ℕ) → ℕ × ℕ → Snake → Option Snake
advance fuel cell s =
    let body : List (ℕ × ℕ) = cell ∷ shifted s.body in
    if same_cell cell s.food
    then place_food fuel
        (record s { body = grown body (last_cell s.body); score = u32 (s.score + 1) })
    else some (record s { body = body })

abbrev pub next_cell : Snake → ℕ × ℕ
next_cell s = let head = head_cell s.body in (u32 (head.0 + s.dir_x), u32 (head.1 + s.dir_y))

abbrev pub moved : (fuel : ℕ) → Snake → Option Snake
moved fuel s =
    if off_grid s (next_cell s) || on_snake (next_cell s) s.body
    then some (record s { dead = true })
    else advance fuel (next_cell s) s

unfoldable pub step : (fuel : ℕ) → Snake → Option Snake
step fuel s = if s.dead then some s else moved fuel (turned s)

-- the direction is queued if it is not the reverse of the movement
abbrev pub queued : ℕ × ℕ → Snake → Snake
queued d s =
    if d.0 == negated s.dir_x && d.1 == negated s.dir_y
    then s
    else record s { next_dx = d.0; next_dy = d.1 }

unfoldable pub handle_key : ℕ → Snake → Snake
handle_key c s =
    if c == b'w' || c == b'W' || c == key_up
    then queued (0, minus_one) s
    else if c == b's' || c == b'S' || c == key_down
    then queued (0, 1) s
    else if c == b'a' || c == b'A' || c == key_left
    then queued (minus_one, 0) s
    else if c == b'd' || c == b'D' || c == key_right
    then queued (1, 0) s
    else s

-- the start of a game on a grid, with the state of the random numbers
unfoldable pub new_game : (fuel w h rng : ℕ) → Option Snake
new_game fuel w h rng = place_food fuel (record {
  grid_w = w;
  grid_h = h;
  body =
      (w / 2, h / 2)
      ∷ (u32 (w / 2 + (2 ^ 32 - 1)), h / 2)
      ∷ (u32 (w / 2 + (2 ^ 32 - 2)), h / 2)
      ∷ [];
  dir_x = 1;
  dir_y = 0;
  next_dx = 1;
  next_dy = 0;
  food = (0, 0);
  score = 0;
  dead = false;
  rng = rng;
})
