-- ===== src/Snake/Tests.antt =====
-- A game of src/snake.c, and the theorem on its rules there.
use mykernel.Base.{◌≡◌, refl, Option, none, some, [], ◌∷◌, arith, true}
use mykernel.Snake.{Snake, place_food, step, handle_key, new_game}
use mykernel.Snake.Rules.{Valid, Plays, begins, presses, ticks, Plays-Valid, new_game-Valid}

abbrev or_none : Option Snake → Snake
or_none (some s) = s
or_none none = record {
  grid_w = 0;
  grid_h = 0;
  body = [];
  dir_x = 0;
  dir_y = 0;
  next_dx = 0;
  next_dy = 0;
  food = (0, 0);
  score = 0;
  dead = true;
  rng = 0;
}

-- the grid of mode 13
abbrev start : Snake
start = or_none (new_game 100 40 25 7)

start-Valid : Valid start
unfolding new_game place_food
start-Valid = new_game-Valid 100 40 25 7 start (omega arith) (omega arith) (omega arith) refl

-- a turn upwards
abbrev after_turn : Snake
after_turn = or_none (step 100 (handle_key b'w' start))

turn_moves : after_turn.body ≡ (20, 11) ∷ (20, 12) ∷ (19, 12) ∷ []
unfolding step handle_key new_game place_food
turn_moves = refl

played : Plays start after_turn
unfolding step handle_key new_game place_food
played = ticks 100 (presses b'w' begins) refl

Plays-Valid_example : Valid after_turn
Plays-Valid_example = Plays-Valid start-Valid played
