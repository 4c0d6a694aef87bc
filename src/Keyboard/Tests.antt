-- ===== src/Keyboard/Tests.antt =====
-- Runs of src/keyboard.c, and its theorems there.
use mykernel.Base.{ℕ, ◌≡◌, refl, false, some, List, [], ◌∷◌, ◌++◌, arith, replicate, map}
use mykernel.Keyboard.{
  Keyboard, kbd_buffer_push, keyboard_irq_handler, serial_key, escape, ascii_of, arrow, push_arrow,
  handle_code,
}
use mykernel.Keyboard.Ring.{IsValid, queue}
use mykernel.Keyboard.Typing.{Between, AllPlain, types, types-queue}

-- an empty buffer whose indices stand at its end
abbrev quiet : Keyboard
quiet = record {
  kbd_buffer = replicate 256 0;
  kbd_head = 255;
  kbd_tail = 255;
  shift_pressed = false;
  extended = false;
}

quiet-IsValid : IsValid quiet
quiet-IsValid = record { size = refl; head = omega arith; tail = omega arith }

-- the keys h and i
abbrev hi : List ℕ
hi = 0x23 ∷ 0x17 ∷ []

hi-AllPlain : AllPlain false hi
unfolding ascii_of
hi-AllPlain = ((omega arith, refl, refl), ((omega arith, refl, refl), tt))

-- the bytes of a cursor key on the serial line
escape_run : serial_key (0x1B ∷ b'[' ∷ b'D' ∷ b'x' ∷ []) ≡ (some 0x13, b'x' ∷ [])
unfolding serial_key escape
escape_run = refl

-- the two codes of a cursor key
arrow_run : queue (keyboard_irq_handler 0x48 (keyboard_irq_handler 0xE0 quiet)) ≡ 0x11 ∷ []
unfolding keyboard_irq_handler handle_code push_arrow kbd_buffer_push arrow
arrow_run = refl

types-queue_example :
    Between false (types hi quiet)
    × (queue (types hi quiet) ≡ queue quiet ++ map (ascii_of false) hi)
types-queue_example =
    types-queue false hi quiet (quiet-IsValid, refl, refl) hi-AllPlain (omega arith)
