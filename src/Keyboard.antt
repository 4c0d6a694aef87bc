-- ===== src/Keyboard.antt =====
-- src/keyboard.c: scan codes of the PS/2 keyboard, the ring buffer between the interrupt and the
-- reader, and the serial line behind it. A `char` is its byte.
pub mod Ring
pub mod Typing
mod Tests
use mykernel.Base.{
  ℕ, zero, suc, ◌+◌, ◌%◌, Bool, true, false, ◌&&◌, ◌||◌, not, Option, none, some, List, [], ◌∷◌,
  leb, ◌==◌, if◌then◌else◌, get_or, set,
}

-- `KBD_BUFFER_SIZE`
abbrev pub buffer_size : ℕ
buffer_size = 256

-- the static variables
pub record Keyboard : Type 0 where
  pub kbd_buffer : List ℕ
  pub kbd_head : ℕ
  pub kbd_tail : ℕ
  pub shift_pressed : Bool
  pub extended : Bool

abbrev pub sc_lshift : ℕ
sc_lshift = 0x2A

abbrev pub sc_rshift : ℕ
sc_rshift = 0x36

abbrev pub sc_extended : ℕ
sc_extended = 0xE0

abbrev pub key_up : ℕ
key_up = 0x11

abbrev pub key_down : ℕ
key_down = 0x12

abbrev pub key_left : ℕ
key_left = 0x13

abbrev pub key_right : ℕ
key_right = 0x14

-- What the C array has behind the list is 0.
abbrev pub scancode_to_ascii : List ℕ
scancode_to_ascii =
    0 ∷ 27 ∷ b'1' ∷ b'2' ∷ b'3' ∷ b'4' ∷ b'5' ∷ b'6' ∷ b'7' ∷ b'8' ∷ b'9' ∷ b'0' ∷ b'-' ∷ b'=' ∷ 8
    ∷ 9 ∷ b'q' ∷ b'w' ∷ b'e' ∷ b'r' ∷ b't' ∷ b'y' ∷ b'u' ∷ b'i' ∷ b'o' ∷ b'p' ∷ b'[' ∷ b']' ∷ 10 ∷ 0
    ∷ b'a' ∷ b's' ∷ b'd' ∷ b'f' ∷ b'g' ∷ b'h' ∷ b'j' ∷ b'k' ∷ b'l' ∷ b';' ∷ 39 ∷ 96 ∷ 0 ∷ 92 ∷ b'z'
    ∷ b'x' ∷ b'c' ∷ b'v' ∷ b'b' ∷ b'n' ∷ b'm' ∷ b',' ∷ b'.' ∷ b'/' ∷ 0 ∷ b'*' ∷ 0 ∷ b' ' ∷ 0 ∷ []

abbrev pub scancode_to_ascii_shift : List ℕ
scancode_to_ascii_shift =
    0 ∷ 27 ∷ b'!' ∷ b'@' ∷ b'#' ∷ b'$' ∷ b'%' ∷ b'^' ∷ b'&' ∷ b'*' ∷ b'(' ∷ b')' ∷ b'_' ∷ b'+' ∷ 8
    ∷ 9 ∷ b'Q' ∷ b'W' ∷ b'E' ∷ b'R' ∷ b'T' ∷ b'Y' ∷ b'U' ∷ b'I' ∷ b'O' ∷ b'P' ∷ b'{' ∷ b'}' ∷ 10 ∷ 0
    ∷ b'A' ∷ b'S' ∷ b'D' ∷ b'F' ∷ b'G' ∷ b'H' ∷ b'J' ∷ b'K' ∷ b'L' ∷ b':' ∷ 34 ∷ b'~' ∷ 0 ∷ b'|'
    ∷ b'Z' ∷ b'X' ∷ b'C' ∷ b'V' ∷ b'B' ∷ b'N' ∷ b'M' ∷ b'<' ∷ b'>' ∷ b'?' ∷ 0 ∷ b'*' ∷ 0 ∷ b' ' ∷ 0
    ∷ []

-- In a full buffer the character is dropped.
unfoldable pub kbd_buffer_push : ℕ → Keyboard → Keyboard
kbd_buffer_push c s =
    let next = (s.kbd_head + 1) % buffer_size in
    if next == s.kbd_tail
    then s
    else record s { kbd_buffer = set s.kbd_buffer s.kbd_head c; kbd_head = next }

abbrev pub is_shift : ℕ → Bool
is_shift scancode = scancode == sc_lshift || scancode == sc_rshift

-- the `switch` over the code behind 0xE0
unfoldable pub arrow : ℕ → Option ℕ
arrow scancode =
    if scancode == 0x48
    then some key_up
    else if scancode == 0x50
    then some key_down
    else if scancode == 0x4B
    then some key_left
    else if scancode == 0x4D
    then some key_right
    else none

unfoldable pub push_arrow : Option ℕ → Keyboard → Keyboard
push_arrow none s = s
push_arrow (some key) s = kbd_buffer_push key s

unfoldable pub ascii_of : Bool → ℕ → ℕ
ascii_of shifted scancode =
    get_or (if shifted then scancode_to_ascii_shift else scancode_to_ascii) scancode 0

-- the handler behind `extended = 0`, with the value that `extended` had
unfoldable pub handle_code : (scancode : ℕ) → (is_extended : Bool) → Keyboard → Keyboard
handle_code scancode is_extended s =
    if leb 0x80 scancode
    then if not is_extended && is_shift (scancode % 0x80)
      then record s { shift_pressed = false }
      else s
    else if is_extended
    then push_arrow (arrow scancode) s
    else if is_shift scancode
    then record s { shift_pressed = true }
    else let c = ascii_of s.shift_pressed scancode in
      if not (c == 0) then kbd_buffer_push c s else s

-- `keyboard_irq_handler` with the byte read from the port
unfoldable pub keyboard_irq_handler : (scancode : ℕ) → Keyboard → Keyboard
keyboard_irq_handler scancode s =
    if scancode == sc_extended
    then record s { extended = true }
    else handle_code scancode s.extended (record s { extended = false })

-- the last byte of an escape sequence
abbrev pub cursor_key : ℕ → Option ℕ
cursor_key c3 =
    if c3 == b'A'
    then some key_up
    else if c3 == b'B'
    then some key_down
    else if c3 == b'C'
    then some key_right
    else if c3 == b'D'
    then some key_left
    else none

-- From the byte behind ESC on.
unfoldable pub escape : List ℕ → Option ℕ × List ℕ
escape [] = (none, [])
escape (c2 ∷ []) = (none, [])
escape (c2 ∷ c3 ∷ rest) = if not (c2 == b'[') then (none, c3 ∷ rest) else (cursor_key c3, rest)

-- A key from the serial line; the list has the bytes that wait at the port, and no byte comes in
-- during the call. The bytes that were read are gone, also where no key comes of them.
unfoldable pub serial_key : List ℕ → Option ℕ × List ℕ
serial_key [] = (none, [])
serial_key (c ∷ rest) =
    if c == b'\r'
    then (some b'\n', rest)
    else if c == 0x7F
    then (some 8, rest)
    else if c == 0x1B
    then escape rest
    else (some c, rest)

-- `none` is the result 0; the buffer comes before the serial line.
unfoldable pub keyboard_trygetchar : Keyboard → List ℕ → Option ℕ × Keyboard × List ℕ
keyboard_trygetchar s serial =
    if not (s.kbd_head == s.kbd_tail)
    then (
      some (get_or s.kbd_buffer s.kbd_tail 0),
      record s { kbd_tail = (s.kbd_tail + 1) % buffer_size },
      serial,
    )
    else ((serial_key serial).0, s, (serial_key serial).1)
