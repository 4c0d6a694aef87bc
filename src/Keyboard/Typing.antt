-- ===== src/Keyboard/Typing.antt =====
-- Whole runs of the keyboard handler of src/keyboard.c: what is typed is read, in order.
use mykernel.Base.{
  ℕ, zero, suc, ◌+◌, ◌%◌, ◌≤◌, ◌<◌, ◌≡◌, ◌⊎◌, inl, inr, refl, sym, ap, ◌∙◌, Bool, true, false, ◌&&◌,
  not, Option, List, [], ◌∷◌, ◌++◌, arith, ltb, leb, ◌==◌, if◌then◌else◌, length, length-append,
  map, Bool-cases, Option-cases,
}
use mathlib.Core.Path.{subst}
use mathlib.Core.List.{append-nil, append_assoc}
use mykernel.Keyboard.{
  Keyboard, buffer_size, sc_lshift, sc_rshift, sc_extended, is_shift, ascii_of, arrow, push_arrow,
  kbd_buffer_push, handle_code, keyboard_irq_handler, keyboard_trygetchar,
}
use mykernel.Keyboard.Ring.{IsValid, queue, kbd_buffer_push-queue}

-- the buffer is valid, and at most one character is new in the queue
abbrev pub Grown : Keyboard → Keyboard → Type 0
Grown s s' = IsValid s' × ((queue s' ≡ queue s) ⊎ ((c : ℕ) × (queue s' ≡ queue s ++ c ∷ [])))

pushed : (c : ℕ) (s : Keyboard) → IsValid s → Grown s (kbd_buffer_push c s)
pushed c s v =
    let (w, e) = kbd_buffer_push-queue c s v in
    elim (Bool-cases (ltb (length (queue s)) 255)) [
      | inl room ↦ (w, inr (c, ground arith))
      | inr full ↦ (w, inl (ground arith))
    ]

-- The flags do not matter to the queue.
IsValid-flags :
    (s : Keyboard) (a b : Bool) → IsValid s → IsValid (record s { shift_pressed = a; extended = b })
IsValid-flags s a b v = record { size = v.size; head = v.head; tail = v.tail }

handle_code-Grown :
    (code : ℕ) (ext : Bool) (s : Keyboard) → IsValid s → Grown s (handle_code code ext s)
unfolding handle_code push_arrow
handle_code-Grown code ext s v = elim (Bool-cases (leb 0x80 code)) [
  | inl release ↦ elim (Bool-cases (not ext && is_shift (code % 0x80))) [
    | inl up ↦ rw (release, up, handle_code) (IsValid-flags s false s.extended v, inl refl)
    | inr other ↦ rw (release, other, handle_code) (v, inl refl)
  ]
  | inr press ↦ elim (Bool-cases ext) [
    | inl e ↦ elim (Option-cases (arrow code)) [
      | inl (key, a) ↦ rw (press, e, handle_code) (rw (a, push_arrow) (pushed key s v))
      | inr a ↦ rw (press, e, handle_code) (rw (a, push_arrow) (v, inl refl))
    ]
    | inr e ↦ elim (Bool-cases (is_shift code)) [
      | inl down ↦ rw (press, e, down, handle_code) (IsValid-flags s true s.extended v, inl refl)
      | inr other ↦ elim (Bool-cases (ascii_of s.shift_pressed code == 0)) [
        | inl null ↦ rw (press, e, other, null, handle_code) (v, inl refl)
        | inr char ↦
            rw (press, e, other, char, handle_code) (pushed (ascii_of s.shift_pressed code) s v)
      ]
    ]
  ]
]

-- Whatever byte comes from the keyboard, the handler keeps the buffer valid and adds at most one
-- character behind those that wait.
pub keyboard_irq_handler-Grown :
    (code : ℕ) (s : Keyboard) → IsValid s → Grown s (keyboard_irq_handler code s)
unfolding keyboard_irq_handler
keyboard_irq_handler-Grown code s v = elim (Bool-cases (code == sc_extended)) [
  | inl e ↦ rw (e, keyboard_irq_handler) (IsValid-flags s s.shift_pressed true v, inl refl)
  | inr e ↦
      rw (e, keyboard_irq_handler)
        (handle_code-Grown code s.extended (record s { extended = false })
          (IsValid-flags s s.shift_pressed false v))
]

-- one interrupt for each code
pub types : List ℕ → Keyboard → Keyboard
types [] s = s
types (code ∷ codes) s = types codes (keyboard_irq_handler code s)

-- the results of `k` calls of `keyboard_trygetchar`
pub reads : ℕ → Keyboard → List ℕ → List (Option ℕ)
reads zero s serial = []
reads (suc k) s serial = let r = keyboard_trygetchar s serial in r.0 ∷ reads k r.1 r.2

-- the press of a key that has a character
abbrev pub Plain : Bool → ℕ → Type 0
Plain shifted code =
    (code < 0x80) × (is_shift code ≡ false) × ((ascii_of shifted code == 0) ≡ false)

abbrev pub AllPlain : Bool → List ℕ → Type 0
AllPlain shifted [] = Unit
AllPlain shifted (code ∷ codes) = Plain shifted code × AllPlain shifted codes

Plain-press :
    (code : ℕ) (s : Keyboard)
    → s.extended ≡ false
    → Plain s.shift_pressed code
    → keyboard_irq_handler code s ≡ kbd_buffer_push (ascii_of s.shift_pressed code) s
unfolding keyboard_irq_handler handle_code
Plain-press code s e (below, other, char) =
    let press : leb 0x80 code ≡ false = ground arith in
    let single : (code == sc_extended) ≡ false = ground arith in
    rw (single, keyboard_irq_handler) (rw (press, e, other, char, handle_code) refl)

flags-kbd_buffer_push :
    (c : ℕ) (s : Keyboard)
    → ((kbd_buffer_push c s).shift_pressed ≡ s.shift_pressed)
      × ((kbd_buffer_push c s).extended ≡ s.extended)
unfolding kbd_buffer_push
flags-kbd_buffer_push c s = elim (Bool-cases ((s.kbd_head + 1) % buffer_size == s.kbd_tail)) [
  | inl full ↦ rw (full, kbd_buffer_push) (refl, refl)
  | inr room ↦ rw (room, kbd_buffer_push) (refl, refl)
]

-- ready for the next key, with shift up or down
abbrev pub Between : Bool → Keyboard → Type 0
Between shifted s = IsValid s × (s.extended ≡ false) × (s.shift_pressed ≡ shifted)

press-Plain :
    (shifted : Bool) (code : ℕ) (s : Keyboard)
    → Between shifted s
    → Plain shifted code
    → length (queue s) < 255
    → Between shifted (keyboard_irq_handler code s)
      × (queue (keyboard_irq_handler code s) ≡ queue s ++ ascii_of shifted code ∷ [])
press-Plain shifted code s (v, e, f) h room =
    let c = ascii_of s.shift_pressed code in
    let run = Plain-press code s e (subst (λ b. Plain b code) (sym f) h) in
    let (w, q) = kbd_buffer_push-queue c s v in
    let (fl, ex) = flags-kbd_buffer_push c s in
    let fits : ltb (length (queue s)) 255 ≡ true = ground arith in
    let added : (if ltb (length (queue s)) 255 then queue s ++ c ∷ [] else queue s)
        ≡ queue s ++ ascii_of shifted code ∷ [] =
      rw fits (ap (λ b. queue s ++ ascii_of b code ∷ []) f) in
    rw run ((w, ex ∙ e, fl ∙ f), q ∙ added)

-- The presses of keys that have a character, while the 255 places are not exceeded, put their
-- characters into the queue in the order of the presses; the flags do not change.
pub types-queue :
    (shifted : Bool) (codes : List ℕ) (s : Keyboard)
    → Between shifted s
    → AllPlain shifted codes
    → length (queue s) + length codes ≤ 255
    → Between shifted (types codes s)
      × (queue (types codes s) ≡ queue s ++ map (ascii_of shifted) codes)
unfolding types
types-queue shifted [] s b h room = (b, sym (append-nil (queue s)))
types-queue shifted (code ∷ codes) s b h room =
    let (b', q) = press-Plain shifted code s b h.0 (omega arith) in
    let l = length-append (queue s) (ascii_of shifted code ∷ []) in
    let s' = keyboard_irq_handler code s in
    let count : length (queue s') ≡ length (queue s) + 1 = ap length q ∙ l in
    let (b'', q') = types-queue shifted codes s' b' h.1 (omega (arith, count)) in
    (
      b'',
      q'
          ∙ ap (λ x. x ++ map (ascii_of shifted) codes) q
          ∙ append_assoc (queue s) (ascii_of shifted code ∷ []) (map (ascii_of shifted) codes),
    )

-- The press of a shift key puts shift down and its release puts it up; neither adds a character.
pub shift_round_trip :
    (code : ℕ) (s : Keyboard)
    → is_shift code ≡ true
    → s.extended ≡ false
    → (keyboard_irq_handler code s ≡ record s { shift_pressed = true })
      × (keyboard_irq_handler (0x80 + code) s ≡ record s { shift_pressed = false })
unfolding keyboard_irq_handler handle_code
shift_round_trip code s h e =
    let which : (code ≡ sc_lshift) ⊎ (code ≡ sc_rshift) = ground arith in
    let press : leb 0x80 code ≡ false = ground (arith, which) in
    let single : (code == sc_extended) ≡ false = ground (arith, which) in
    let release : leb 0x80 (0x80 + code) ≡ true = ground arith in
    let single' : (0x80 + code == sc_extended) ≡ false = ground (arith, which) in
    let key : (0x80 + code) % 0x80 ≡ code = ground (arith, which) in
    let up : is_shift ((0x80 + code) % 0x80) ≡ true = ap is_shift key ∙ h in
    (
      rw (single, keyboard_irq_handler) (rw (press, e, h, handle_code) refl),
      rw (single', keyboard_irq_handler) (rw (release, e, up, handle_code) refl),
    )
