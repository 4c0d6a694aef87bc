-- ===== src/Keyboard/Ring.antt =====
-- The ring buffer of src/keyboard.c is a queue of at most 255 characters.
use mykernel.Base.{
  ℕ, zero, suc, ◌+◌, ◌-◌, ◌%◌, ◌<◌, ◌≡◌, ◌≢◌, inl, inr, refl, ap, ◌∙◌, true, false, some, List, [],
  ◌⊎◌, ◌∷◌, ◌++◌, arith, ltb, ◌==◌, if◌then◌else◌, length, get_or, set, length-set, get_or-set_self,
  get_or-set_ne, Bool-cases,
}
use mykernel.Keyboard.{Keyboard, buffer_size, kbd_buffer_push, keyboard_trygetchar, serial_key}

-- `k` characters from the index `i` on, going round the buffer
abbrev pub ring : ℕ → ℕ → List ℕ → List ℕ
ring zero i buf = []
ring (suc k) i buf = get_or buf i 0 ∷ ring k ((i + 1) % buffer_size) buf

-- how many characters wait
abbrev pub waiting : Keyboard → ℕ
waiting s = (s.kbd_head + buffer_size - s.kbd_tail) % buffer_size

-- the characters that wait, the oldest first
abbrev pub queue : Keyboard → List ℕ
queue s = ring (waiting s) s.kbd_tail s.kbd_buffer

pub record IsValid (s : Keyboard) : Type 0 where
  pub size : length s.kbd_buffer ≡ buffer_size
  pub head : s.kbd_head < buffer_size
  pub tail : s.kbd_tail < buffer_size

pub length-ring : (k i : ℕ) (buf : List ℕ) → length (ring k i buf) ≡ k
length-ring zero i buf = refl
length-ring (suc k) i buf = omega (arith, length-ring k ((i + 1) % buffer_size) buf)

-- A write behind the characters that wait adds one of them.
ring-set :
    (k i h c : ℕ) (buf : List ℕ)
    → length buf ≡ buffer_size
    → i < buffer_size
    → h < buffer_size
    → k < buffer_size
    → (i + k) % buffer_size ≡ h
    → ring (suc k) i (set buf h c) ≡ ring k i buf ++ c ∷ []
ring-set zero i h c buf size ti th tk e =
    let here : i ≡ h = omega arith in rw (here, get_or-set_self buf h c 0 (omega arith))
ring-set (suc k) i h c buf size ti th tk e =
    let there : h ≢ i = omega arith in
    let rest =
      ring-set k ((i + 1) % buffer_size) h c buf size (omega arith) th (omega arith)
        (omega arith) in
    rw (get_or-set_ne buf h i c 0 there) (ap (λ q. get_or buf i 0 ∷ q) rest)

-- In a valid buffer a push appends the character to the queue, unless 255 wait already, and keeps
-- the buffer valid.
pub kbd_buffer_push-queue :
    (c : ℕ) (s : Keyboard)
    → IsValid s
    → IsValid (kbd_buffer_push c s)
      × (queue (kbd_buffer_push c s)
          ≡ (if ltb (length (queue s)) 255 then queue s ++ c ∷ [] else queue s))
unfolding kbd_buffer_push
kbd_buffer_push-queue c s v =
    let n = waiting s in
    let size = length-ring n s.kbd_tail s.kbd_buffer in
    elim (Bool-cases ((s.kbd_head + 1) % buffer_size == s.kbd_tail)) [
      | inl full ↦
          let none_more : ltb (length (queue s)) 255 ≡ false =
            let at : (s.kbd_head + 1) % buffer_size ≡ s.kbd_tail = ground arith in
            ground (arith, size, v.head, v.tail, at) in
          rw (full, none_more, kbd_buffer_push) (v, refl)
      | inr room ↦
          let at : (s.kbd_head + 1) % buffer_size ≢ s.kbd_tail = ground arith in
          let apart : n < 255 = omega (arith, v.head, v.tail, at) in
          let longer : ((s.kbd_head + 1) % buffer_size + buffer_size - s.kbd_tail) % buffer_size
              ≡ suc n =
            omega (arith, v.head, v.tail, at) in
          let one_more : ltb (length (queue s)) 255 ≡ true = ground (arith, size, apart) in
          rw (room, one_more, kbd_buffer_push)
            (
              record {
                size = omega (arith, length-set s.kbd_buffer s.kbd_head c, v.size);
                head = omega arith;
                tail = v.tail;
              },
              ap (λ k. ring k s.kbd_tail (set s.kbd_buffer s.kbd_head c)) longer
                  ∙ ring-set n s.kbd_tail s.kbd_head c s.kbd_buffer v.size v.tail v.head
                      (omega arith) (omega (arith, v.head, v.tail)),
            )
    ]

-- `keyboard_trygetchar` takes the oldest character off the queue of a valid buffer, which stays
-- valid; only if none waits it reads the serial line.
pub keyboard_trygetchar-queue :
    (s : Keyboard) (serial : List ℕ)
    → IsValid s
    → IsValid (keyboard_trygetchar s serial).1
      × (((c : ℕ) × ((keyboard_trygetchar s serial).0 ≡ some c)
            × (queue s ≡ c ∷ queue (keyboard_trygetchar s serial).1)
            × ((keyboard_trygetchar s serial).2 ≡ serial))
          ⊎ ((queue s ≡ [])
              × (keyboard_trygetchar s serial ≡ ((serial_key serial).0, s, (serial_key serial).1))))
unfolding keyboard_trygetchar
keyboard_trygetchar-queue s serial v = elim (Bool-cases (s.kbd_head == s.kbd_tail)) [
  | inl empty ↦
      let at : s.kbd_head ≡ s.kbd_tail = ground arith in
      let none_waits : waiting s ≡ 0 = omega (arith, v.tail) in
      rw (empty, keyboard_trygetchar)
        (v, inr (ap (λ k. ring k s.kbd_tail s.kbd_buffer) none_waits, refl))
  | inr some_wait ↦
      let next = (s.kbd_tail + 1) % buffer_size in
      let apart : s.kbd_head ≢ s.kbd_tail = ground arith in
      let left = (s.kbd_head + buffer_size - next) % buffer_size in
      let fewer : waiting s ≡ suc left = omega (arith, v.head, v.tail) in
      rw (some_wait, keyboard_trygetchar)
        (
          record { size = v.size; head = v.head; tail = omega arith },
          inl (
            get_or s.kbd_buffer s.kbd_tail 0,
            refl,
            ap (λ k. ring k s.kbd_tail s.kbd_buffer) fewer,
            refl,
          ),
        )
]
