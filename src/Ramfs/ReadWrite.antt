-- ===== src/Ramfs/ReadWrite.antt =====
-- `fs_write_bin`, `fs_append` and `fs_read` of src/fs.c: what is written is read back.
use mykernel.Base.{
  ℕ, ◌+◌, ◌-◌, ◌<◌, ◌≤◌, ◌≡◌, inl, inr, refl, sym, ◌∙◌, true, false, none, some, List, [], ◌∷◌,
  ◌++◌, arith, ltb, leb, if◌then◌else◌, length, set, Bool-cases, Option-cases, length-append,
}
use mathlib.Core.Path.{subst}
use mathlib.Core.List.{append-nil, append_assoc}
use mykernel.Ramfs.Node.{
  Fs, FsResult, fs_ok, not_found, already_exists, invalid_name, is_a_directory, not_a_directory,
  too_big, no_space, dir_not_empty, file_max, node_at, find_child, is_file,
}
use mykernel.Ramfs.Create.{fs_touch, as_file}
use mykernel.Ramfs.Content.{
  with_content, put_content, after_touch, update_content, fs_write_bin, append_bytes, append_text,
  fs_append, fs_read,
}
use mykernel.Ramfs.Table.{node_at-set, find_child-some}
use mykernel.Ramfs.Tree.{IsValid, find_child_iff}
use mykernel.Ramfs.Update.{IsTree-update}
use mykernel.Ramfs.Grow.{Outcome, fs_touch-Outcome}

-- the contents of the file `name`, of which there are none yet if it does not exist
abbrev pub contents : List ℕ → Fs → List ℕ
contents name s = elim (find_child s.cwd name s.nodes) [
  | none ↦ []
  | some i ↦ (node_at s.nodes i).content
]

-- After a success reading `name` gives the old contents under `f`, and the tree is valid; after a
-- failure the state is as it was.
abbrev pub Updated : (List ℕ → List ℕ) → List ℕ → Fs → FsResult → Fs → Type 0
Updated f name s fs_ok s' =
    (fs_read name s' ≡ (fs_ok, some (f (contents name s)))) × (s'.cwd ≡ s.cwd) × IsValid s'
Updated f name s r s' = s' ≡ s

module _ (f : List ℕ → List ℕ) (name : List ℕ) where
  -- Into a plain file the bytes are put.
  put_file :
      (i : ℕ) (s : Fs)
      → IsValid s
      → find_child s.cwd name s.nodes ≡ some i
      → is_file (node_at s.nodes i).type ≡ true
      → ((put_content f (some i) s).0 ≡ fs_ok) × Updated f name s fs_ok (put_content f (some i) s).1
  unfolding put_content fs_read
  put_file i s v e plain =
      let (lt, l, par, nm) = find_child-some s.cwd name s.nodes i e in
      let n = with_content (f (node_at s.nodes i).content) (node_at s.nodes i) in
      let at = λ (j : ℕ). node_at-set s.nodes i j n lt in
      let tree' = IsTree-update s.nodes i n v.tree l refl refl (inl refl) in
      let found =
        (find_child_iff (set s.nodes i n) s.cwd name i tree').1
          (ground (arith, at i), ground (arith, at i), ground (arith, at i)) in
      rw (plain, put_content)
        (
          refl,
          (
            ground (arith, found, at i, e),
            refl,
            record { tree = tree'; cwd_dir = ground (arith, at s.cwd, v.cwd_dir) },
          ),
        )

  put_content-Updated :
      (i : ℕ) (s : Fs)
      → IsValid s
      → find_child s.cwd name s.nodes ≡ some i
      → Updated f name s (put_content f (some i) s).0 (put_content f (some i) s).1
  unfolding put_content
  put_content-Updated i s v e = elim (Bool-cases (is_file (node_at s.nodes i).type)) [
    | inr other ↦ rw (other, put_content) refl
    | inl plain ↦
        let (ok, u) = put_file i s v e plain in
        subst (λ r. Updated f name s r (put_content f (some i) s).1) (sym ok) u
  ]

  -- The file that `fs_touch` has made is found, and is a file.
  after_touch-Updated :
      (s : Fs)
      → IsValid s
      → find_child s.cwd name s.nodes ≡ none
      → (r : FsResult) (s₁ : Fs) → Outcome name (as_file s.cwd name []) s r s₁
      → Updated f name s (after_touch f name (r, s₁)).0 (after_touch f name (r, s₁)).1
  unfolding after_touch
  after_touch-Updated s v e fs_ok s₁ (n, a) =
      let again : find_child s₁.cwd name s₁.nodes ≡ some a.index =
        subst (λ c. find_child c name s₁.nodes ≡ some a.index) (sym a.same_cwd) a.found in
      let plain : is_file (node_at s₁.nodes a.index).type ≡ true = ground (arith, a.holds) in
      let (ok, (reads, cwd, valid)) = put_file a.index s₁ a.valid again plain in
      rw again (
        subst (λ r. Updated f name s r (put_content f (some a.index) s₁).1) (sym ok)
          (ground (arith, reads, again, a.holds, e), cwd ∙ a.same_cwd, valid))
  after_touch-Updated s v e not_found s₁ o = absurd o
  after_touch-Updated s v e already_exists s₁ o = o.2
  after_touch-Updated s v e not_a_directory s₁ o = absurd o
  after_touch-Updated s v e is_a_directory s₁ o = absurd o
  after_touch-Updated s v e no_space s₁ o = o.3
  after_touch-Updated s v e dir_not_empty s₁ o = absurd o
  after_touch-Updated s v e invalid_name s₁ o = o.1
  after_touch-Updated s v e too_big s₁ o = absurd o

  update_content-Updated :
      (s : Fs)
      → IsValid s
      → Updated f name s (update_content f name s).0 (update_content f name s).1
  unfolding update_content
  update_content-Updated s v = elim (Option-cases (find_child s.cwd name s.nodes)) [
    | inl (i, e) ↦ rw (e, update_content) (put_content-Updated i s v e)
    | inr e ↦
        rw (e, update_content)
          (after_touch-Updated s v e (fs_touch name s).0 (fs_touch name s).1
            (fs_touch-Outcome name s v))
  ]

-- On a valid tree, after `fs_write_bin` has succeeded `fs_read` gives the bytes that were written,
-- and the tree is valid. Otherwise the state is as it was; more than 8191 bytes are refused at once.
pub fs_write_bin-Updated :
    (name bytes : List ℕ) (s : Fs)
    → IsValid s
    → (file_max ≤ length bytes → fs_write_bin name bytes s ≡ (too_big, s))
      × (length bytes < file_max
          → Updated
              (λ old. bytes)
              name
              s
              (fs_write_bin name bytes s).0
              (fs_write_bin name bytes s).1)
unfolding fs_write_bin
fs_write_bin-Updated name bytes s v = (
  (λ big. ground arith),
  λ fits.
      let small : leb file_max (length bytes) ≡ false = ground arith in
      rw small (update_content-Updated (λ old. bytes) name s v),
)

append_bytes_lem :
    (content text : List ℕ)
    → length content + length text < file_max
    → append_bytes content text ≡ content ++ text
unfolding append_bytes
append_bytes_lem content [] h = sym (append-nil content)
append_bytes_lem content (c ∷ text) h =
    let room : ltb (length content) (file_max - 1) ≡ true = ground arith in
    rw room (
      append_bytes_lem (content ++ c ∷ []) text (omega (arith, length-append content (c ∷ [])))
      ∙ append_assoc content (c ∷ []) text)

append_bytes-le :
    (content text : List ℕ)
    → length content < file_max
    → length (append_bytes content text) < file_max
unfolding append_bytes
append_bytes-le content [] h = h
append_bytes-le content (c ∷ text) h = elim (Bool-cases (ltb (length content) (file_max - 1))) [
  | inl room ↦
      rw room
        (append_bytes-le (content ++ c ∷ []) text (ground (arith, length-append content (c ∷ []))))
  | inr full ↦ rw full h
]

-- Onto a file that is not empty goes a line break and then the text, if the whole fits.
append_text_lem :
    (text old : List ℕ)
    → length old + 1 + length text < file_max
    → append_text text old ≡ (if ltb 0 (length old) then old ++ (b'\n' ∷ text) else text)
unfolding append_text
append_text_lem text [] h = append_bytes_lem [] text (omega arith)
append_text_lem text (c ∷ old) h =
    let room : ltb (length (c ∷ old)) (file_max - 1) ≡ true = ground arith in
    let some_bytes : ltb 0 (length (c ∷ old)) ≡ true = ground arith in
    rw (room, some_bytes)
      (append_bytes_lem (c ∷ old ++ b'\n' ∷ []) text (omega (arith, length-append old (b'\n' ∷ [])))
        ∙ append_assoc (c ∷ old) (b'\n' ∷ []) text)

-- On a valid tree, and if the old contents, a line break and the text are less than 8192 bytes:
-- after `fs_append` has succeeded `fs_read` gives the old contents, a line break if there were any,
-- and the text, and the tree is valid. After a failure the state is as it was.
pub fs_append-Updated :
    (name text : List ℕ) (s : Fs)
    → IsValid s
    → length (contents name s) + 1 + length text < file_max
    → Updated
        (λ old.
          if ltb 0 (length (contents name s)) then contents name s ++ (b'\n' ∷ text) else text)
        name
        s
        (fs_append name text s).0
        (fs_append name text s).1
unfolding fs_append
fs_append-Updated name text s v h =
    let e = append_text_lem text (contents name s) h in
    relabel (fs_append name text s).0 (fs_append name text s).1 e
      (update_content-Updated (append_text text) name s v)
  where
    relabel :
        {bytes : List ℕ} (r : FsResult) (s' : Fs)
        → append_text text (contents name s) ≡ bytes
        → Updated (append_text text) name s r s'
        → Updated (λ old. bytes) name s r s'
    relabel fs_ok s' e (reads, cwd, valid) =
        (subst (λ bytes. fs_read name s' ≡ (fs_ok, some bytes)) e reads, cwd, valid)
    relabel _ s' e u = u

-- However long the text, a file that was below 8192 bytes stays so.
pub append_text-bounded :
    (text old : List ℕ) → length old < file_max → length (append_text text old) < file_max
unfolding append_text
append_text-bounded text old h =
    append_bytes-le _ text (ground (arith, length-append old (b'\n' ∷ [])))
