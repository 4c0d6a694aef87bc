-- ===== src/Ramfs/Deep.antt =====
-- `fs_mkdir_p` of src/fs.c on a valid tree.
use mykernel.Base.{
  ℕ, zero, suc, ◌-◌, ltb, take, ◌<◌, ◌≤◌, ◌≡◌, inl, inr, refl, sym, ◌∙◌, ap, true, Option, none,
  some, List, [], ◌∷◌, arith, length, Bool-cases, Option-cases,
}
use mathlib.Core.Path.{subst}
use mykernel.Ramfs.Node.{
  FsResult, fs_ok, already_exists, invalid_name, no_space, Fs, name_max, root_index, node_at,
  is_dir, find_child, is_empty,
}
use mykernel.Ramfs.Create.{fs_mkdir, as_dir}
use mykernel.Ramfs.Path.{
  components, relative, is_absolute, Entered, enter, stop, fault, stored_front, end_string,
  enter_named, enter_dir, after_mkdir, enter_component, mkdir_all, fs_mkdir_p,
}
use mykernel.Ramfs.Tree.{IsTree, IsValid}
use mykernel.Ramfs.Grow.{Outcome, Outcome-IsValid, fs_mkdir-Outcome}

-- every component fits in `component[48]`
abbrev pub Fit : List (List ℕ) → Type 0
Fit [] = Unit
Fit (c ∷ cs) = (length c < name_max) × Fit cs

-- No write outside the arrays, and a valid tree.
data Goes : Entered → Type 0 where
  entered : {s : Fs} → IsValid s → Goes (enter s)
  stopped : {r : FsResult} {s : Fs} → IsValid s → Goes (stop r s)

enter_dir-Goes : (i : ℕ) (s : Fs) → IsValid s → Goes (enter_dir (some i) s)
unfolding enter_dir
enter_dir-Goes i s v = elim (Bool-cases (is_dir (node_at s.nodes i).type)) [
  | inl folder ↦ rw (folder, enter_dir) (entered (record { tree = v.tree; cwd_dir = ground arith }))
  | inr other ↦ rw (other, enter_dir) (stopped v)
]

after_mkdir-Goes :
    (c : List ℕ) (s : Fs) (r : FsResult) (s' : Fs)
    → IsValid s
    → Outcome c (as_dir s.cwd c) s r s'
    → Goes (after_mkdir c (r, s'))
unfolding after_mkdir
after_mkdir-Goes c s fs_ok s' v (n, a) =
    let again : find_child s'.cwd c s'.nodes ≡ some a.index =
      subst (λ x. find_child x c s'.nodes ≡ some a.index) (sym a.same_cwd) a.found in
    rw again (enter_dir-Goes a.index s' a.valid)
after_mkdir-Goes c s already_exists s' v o =
    stopped (Outcome-IsValid c (as_dir s.cwd c) s already_exists s' v o)
after_mkdir-Goes c s no_space s' v o =
    stopped (Outcome-IsValid c (as_dir s.cwd c) s no_space s' v o)
after_mkdir-Goes c s invalid_name s' v o =
    stopped (Outcome-IsValid c (as_dir s.cwd c) s invalid_name s' v o)
after_mkdir-Goes c s _ s' v o = absurd o

take-short : (n : ℕ) (s : List ℕ) → length s ≤ n → take n s ≡ s
take-short zero [] le = refl
take-short (suc n) [] le = refl
take-short zero (c ∷ s) le = absurd (omega arith)
take-short (suc n) (c ∷ s) le = ap (λ t. c ∷ t) (take-short n s (omega arith))

-- A component of less than 48 bytes is in `component` as it is.
end_string-short :
    (c : List ℕ) → length c < name_max → end_string (length c) (stored_front c) ≡ some c
end_string-short c h =
    let inside : ltb (length c) name_max ≡ true = ground arith in
    rw inside (
      ap some (
        ap (take (length c)) (take-short (name_max - 1) c (omega arith))
        ∙ take-short (length c) c (omega arith)))

enter_named-Goes : (c : List ℕ) (s : Fs) → IsValid s → Goes (enter_named c s)
unfolding enter_named
enter_named-Goes c s v = elim (Bool-cases (is_empty c)) [
  | inl e ↦ rw (e, enter_named) (entered v)
  | inr e ↦ elim (Option-cases (find_child s.cwd c s.nodes)) [
    | inl (i, f) ↦ rw (e, f, enter_named) (enter_dir-Goes i s v)
    | inr f ↦
        rw (e, f, enter_named)
          (after_mkdir-Goes c s (fs_mkdir c s).0 (fs_mkdir c s).1 v (fs_mkdir-Outcome c s v))
  ]
]

enter_component-Goes :
    (c : List ℕ) (s : Fs) → IsValid s → length c < name_max → Goes (enter_component c s)
unfolding enter_component
enter_component-Goes c s v h = rw (end_string-short c h, enter_component) (enter_named-Goes c s v)

-- The loop returns with the old `cwd`, in a valid tree.
abbrev Ends : ℕ → Option (FsResult × Fs) → Type 0
Ends saved m = (r : FsResult) × (s' : Fs) × (m ≡ some (r, s')) × IsTree s'.nodes × (s'.cwd ≡ saved)

mkdir_all-Ends :
    (cs : List (List ℕ)) (saved : ℕ) (s : Fs)
    → IsValid s
    → Fit cs
    → Ends saved (mkdir_all cs saved s)
unfolding mkdir_all
mkdir_all-Ends [] saved s v h = (fs_ok, record s { cwd = saved }, refl, v.tree, refl)
mkdir_all-Ends (c ∷ cs) saved s v h =
    go (enter_component c s) (enter_component-Goes c s v h.0)
      (λ s' v'. mkdir_all-Ends cs saved s' v' h.1)
  where
    go :
        (e : Entered)
        → Goes e
        → ((s' : Fs) → IsValid s' → Ends saved (mkdir_all cs saved s'))
        → Ends saved (elim e [
          | fault ↦ none
          | stop r s' ↦ some (r, record s' { cwd = saved })
          | enter s' ↦ mkdir_all cs saved s'
        ])
    go (enter s') (entered v') rest = rest s' v'
    go fault g rest = elim g [ ]
    go (stop r s') (stopped v') rest = (r, record s' { cwd = saved }, refl, v'.tree, refl)

-- On a valid tree `fs_mkdir_p` with components of less than 48 bytes writes inside its arrays, returns, keeps the
-- tree and gives `cwd` back.
pub fs_mkdir_p-Ends :
    (path : List ℕ) (s : Fs)
    → IsValid s
    → Fit (components (relative path))
    → (r : FsResult) × (s' : Fs) × (fs_mkdir_p path s ≡ some (r, s'))
      × IsTree s'.nodes
      × (s'.cwd ≡ s.cwd)
unfolding fs_mkdir_p
fs_mkdir_p-Ends path s v h = elim (Bool-cases (is_absolute path)) [
  | inr rel ↦ (invalid_name, s, rw (rel, fs_mkdir_p), v.tree, refl)
  | inl abs ↦
      rw (abs, fs_mkdir_p)
        (mkdir_all-Ends (components (relative path)) s.cwd (record s { cwd = root_index })
          (record { tree = v.tree; cwd_dir = v.tree.root }) h)
]
