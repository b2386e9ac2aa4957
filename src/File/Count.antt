-- ===== src/File/Count.antt =====
-- kernel/file.c: the counts are the references that were given out.
use lab_so.Prelude.{
  ℕ, zero, suc, ◌+◌, ◌-◌, ◌≡◌, ◌≢◌, ◌⊎◌, inl, inr, refl, ap, Option, none, some, List, [], ◌∷◌,
  ◌==◌, ltb, get_elem?, get_elem?-set_self, get_elem?-set_ne, get_elem?-some-lt, All, subst,
  Bool-cases, arith,
}
use lab_so.File.Defs.{
  File, FileType, fd_none, fd_pipe, fd_inode, fd_device, pipeclose, iput, alloc_from, filealloc,
  fileclose, close_slot, Release, nothing, release_of,
}

-- What `f` is in slot `j` is in the other table too.
abbrev pub SameBut : ℕ → List File → List File → Type 0
SameBut i fs gs = (j : ℕ) → i ≢ j → get_elem? gs j ≡ get_elem? fs j

-- What filealloc promises, from slot `i` on.
abbrev pub Allocated : ℕ → List File → Option ℕ × List File → Type 0
Allocated i fs (none, gs) = All (λ f. f.ref ≢ 0) fs × (gs ≡ fs)
Allocated i fs (some k, gs) =
    (p : ℕ) × (f : File) × (k ≡ i + p)
    × (get_elem? fs p ≡ some f)
    × (f.ref ≡ 0)
    × (get_elem? gs p ≡ some (record f { ref = 1 }))
    × SameBut p fs gs

alloc_lem : (i : ℕ) (fs : List File) → Allocated i fs (alloc_from i fs)
unfolding alloc_from
alloc_lem i [] = (tt, refl)
alloc_lem i (f ∷ fs) = elim (Bool-cases (f.ref == 0)) [
  | inl b ↦ rw b (0, f, omega arith, refl, ground arith, refl, first)
  | inr b ↦ rw b (later (alloc_from (i + 1) fs) (alloc_lem (i + 1) fs) (ground arith))
]
  where
    first : SameBut 0 (f ∷ fs) (record f { ref = 1 } ∷ fs)
    first zero n = absurd (n refl)
    first (suc j) n = refl

    later :
        (r : Option ℕ × List File)
        → Allocated (i + 1) fs r
        → f.ref ≢ 0
        → Allocated i (f ∷ fs) (r.0, f ∷ r.1)
    later (none, gs) (a, e) n = ((n, a), ap (λ x. f ∷ x) e)
    later (some k, gs) (p, g, e, h, z, q, o) n = (suc p, g, omega arith, h, z, q, others)
      where
        others : SameBut (suc p) (f ∷ fs) (f ∷ gs)
        others zero w = refl
        others (suc j) w = o j (λ x. w (ap suc x))

-- filealloc gives out a file that had no reference, with one reference, and changes no other; it fails
-- only if every file has references.
filealloc_lem : (fs : List File) → Allocated 0 fs (filealloc fs)
unfolding filealloc
filealloc_lem fs = alloc_lem 0 fs

-- A pipe is closed at the end that the file stands for, and an inode is put, that of a device too.
abbrev pub Releases : File → Release → Type 0
Releases f r =
    ((f.type ≡ fd_pipe) × (r ≡ pipeclose f.pipe f.writable))
    ⊎ (((f.type ≡ fd_inode) ⊎ (f.type ≡ fd_device)) × (r ≡ iput f.ip))
    ⊎ ((f.type ≡ fd_none) × (r ≡ nothing))

release_of-Releases : (f : File) → Releases f (release_of f)
unfolding release_of
release_of-Releases f = go f.type refl
  where
    go :
        (t : FileType)
        → f.type ≡ t
        → Releases f (elim t [
          | fd_none ↦ nothing
          | fd_pipe ↦ pipeclose f.pipe f.writable
          | fd_inode ↦ iput f.ip
          | fd_device ↦ iput f.ip
        ])
    go fd_none e = inr (inr (e, refl))
    go fd_pipe e = inl (e, refl)
    go fd_inode e = inr (inl (inl e, refl))
    go fd_device e = inr (inl (inr e, refl))

-- What fileclose promises of the file `f` in slot `i`.
abbrev pub Closed : File → List File → ℕ → Option (Release × List File) → Type 0
Closed f fs i none = f.ref ≡ 0
Closed f fs i (some (r, gs)) =
    (g : File) × (get_elem? gs i ≡ some g)
    × (g.ref + 1 ≡ f.ref)
    × (((r ≡ nothing) × (g.type ≡ f.type) × (g.ref ≢ 0))
        ⊎ (Releases f r × (g.type ≡ fd_none) × (g.ref ≡ 0)))
    × SameBut i fs gs

close_slot_lem :
    (i : ℕ) (fs : List File) (f : File)
    → get_elem? fs i ≡ some f
    → Closed f fs i (close_slot i f fs)
unfolding close_slot
close_slot_lem i fs f e = elim (Bool-cases (ltb f.ref 1)) [
  | inl b ↦ rw b (ground arith)
  | inr b ↦ elim (Bool-cases (ltb 0 (f.ref - 1))) [
    | inl c ↦
        rw (b, c)
          (
            record f { ref = f.ref - 1 },
            get_elem?-set_self fs i (record f { ref = f.ref - 1 }) (get_elem?-some-lt fs i e),
            ground arith,
            inl (refl, refl, ground arith),
            λ j n. get_elem?-set_ne fs (record f { ref = f.ref - 1 }) n,
          )
    | inr c ↦
        rw (b, c)
          (
            record f { ref = 0; type = fd_none },
            get_elem?-set_self fs i (record f { ref = 0; type = fd_none })
                (get_elem?-some-lt fs i e),
            ground arith,
            inr (release_of-Releases f, refl, refl),
            λ j n. get_elem?-set_ne fs (record f { ref = 0; type = fd_none }) n,
          )
  ]
]

-- fileclose of an open file takes one reference away; the last one frees the slot and closes
-- the end of the pipe or puts the inode that the file stood for, by its type, and no earlier one does. No other file changes, and it
-- panics only if the file has no reference.
pub fileclose_lem :
    (i : ℕ) (fs : List File) (f : File) → get_elem? fs i ≡ some f → Closed f fs i (fileclose i fs)
unfolding fileclose
fileclose_lem i fs f e = go (get_elem? fs i) e
  where
    go :
        (r : Option File)
        → r ≡ some f
        → Closed f fs i (elim r [ none ↦ none | some g ↦ close_slot i g fs ])
    go none q = cc
    go (some g) q =
        let w : f ≡ g = cc in
        subst (λ x. Closed f fs i (close_slot i x fs)) w (close_slot_lem i fs f e)
