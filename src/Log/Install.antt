-- ===== src/Log/Install.antt =====
-- kernel/log.c: what `install_trans` leaves on the disk, for any number of writes that reach it.
use lab_so.Prelude.{
  ℕ, ◌+◌, ◌-◌, ◌≤◌, ◌<◌, ◌≡◌, refl, ◌⊎◌, inl, inr, true, false, Option, none, some, List, [], ◌∷◌,
  ◌==◌, if◌then◌else◌, length, mem, All, arith, Bool-cases, Option-cases,
}
use lab_so.Log.Defs.{Data, Disk, bwrite, install_from}

-- Outside the log, whose blocks are `start` up to `start + size`.
abbrev pub IsHome : ℕ → ℕ → ℕ → Type 0
IsHome start size b = (b < start) ⊎ (start + size ≤ b)

-- The log slot that is installed last into block `b`.
abbrev pub slot : ℕ → List ℕ → ℕ → Option ℕ
slot tail [] b = none
slot tail (c ∷ cs) b = elim (slot (tail + 1) cs b) [
  | some j ↦ some j
  | none ↦ if c == b then some tail else none
]

-- What a block holds after a complete installation.
abbrev pub overlay : ℕ → ℕ → List ℕ → (ℕ → Data) → ℕ → Data
overlay start tail bs f b = elim (slot tail bs b) [ none ↦ f b | some j ↦ f (start + j + 1) ]

pub slot-bounds :
    (tail : ℕ) (bs : List ℕ) (b j : ℕ)
    → slot tail bs b ≡ some j
    → (tail ≤ j) × (j < tail + length bs)
slot-bounds tail [] b j e = cc
slot-bounds tail (c ∷ cs) b j e = elim (Option-cases (slot (tail + 1) cs b)) [
  | inl n ↦ ground (arith, n)
  | inr (i, s) ↦ ground (arith, s, slot-bounds (tail + 1) cs b i s)
]

pub slot-none : (tail : ℕ) (bs : List ℕ) (b : ℕ) → mem b bs ≡ false → slot tail bs b ≡ none
slot-none tail [] b h = refl
slot-none tail (c ∷ cs) b h = ground (arith, slot-none (tail + 1) cs b)

pub slot-some :
    (tail : ℕ) (bs : List ℕ) (b : ℕ) → mem b bs ≡ true → (j : ℕ) × (slot tail bs b ≡ some j)
slot-some tail [] b h = cc
slot-some tail (c ∷ cs) b h = elim (Option-cases (slot (tail + 1) cs b)) [
  | inr (i, s) ↦ (i, ground (arith, s))
  | inl n ↦ elim (Bool-cases (c == b)) [
    | inl e ↦ (tail, rw (n, e))
    | inr e ↦ let (j, s) = slot-some (tail + 1) cs b (ground (arith, e)) in cc
  ]
]

module _ (start : ℕ) where
  pub install_from-header :
      (tail : ℕ) (bs : List ℕ) (d : Disk) → (install_from start tail bs d).header ≡ d.header
  unfolding install_from bwrite
  install_from-header tail [] d = refl
  install_from-header tail (b ∷ bs) d =
      ground (arith, install_from-header (tail + 1) bs (bwrite b (d.blocks (start + tail + 1)) d))

  pub install_from-power :
      (tail : ℕ) (bs : List ℕ) (d : Disk)
      → (install_from start tail bs d).power ≡ d.power - length bs
  unfolding install_from bwrite
  install_from-power tail [] d = omega arith
  install_from-power tail (b ∷ bs) d =
      ground (arith, install_from-power (tail + 1) bs (bwrite b (d.blocks (start + tail + 1)) d))

  -- Blocks that are not listed stay, however many writes reach the disk.
  pub install_from-unlisted :
      (tail : ℕ) (bs : List ℕ) (d : Disk) (b : ℕ)
      → mem b bs ≡ false
      → (install_from start tail bs d).blocks b ≡ d.blocks b
  unfolding install_from bwrite
  install_from-unlisted tail [] d b h = refl
  install_from-unlisted tail (c ∷ cs) d b h =
      ground
        (arith, install_from-unlisted (tail + 1) cs (bwrite c (d.blocks (start + tail + 1)) d) b)

pub IsHome-unlisted :
    (start size j : ℕ) (bs : List ℕ)
    → All (IsHome start size) bs
    → j < size
    → mem (start + j) bs ≡ false
IsHome-unlisted start size j [] h lt = refl
IsHome-unlisted start size j (c ∷ cs) h lt =
    ground (arith, h.0, IsHome-unlisted start size j cs h.1 lt)

-- With enough power the installation is complete.
pub install_from-overlay :
    (start size tail : ℕ) (bs : List ℕ) (d : Disk) (b : ℕ)
    → All (IsHome start size) bs
    → tail + length bs < size
    → length bs ≤ d.power
    → (install_from start tail bs d).blocks b ≡ overlay start tail bs d.blocks b
unfolding install_from bwrite
install_from-overlay start size tail [] d b h lt e = refl
install_from-overlay start size tail (c ∷ cs) d b h lt e =
    let d' = bwrite c (d.blocks (start + tail + 1)) d in
    let ih = install_from-overlay start size (tail + 1) cs d' b h.1 (omega arith) in
    elim (Option-cases (slot (tail + 1) cs b)) [
      | inl n ↦ ground (arith, n, ih)
      | inr (j, s) ↦ ground (
        arith,
        s,
        ih,
        slot-bounds (tail + 1) cs b j s,
        h.0,
        IsHome-unlisted start size (j + 1) cs h.1,
      )
    ]
