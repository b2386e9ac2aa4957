-- ===== src/Fs/Patch.antt =====
-- kernel/fs.c: ranges of bytes that are put over others.
use lab_so.Prelude.{
  ℕ, ◌+◌, ◌-◌, ◌*◌, ◌/◌, ◌%◌, ◌≤◌, ◌<◌, ◌≡◌, refl, ap, inl, inr, true, false, ◌&&◌, ◌==◌,
  if◌then◌else◌, ltb, leb, Bool-cases, arith,
}
use lab_so.Fs.Defs.{bsize}
use lab_so.Fs.Writei.{laid_over, piece}

pub piece_fits :
    (off left : ℕ)
    → 0 < left
    → (0 < piece off left) × (piece off left ≤ left) × (off % bsize + piece off left ≤ bsize)
unfolding piece
piece_fits off left h = (omega arith, omega arith, omega arith)

-- The bytes of a range, and those around it.
abbrev pub patch : ℕ → ℕ → (ℕ → ℕ) → (ℕ → ℕ) → ℕ → ℕ
patch off n src old k = if leb off k && ltb k (off + n) then src (k - off) else old k

-- A round changes the bytes of its piece.
pub patch-laid_over :
    (off m tot k : ℕ) (src old : ℕ → ℕ)
    → off % bsize + m ≤ bsize
    → (if k / bsize == off / bsize
        then laid_over (off % bsize) m tot src (λ i. old (off / bsize * bsize + i)) (k % bsize)
        else old k)
      ≡ patch off m (λ i. src (tot + i)) old k
patch-laid_over off m tot k src old h = elim (Bool-cases (k / bsize == off / bsize)) [
  | inl t ↦
      let e : k / bsize ≡ off / bsize = ground arith in
      let w : off / bsize * bsize + k % bsize ≡ k = omega arith in
      elim (Bool-cases (leb off k && ltb k (off + m))) [
        | inl u ↦
            let x : (leb (off % bsize) (k % bsize) && ltb (k % bsize) (off % bsize + m)) ≡ true =
              ground arith in
            let y : k % bsize - off % bsize ≡ k - off = ground arith in
            rw (t, u, x) (ap (λ i. src (tot + i)) y)
        | inr u ↦
            let x : (leb (off % bsize) (k % bsize) && ltb (k % bsize) (off % bsize + m)) ≡ false =
              ground arith in
            rw (t, u, x) (ap old w)
      ]
  | inr t ↦ let u : (leb off k && ltb k (off + m)) ≡ false = ground arith in rw (t, u) refl
]

-- Two ranges, one behind the other.
pub patch-patch :
    (off m n k : ℕ) (src old : ℕ → ℕ)
    → patch (off + m) n (λ i. src (m + i)) (patch off m src old) k ≡ patch off (m + n) src old k
patch-patch off m n k src old = elim (Bool-cases (leb (off + m) k && ltb k (off + m + n))) [
  | inl t ↦
      let u : (leb off k && ltb k (off + (m + n))) ≡ true = ground arith in
      let e : m + (k - (off + m)) ≡ k - off = ground arith in rw (t, u) (ap src e)
  | inr t ↦ elim (Bool-cases (leb off k && ltb k (off + m))) [
    | inl u ↦
        (let x : (leb off k && ltb k (off + (m + n))) ≡ true = ground arith in rw (t, u, x) refl)
    | inr u ↦
        (let x : (leb off k && ltb k (off + (m + n))) ≡ false = ground arith in rw (t, u, x) refl)
  ]
]

pub laid_over_cong :
    (i m tot : ℕ) (src old old' : ℕ → ℕ) (k : ℕ)
    → old k ≡ old' k
    → laid_over i m tot src old k ≡ laid_over i m tot src old' k
laid_over_cong i m tot src old old' k e =
    ap (λ b. if leb i k && ltb k (i + m) then src (tot + (k - i)) else b) e
