-- ===== src/Vm/Copy.antt =====
-- kernel/vm.c: copyout and copyin, byte by byte.
use lab_so.Prelude.{
  ℕ, zero, suc, ◌+◌, ◌-◌, ◌%◌, ◌≤◌, ◌<◌, ◌≡◌, ◌≢◌, inl, inr, refl, sym, ap, subst, ◌∙◌, true, false,
  ◌&&◌, Option, none, some, ◌==◌, ltb, leb, Bool-cases, ℕ_discrete, arith,
}
use lab_so.Kalloc.{pgsize}
use lab_so.Memory.{Mem, memmove}
use lab_so.Memory.Copy.{moved, inside, memmove_lem}
use lab_so.Vm.Defs.{Vm, pgrounddown, walkaddr}
use lab_so.Vm.User.{chunk, with_page, copyout_from, copyout, copyin_from, copyin}

abbrev pub at_offset : ℕ → Option ℕ → Option ℕ
at_offset o none = none
at_offset o (some pa) = some (pa + o)

-- The physical address of a user address; `none` where no user page is mapped.
abbrev pub phys : ℕ → Vm → ℕ → Option ℕ
phys pagetable v va = at_offset (va % pgsize) (walkaddr pagetable (pgrounddown va) v)

-- `m'` has at `dst 0`, `dst 1`, … the `len` bytes that `m` has at `src 0`, `src 1`, …; the rest is `m`.
pub record Copies (dst src : ℕ → ℕ) (len : ℕ) (m m' : Mem) : Type 0 where
  pub bytes : (k : ℕ) → k < len → m' (dst k) ≡ m (src k)
  pub rest : (a : ℕ) → ((k : ℕ) → k < len → dst k ≢ a) → m' a ≡ m a

-- Different bytes go to different places, and no place is one that is still to be read.
abbrev pub Apart : (ℕ → ℕ) → (ℕ → ℕ) → ℕ → Type 0
Apart dst src len =
    ((j k : ℕ) → j < len → k < len → dst j ≡ dst k → j ≡ k)
    × ((j k : ℕ) → j < len → k < len → dst j ≢ src k)

-- A copy of `n` bytes, and then of the others.
Copies-join :
    (dst src : ℕ → ℕ) (n r : ℕ) (m m' m'' : Mem)
    → Apart dst src (n + r)
    → Copies dst src n m m'
    → Copies (λ k. dst (n + k)) (λ k. src (n + k)) r m' m''
    → Copies dst src (n + r) m m''
Copies-join dst src n r m m' m'' (inj, apart) a b = record {
  bytes = λ k h. elim (Bool-cases (ltb k n)) [
    | inl c ↦
        let l : k < n = ground arith in
        b.rest (dst k) (λ j q e. let z = inj (n + j) k (omega arith) h e in omega arith)
        ∙ a.bytes k l
    | inr c ↦
        let l : n ≤ k = ground arith in
        let e : n + (k - n) ≡ k = omega arith in
        subst (λ x. m'' (dst x) ≡ m (src x)) e
          (b.bytes (k - n) (omega arith)
            ∙ a.rest (src (n + (k - n)))
                (λ j q x. apart j (n + (k - n)) (omega arith) (omega arith) x))
  ];
  rest = λ x h. b.rest x (λ k q. h (n + k) (omega arith)) ∙ a.rest x (λ k q. h k (omega arith));
}

-- memmove is such a copy.
Copies-memmove :
    (dst src : ℕ → ℕ) (d s n : ℕ) (m : Mem)
    → ((k : ℕ) → k < n → dst k ≡ d + k)
    → ((k : ℕ) → k < n → src k ≡ s + k)
    → Copies dst src n m (memmove d s n m)
Copies-memmove dst src d s n m e f = record {
  bytes = λ k h.
      ap (memmove d s n m) (e k h) ∙ (memmove_lem d s n m (d + k) ∙ (at k h ∙ ap m (sym (f k h))));
  rest = λ a h. memmove_lem d s n m a ∙ away a (λ k q x. h k q (e k q ∙ x));
}
  where
    at : (k : ℕ) → k < n → moved d s n m (d + k) ≡ m (s + k)
    at k h =
        let z : s + (d + k - d) ≡ s + k = omega arith in
        inside d s n m (d + k) (omega arith) (omega arith) ∙ ap m z

    away : (a : ℕ) → ((k : ℕ) → k < n → d + k ≢ a) → moved d s n m a ≡ m a
    away a h = elim (Bool-cases (leb d a && ltb a (d + n))) [
      | inl b ↦ absurd (h (a - d) (ground arith) (ground arith))
      | inr b ↦ rw b refl
    ]

module _ (va len : ℕ) where
  chunk_le : chunk va len ≤ len
  unfolding chunk
  chunk_le = omega arith

  chunk_pos : len ≢ 0 → 0 < chunk va len
  unfolding chunk
  chunk_pos h = omega arith

  -- The bytes of a chunk are in one page.
  chunk_page : (k : ℕ) → k < chunk va len → pgrounddown (va + k) ≡ pgrounddown va
  unfolding chunk
  chunk_page k h = omega arith

  chunk_offset : (k : ℕ) → k < chunk va len → (va + k) % pgsize ≡ va - pgrounddown va + k
  unfolding chunk
  chunk_offset k h = omega arith

  chunk_next : chunk va len < len → pgrounddown va + pgsize ≡ va + chunk va len
  unfolding chunk
  chunk_next h = omega arith

-- The user bytes from `va` on stand at `f 0`, `f 1`, … in memory.
abbrev pub Stands : ℕ → Vm → ℕ → ℕ → (ℕ → ℕ) → Type 0
Stands pagetable v va len f = (k : ℕ) → k < len → phys pagetable v (va + k) ≡ some (f k)

module _ (pagetable : ℕ) (v : Vm) (va len : ℕ) (f : ℕ → ℕ) (st : Stands pagetable v va len f)
    (nz : len ≢ 0) where
  -- The page of the first byte, and the bytes of its chunk in it.
  first_page :
      (pa0 : ℕ) × (walkaddr pagetable (pgrounddown va) v ≡ some pa0)
      × ((k : ℕ) → k < chunk va len → f k ≡ pa0 + (va - pgrounddown va) + k)
  first_page = go (walkaddr pagetable (pgrounddown va) v) refl
    where
      go :
          (r : Option ℕ)
          → walkaddr pagetable (pgrounddown va) v ≡ r
          → (pa0 : ℕ) × (walkaddr pagetable (pgrounddown va) v ≡ some pa0)
            × ((k : ℕ) → k < chunk va len → f k ≡ pa0 + (va - pgrounddown va) + k)
      go none e =
          let h = st 0 (omega arith) in
          let c = chunk_page va len 0 (chunk_pos va len nz) in let h' = rw (c, e) at h in cc
      go (some pa0) e = (
        pa0,
        e,
        λ k q.
            let h = st k (let z = chunk_le va len in omega arith) in
            let h' = rw (chunk_page va len k q, e) at h in
            let o = chunk_offset va len k q in
            let w : f k ≡ pa0 + (va + k) % pgsize = cc in omega arith,
      )

  Stands-next :
      Stands pagetable v (pgrounddown va + pgsize) (len - chunk va len) (λ k. f (chunk va len + k))
  Stands-next k h =
      let e = chunk_next va len (omega arith) in
      let z : pgrounddown va + pgsize + k ≡ va + (chunk va len + k) = omega arith in
      ap (phys pagetable v) z ∙ st (chunk va len + k) (omega arith)

Apart-head :
    (dst src : ℕ → ℕ) (n len : ℕ) → n ≤ len → Apart dst src len → Apart dst src (n + (len - n))
Apart-head dst src n len h a = let e : n + (len - n) ≡ len = omega arith in rw e a

Apart-tail :
    (dst src : ℕ → ℕ) (n len : ℕ)
    → n ≤ len
    → Apart dst src len
    → Apart (λ k. dst (n + k)) (λ k. src (n + k)) (len - n)
Apart-tail dst src n len h (inj, apart) = (
  (λ j k p q e. let z = inj (n + j) (n + k) (omega arith) (omega arith) e in omega arith),
  λ j k p q e. apart (n + j) (n + k) (omega arith) (omega arith) e,
)

copyout_from_lem :
    (fuel pagetable va src len : ℕ) (v : Vm) (m : Mem) (f g : ℕ → ℕ)
    → len ≤ fuel
    → Stands pagetable v va len f
    → ((k : ℕ) → k < len → g k ≡ src + k)
    → Apart f g len
    → ((copyout_from fuel pagetable va src len v m).0 ≡ true)
      × Copies f g len m (copyout_from fuel pagetable va src len v m).1
unfolding copyout_from with_page
copyout_from_lem zero pagetable va src len v m f g h st e a =
    (refl, record { bytes = λ k q. absurd (omega arith); rest = λ x q. refl })
copyout_from_lem (suc fuel) pagetable va src len v m f g h st e a = elim (ℕ_discrete len 0) [
  | yes z ↦ rw z (refl, record { bytes = λ k q. absurd (omega arith); rest = λ x q. refl })
  | no nz ↦
      let z : (len == 0) ≡ false = ground arith in
      let c = chunk_le va len in
      let d = chunk_pos va len nz in
      let (pa0, w, o) = first_page pagetable v va len f st nz in
      let m' = memmove (pa0 + (va - pgrounddown va)) src (chunk va len) m in
      let x =
        copyout_from_lem fuel pagetable (pgrounddown va + pgsize) (src + chunk va len)
          (len - chunk va len) v m' (λ k. f (chunk va len + k)) (λ k. g (chunk va len + k))
          (omega arith) (Stands-next pagetable v va len f st nz)
          (λ k q. (let y = e (chunk va len + k) (omega arith) in omega arith))
          (Apart-tail f g (chunk va len) len c a) in
      let y =
        Copies-memmove f g (pa0 + (va - pgrounddown va)) src (chunk va len) m o
          (λ k q. e k (omega arith)) in
      let q : chunk va len + (len - chunk va len) ≡ len = omega arith in
      rw (z, w)
        (
          x.0,
          subst
              (λ n.
                Copies f g n m
                  (copyout_from fuel pagetable (pgrounddown va + pgsize) (src + chunk va len)
                    (len - chunk va len) v m').1)
              q
              (Copies-join f g (chunk va len) (len - chunk va len) m m'
                (copyout_from fuel pagetable (pgrounddown va + pgsize) (src + chunk va len)
                  (len - chunk va len) v m').1
                (Apart-head f g (chunk va len) len c a) y x.1),
        )
]

copyin_from_lem :
    (fuel pagetable dst va len : ℕ) (v : Vm) (m : Mem) (f g : ℕ → ℕ)
    → len ≤ fuel
    → Stands pagetable v va len f
    → ((k : ℕ) → k < len → g k ≡ dst + k)
    → Apart g f len
    → ((copyin_from fuel pagetable dst va len v m).0 ≡ true)
      × Copies g f len m (copyin_from fuel pagetable dst va len v m).1
unfolding copyin_from with_page
copyin_from_lem zero pagetable dst va len v m f g h st e a =
    (refl, record { bytes = λ k q. absurd (omega arith); rest = λ x q. refl })
copyin_from_lem (suc fuel) pagetable dst va len v m f g h st e a = elim (ℕ_discrete len 0) [
  | yes z ↦ rw z (refl, record { bytes = λ k q. absurd (omega arith); rest = λ x q. refl })
  | no nz ↦
      let z : (len == 0) ≡ false = ground arith in
      let c = chunk_le va len in
      let d = chunk_pos va len nz in
      let (pa0, w, o) = first_page pagetable v va len f st nz in
      let m' = memmove dst (pa0 + (va - pgrounddown va)) (chunk va len) m in
      let x =
        copyin_from_lem fuel pagetable (dst + chunk va len) (pgrounddown va + pgsize)
          (len - chunk va len) v m' (λ k. f (chunk va len + k)) (λ k. g (chunk va len + k))
          (omega arith) (Stands-next pagetable v va len f st nz)
          (λ k q. (let y = e (chunk va len + k) (omega arith) in omega arith))
          (Apart-tail g f (chunk va len) len c a) in
      let y =
        Copies-memmove g f dst (pa0 + (va - pgrounddown va)) (chunk va len) m
          (λ k q. e k (omega arith)) o in
      let q : chunk va len + (len - chunk va len) ≡ len = omega arith in
      rw (z, w)
        (
          x.0,
          subst
              (λ n.
                Copies g f n m
                  (copyin_from fuel pagetable (dst + chunk va len) (pgrounddown va + pgsize)
                    (len - chunk va len) v m').1)
              q
              (Copies-join g f (chunk va len) (len - chunk va len) m m'
                (copyin_from fuel pagetable (dst + chunk va len) (pgrounddown va + pgsize)
                  (len - chunk va len) v m').1
                (Apart-head g f (chunk va len) len c a) y x.1),
        )
]

-- copyout to user memory that is mapped, and copyin of the same range to another buffer: both return 0, and
-- the buffer has the bytes that were copied out. Different user bytes stand at different places, none of
-- them in either buffer.
pub copyin-copyout :
    (pagetable va src dst len : ℕ) (v : Vm) (m : Mem) (f : ℕ → ℕ)
    → Stands pagetable v va len f
    → Apart f (λ k. src + k) len
    → Apart (λ k. dst + k) f len
    → let (ok, m') = copyout pagetable va src len v m in
      let (ok', m'') = copyin pagetable dst va len v m' in
      (ok ≡ true) × (ok' ≡ true) × ((k : ℕ) → k < len → m'' (dst + k) ≡ m (src + k))
unfolding copyout copyin
copyin-copyout pagetable va src dst len v m f st a b =
    let m' = (copyout_from len pagetable va src len v m).1 in
    let x =
      copyout_from_lem len pagetable va src len v m f (λ k. src + k) (omega arith) st (λ k q. refl)
        a in
    let y =
      copyin_from_lem len pagetable dst va len v m' f (λ k. dst + k) (omega arith) st (λ k q. refl)
        b in
    (x.0, y.0, λ k q. y.1.bytes k q ∙ x.1.bytes k q)
