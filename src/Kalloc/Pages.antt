-- ===== src/Kalloc/Pages.antt =====
-- kernel/kalloc.c: the free list holds each free page once.
use lab_so.Prelude.{
  ℕ, zero, suc, ◌+◌, ◌-◌, ◌/◌, ◌%◌, ◌≤◌, ◌<◌, ◌≡◌, refl, ◌⊎◌, inl, inr, false, none, some, List, [],
  ◌∷◌, ◌==◌, ltb, leb, not, ◌||◌, length, mem, Distinct, All, arith, Bool-cases,
}
use lab_so.Kalloc.{pgsize, pgroundup, kfree, freerange_from, kinit, kalloc}

-- A page that the allocator may hand out.
abbrev pub IsPage : ℕ → ℕ → ℕ → Type 0
IsPage kernel_end phystop pa = (pa % pgsize ≡ 0) × (kernel_end ≤ pa) × (pa < phystop)

pub record IsValid (kernel_end phystop : ℕ) (freelist : List ℕ) : Type 0 where
  pub pages : All (IsPage kernel_end phystop) freelist
  pub distinct : Distinct freelist

module _ (kernel_end phystop : ℕ) where
  kfree_page :
      (pa : ℕ) (freelist : List ℕ)
      → IsPage kernel_end phystop pa
      → kfree kernel_end phystop pa freelist ≡ some (pa ∷ freelist)
  unfolding kfree
  kfree_page pa freelist p = ground arith

  below-unlisted : (p : ℕ) (l : List ℕ) → All (λ x. x < p) l → mem p l ≡ false
  below-unlisted p [] h = refl
  below-unlisted p (x ∷ xs) h = ground (arith, h.0, below-unlisted p xs h.1)

  All-below : (p q : ℕ) (l : List ℕ) → p ≤ q → All (λ x. x < p) l → All (λ x. x < q) l
  All-below p q [] le h = tt
  All-below p q (x ∷ xs) le h = (omega (arith, h.0), All-below p q xs le h.1)

  freerange_from_lem :
      (fuel pa_end p : ℕ) (l : List ℕ)
      → p % pgsize ≡ 0
      → kernel_end ≤ p
      → pa_end ≤ phystop
      → (pa_end - p) / pgsize < fuel
      → All (λ x. x < p) l
      → IsValid kernel_end phystop l
      → (l' : List ℕ) × (freerange_from kernel_end phystop fuel pa_end p l ≡ some l')
        × IsValid kernel_end phystop l'
        × (length l' ≡ length l + (pa_end - p) / pgsize)
  unfolding freerange_from
  freerange_from_lem zero pa_end p l a lo hi f below v = absurd (omega arith)
  freerange_from_lem (suc fuel) pa_end p l a lo hi f below v =
      elim (Bool-cases (leb (p + pgsize) pa_end)) [
        | inl more ↦
            let le : p + pgsize ≤ pa_end = ground arith in
            let free = kfree_page p l (a, lo, omega arith) in
            let (l', e, v', n) =
              freerange_from_lem fuel pa_end (p + pgsize) (p ∷ l) (omega arith) (omega arith) hi
                (omega arith) (omega arith, All-below p (p + pgsize) l (omega arith) below)
                (record {
                  pages = ((a, lo, omega arith), v.pages);
                  distinct = (below-unlisted p l below, v.distinct);
                }) in
            (l', ground (arith, more, free, e), v', omega (arith, n))
        | inr stop ↦ (l, ground (arith, stop), v, ground arith)
      ]

  -- kinit does not panic, ends within its fuel, and leaves on the free list every whole page between
  -- the end of the kernel and PHYSTOP: aligned, inside the range, no page twice, and as many as fit.
  pub kinit_lem :
      pgroundup kernel_end ≤ phystop
      → (l : List ℕ) × (kinit kernel_end phystop ≡ some l)
        × IsValid kernel_end phystop l
        × (length l ≡ (phystop - pgroundup kernel_end) / pgsize)
  unfolding kinit
  kinit_lem h =
      let (l, e, v, n) =
        freerange_from_lem (phystop / pgsize + 1) phystop (pgroundup kernel_end) [] (omega arith)
          (omega arith) (omega arith) (omega arith) tt (record { pages = tt; distinct = tt }) in
      (l, e, v, omega (arith, n))

  -- kalloc on a valid free list takes a page that is then free no more, and leaves a valid list; kfree
  -- of that page gives the list back. It returns 0 only when no page is free.
  pub kalloc_lem :
      (l : List ℕ)
      → IsValid kernel_end phystop l
      → let (r, l') = kalloc l in
        IsValid kernel_end phystop l'
        × ((r ≡ none) × (l ≡ [])
            ⊎ ((pa : ℕ) × (r ≡ some pa)
                × IsPage kernel_end phystop pa
                × (mem pa l' ≡ false)
                × (kfree kernel_end phystop pa l' ≡ some l)))
  unfolding kalloc
  kalloc_lem [] v = (v, inl (refl, refl))
  kalloc_lem (x ∷ l) v = (
    record { pages = v.pages.1; distinct = v.distinct.1 },
    inr (x, refl, v.pages.0, v.distinct.0, kfree_page x l v.pages.0),
  )

  -- kfree of a page that is not free keeps the free list valid, and the next kalloc returns that page;
  -- an address that is not a page of the range is refused.
  pub kfree_lem :
      (pa : ℕ) (l : List ℕ)
      → IsValid kernel_end phystop l
      → mem pa l ≡ false
      → ((kfree kernel_end phystop pa l ≡ none) × (¬ IsPage kernel_end phystop pa))
        ⊎ ((l' : List ℕ) × (kfree kernel_end phystop pa l ≡ some l')
            × IsValid kernel_end phystop l'
            × (kalloc l' ≡ (some pa, l)))
  unfolding kfree kalloc
  kfree_lem pa l v new =
      elim (Bool-cases (not (pa % pgsize == 0) || (ltb pa kernel_end || leb phystop pa))) [
        | inl bad ↦ inl (rw bad refl, λ p. ground (arith, bad))
        | inr good ↦ inr (
          pa ∷ l,
          rw good refl,
          record {
            pages = ((ground arith, ground arith, ground arith), v.pages);
            distinct = (new, v.distinct);
          },
          refl,
        )
      ]
