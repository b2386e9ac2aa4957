-- ===== src/Kalloc.antt =====
-- kernel/kalloc.c (so24lab3g02): the allocator of physical pages. The free list is the list of the
-- pages that the `next` pointers lead through; what fills a page is not modelled.
pub mod Pages
mod Tests
use lab_so.Prelude.{
  ℕ, zero, suc, ◌+◌, ◌-◌, ◌*◌, ◌/◌, ◌%◌, Bool, true, false, not, ◌||◌, Option, none, some, List, [],
  ◌∷◌, ◌==◌, if◌then◌else◌, ltb, leb,
}

abbrev pub pgsize : ℕ
pgsize = 4096

-- `PGROUNDUP`
abbrev pub pgroundup : ℕ → ℕ
pgroundup sz = (sz + (pgsize - 1)) / pgsize * pgsize

-- `end`, the first address after the kernel, and PHYSTOP.
module _ (kernel_end phystop : ℕ) where
  -- `none` is the panic "kfree".
  unfoldable pub kfree : ℕ → List ℕ → Option (List ℕ)
  kfree pa freelist =
      if not (pa % pgsize == 0) || (ltb pa kernel_end || leb phystop pa)
      then none
      else some (pa ∷ freelist)

  -- The loop of `freerange` from `p` on. `none` is a panic, or the end of the fuel.
  unfoldable pub freerange_from : ℕ → ℕ → ℕ → List ℕ → Option (List ℕ)
  freerange_from zero pa_end p freelist = none
  freerange_from (suc fuel) pa_end p freelist = elim (leb (p + pgsize) pa_end) [
    | false ↦ some freelist
    | true ↦ elim (kfree p freelist) [
      | none ↦ none
      | some freelist' ↦ freerange_from fuel pa_end (p + pgsize) freelist'
    ]
  ]

  unfoldable pub freerange : ℕ → ℕ → List ℕ → Option (List ℕ)
  freerange pa_start pa_end freelist =
      freerange_from (pa_end / pgsize + 1) pa_end (pgroundup pa_start) freelist

  unfoldable pub kinit : Option (List ℕ)
  unfolding freerange
  kinit = freerange kernel_end phystop []

-- The page, `none` for 0, and the free list.
unfoldable pub kalloc : List ℕ → Option ℕ × List ℕ
kalloc [] = (none, [])
kalloc (r ∷ freelist) = (some r, freelist)
