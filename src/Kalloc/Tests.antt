-- ===== src/Kalloc/Tests.antt =====
-- kernel/kalloc.c: a small memory, and the theorems at it.
use lab_so.Prelude.{
  ℕ, ◌-◌, ◌/◌, ◌≡◌, refl, ◌⊎◌, false, none, some, List, [], ◌∷◌, length, mem, arith,
}
use lab_so.Kalloc.{pgsize, pgroundup, kfree, freerange_from, kinit, kalloc}
use lab_so.Kalloc.Pages.{IsPage, IsValid, kinit_lem, kalloc_lem, kfree_lem}

-- The kernel ends inside the second page, and memory ends with the fourth.
kinit_runs : kinit 5000 16384 ≡ some (12288 ∷ 8192 ∷ [])
unfolding kinit freerange_from kfree
kinit_runs = refl

double_free : kfree 5000 16384 8192 (8192 ∷ []) ≡ some (8192 ∷ 8192 ∷ [])
unfolding kfree
double_free = refl

kinit_lem_example :
    (l : List ℕ) × (kinit 5000 16384 ≡ some l)
    × IsValid 5000 16384 l
    × (length l ≡ (16384 - pgroundup 5000) / pgsize)
kinit_lem_example = kinit_lem 5000 16384 (omega arith)

two_pages-IsValid : IsValid 5000 16384 (12288 ∷ 8192 ∷ [])
two_pages-IsValid = record {
  pages = ((refl, omega arith, omega arith), ((refl, omega arith, omega arith), tt));
  distinct = (refl, (refl, tt));
}

abbrev two_pages : List ℕ
two_pages = 12288 ∷ 8192 ∷ []

kalloc_lem_example :
    let (r, l') = kalloc two_pages in
    IsValid 5000 16384 l'
    × ((r ≡ none) × (two_pages ≡ [])
        ⊎ ((pa : ℕ) × (r ≡ some pa)
            × IsPage 5000 16384 pa
            × (mem pa l' ≡ false)
            × (kfree 5000 16384 pa l' ≡ some two_pages)))
kalloc_lem_example = kalloc_lem 5000 16384 two_pages two_pages-IsValid

kfree_lem_example :
    ((kfree 5000 16384 77 two_pages ≡ none) × (¬ IsPage 5000 16384 77))
    ⊎ ((l' : List ℕ) × (kfree 5000 16384 77 two_pages ≡ some l')
        × IsValid 5000 16384 l'
        × (kalloc l' ≡ (some 77, two_pages)))
kfree_lem_example = kfree_lem 5000 16384 77 two_pages two_pages-IsValid refl
