-- ===== src/Vm/Unmap.antt =====
-- kernel/vm.c: uvmunmap, as a change of what the addresses come to.
use lab_so.Prelude.{
  ℕ, zero, suc, ◌+◌, ◌*◌, ◌/◌, ◌%◌, ◌≤◌, ◌<◌, ◌≡◌, ◌≢◌, refl, sym, ◌∙◌, Bool, true, ◌&&◌, inl, inr,
  ◌==◌, if◌then◌else◌, ltb, leb, Bool-cases, arith,
}
use lab_so.Kalloc.{pgsize}
use lab_so.Vm.Defs.{Pte, blank, Vm, maxva, success, map_rest}
use lab_so.Vm.Tree.{Shape, Free}
use lab_so.Vm.User.{unmap_from, uvmunmap}
use lab_so.Vm.Page.{shows, IsPageTable}
use lab_so.Vm.Clear.{Removable, round_lem, next_free, next-Removable}

-- Nothing is mapped at `k` pages from `a` on; elsewhere it is `old`.
abbrev pub unmapped : ℕ → ℕ → (ℕ → Pte) → ℕ → Pte
unmapped k a old va =
    if leb (a / pgsize) (va / pgsize) && ltb (va / pgsize) (a / pgsize + k) then blank else old va

unmapped_none : (a : ℕ) (old : ℕ → Pte) (va : ℕ) → unmapped 0 a old va ≡ old va
unmapped_none a old va = ground arith

unmapped-suc :
    (k a : ℕ) (old new : ℕ → Pte) (va : ℕ)
    → new va ≡ (if va / pgsize == a / pgsize then blank else old va)
    → unmapped k (a + pgsize) new va ≡ unmapped (suc k) a old va
unmapped-suc k a old new va e = elim (Bool-cases (va / pgsize == a / pgsize)) [
  | inl b ↦
      let q : va / pgsize ≡ a / pgsize = ground arith in
      let n : new va ≡ blank = rw b at e in ground arith
  | inr b ↦
      let q : va / pgsize ≢ a / pgsize = ground arith in
      let n : new va ≡ old va = rw b at e in ground arith
]

module _ (kernel_end phystop : ℕ) where
  -- What uvmunmap does.
  pub record Unmaps (root a n : ℕ) (depth : ℕ → ℕ) (v v' : Vm) : Type 0 where
    pub shape : Shape depth v'.tables
    pub free : Free depth v'.freelist
    pub gone : (va : ℕ) → va < maxva → shows root v' va ≡ unmapped n a (shows root v) va

  unmap_from_lem :
      (n : ℕ) (b : Bool) (root a : ℕ) (depth : ℕ → ℕ) (v : Vm)
      → Shape depth v.tables
      → Free depth v.freelist
      → depth root ≡ 3
      → a + n * pgsize ≤ maxva
      → a / pgsize * pgsize ≡ a
      → Removable kernel_end phystop b root n a depth v
      → (v' : Vm) × (unmap_from kernel_end phystop n b root a v ≡ (success, v'))
        × Unmaps root a n depth v v'
  unfolding unmap_from map_rest
  unmap_from_lem zero b root a depth v s f top h al r = (
    v,
    refl,
    record { shape = s; free = f; gone = λ va k. sym (unmapped_none a (shows root v) va) },
  )
  unmap_from_lem (suc n) b root a depth v s f top h al r =
      let (w, e, s', fl, m) = round_lem kernel_end phystop b root a n depth v s f top h al r in
      let (v', g, u) =
        unmap_from_lem n b root (a + pgsize) depth w s'
          (rw fl (next_free kernel_end phystop b root a n depth v s f top h al r b refl)) top
          (omega arith) (omega arith)
          (next-Removable kernel_end phystop b root a n depth v s f top h al r w fl m) in
      (
        v',
        rw e g,
        record {
          shape = u.shape;
          free = u.free;
          gone = λ va k. u.gone va k ∙ unmapped-suc n a (shows root v) (shows root w) va (m va k);
        },
      )

  -- uvmunmap of `npages` pages of a page table, from a page boundary on, each mapped by a leaf, and if the
  -- pages are freed, none twice, none free and none a table: it does not panic, nothing is mapped at
  -- these pages any more, every other address is mapped as before, and the tables still form a tree with
  -- none of them free.
  pub uvmunmap_lem :
      (b : Bool) (root va npages : ℕ) (v : Vm) (t : IsPageTable root v)
      → va % pgsize ≡ 0
      → va + npages * pgsize ≤ maxva
      → Removable kernel_end phystop b root npages va t.depth v
      → (v' : Vm) × (uvmunmap kernel_end phystop root va npages b v ≡ (success, v'))
        × Unmaps root va npages t.depth v v'
  unfolding uvmunmap
  uvmunmap_lem b root va npages v t al h r =
      let e : (va % pgsize == 0) ≡ true = ground arith in
      rw e (unmap_from_lem npages b root va t.depth v t.shape t.free t.top h (omega arith) r)
