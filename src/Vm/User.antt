-- ===== src/Vm/User.antt =====
-- kernel/vm.c: the memory of a process, and the kernel's copies from and to it.
use lab_so.Prelude.{
  ℕ, zero, suc, ◌+◌, ◌-◌, ◌/◌, ◌%◌, Bool, true, false, not, ◌||◌, Option, none, some, List, ◌==◌,
  if◌then◌else◌, ltb, leb, min, update,
}
use lab_so.Kalloc.{pgsize, pgroundup, kalloc, kfree}
use lab_so.Memory.{Mem, memmove}
use lab_so.Vm.Defs.{
  Perm, blank, Vm, write, pgrounddown, walk, walkaddr, Result, success, failure, panic, map_rest,
}

-- `PTE_FLAGS(*pte) != PTE_V`
unfoldable pub is_leaf : Perm → Bool
is_leaf p = p.readable || p.writable || p.executable || p.user

-- `*pte = 0`, with the free list that kfree leaves.
unfoldable pub clear_pte : ℕ → ℕ → Vm → Option (List ℕ) → Result × Vm
clear_pte table i v none = (panic, v)
clear_pte table i v (some fl) =
    (success, record { tables = write table i blank v.tables; freelist = fl })

-- `end` and PHYSTOP, the ends of the memory that kfree takes.
module _ (kernel_end phystop : ℕ) where
  -- `*pte = 0`, after kfree of the page if `do_free`.
  unfoldable pub clear_entry : Bool → ℕ → ℕ → Vm → Result × Vm
  clear_entry do_free table i v = clear_pte table i v (
      if do_free
      then kfree kernel_end phystop (v.tables table i).pa v.freelist
      else some v.freelist)

  -- A round of the loop of uvmunmap, after walk.
  unfoldable pub unmap_at : Bool → Option (ℕ × ℕ) × Vm → Result × Vm
  unmap_at do_free (none, v) = (panic, v)
  unmap_at do_free (some (table, i), v) =
      let pte = v.tables table i in
      if not pte.valid
      then (panic, v)
      else if not (is_leaf pte.perm)
      then (panic, v)
      else clear_entry do_free table i v

  unfoldable pub unmap_page : Bool → ℕ → ℕ → Vm → Result × Vm
  unmap_page do_free pagetable a v = elim (walk false pagetable a v) [
    | none ↦ (panic, v)
    | some r ↦ unmap_at do_free r
  ]

  unfoldable pub unmap_from : ℕ → Bool → ℕ → ℕ → Vm → Result × Vm
  unmap_from zero do_free pagetable a v = (success, v)
  unmap_from (suc npages) do_free pagetable a v =
      map_rest (λ v'. unmap_from npages do_free pagetable (a + pgsize) v')
        (unmap_page do_free pagetable a v)

  unfoldable pub uvmunmap : ℕ → ℕ → ℕ → Bool → Vm → Result × Vm
  uvmunmap pagetable va npages do_free v =
      if not (va % pgsize == 0) then (panic, v) else unmap_from npages do_free pagetable va v

  -- The new size, and the memory; `none` is a panic.
  unfoldable pub uvmdealloc : ℕ → ℕ → ℕ → Vm → Option (ℕ × Vm)
  uvmdealloc pagetable oldsz newsz v =
      if leb oldsz newsz
      then some (oldsz, v)
      else if ltb (pgroundup newsz) (pgroundup oldsz)
      then (let (r, v') =
            uvmunmap pagetable (pgroundup newsz) ((pgroundup oldsz - pgroundup newsz) / pgsize) true
              v in
          elim r [ success ↦ some (newsz, v') | failure ↦ some (newsz, v') | panic ↦ none ])
      else some (newsz, v)

-- uvmcreate: a table with no entry; `none` is 0.
unfoldable pub uvmcreate : Vm → Option ℕ × Vm
uvmcreate v =
    let (page, rest) = kalloc v.freelist in
    elim page [
      | none ↦ (none, record v { freelist = rest })
      | some p ↦ (some p, record { tables = update v.tables p (λ _. blank); freelist = rest })
    ]

-- The bytes of a range that are in its first page: `PGSIZE - (va - va0)`, or all.
unfoldable pub chunk : ℕ → ℕ → ℕ
chunk va len = min (pgsize - (va - pgrounddown va)) len

-- `if(pa0 == 0) return -1`, and else the rest of a round.
unfoldable pub with_page : Mem → (ℕ → Bool × Mem) → Option ℕ → Bool × Mem
with_page m continue none = (false, m)
with_page m continue (some pa0) = continue pa0

-- The loop of copyout. `fuel` is a bound on the rounds; a round copies a byte at least. The Boolean says
-- whether it returns 0.
unfoldable pub copyout_from : ℕ → ℕ → ℕ → ℕ → ℕ → Vm → Mem → Bool × Mem
copyout_from zero pagetable dstva src len v m = (true, m)
copyout_from (suc fuel) pagetable dstva src len v m =
    if len == 0
    then (true, m)
    else with_page m
        (λ pa0.
          copyout_from fuel pagetable (pgrounddown dstva + pgsize) (src + chunk dstva len)
            (len - chunk dstva len) v
            (memmove (pa0 + (dstva - pgrounddown dstva)) src (chunk dstva len) m))
        (walkaddr pagetable (pgrounddown dstva) v)

unfoldable pub copyout : ℕ → ℕ → ℕ → ℕ → Vm → Mem → Bool × Mem
copyout pagetable dstva src len v m = copyout_from len pagetable dstva src len v m

unfoldable pub copyin_from : ℕ → ℕ → ℕ → ℕ → ℕ → Vm → Mem → Bool × Mem
copyin_from zero pagetable dst srcva len v m = (true, m)
copyin_from (suc fuel) pagetable dst srcva len v m =
    if len == 0
    then (true, m)
    else with_page m
        (λ pa0.
          copyin_from fuel pagetable (dst + chunk srcva len) (pgrounddown srcva + pgsize)
            (len - chunk srcva len) v
            (memmove dst (pa0 + (srcva - pgrounddown srcva)) (chunk srcva len) m))
        (walkaddr pagetable (pgrounddown srcva) v)

unfoldable pub copyin : ℕ → ℕ → ℕ → ℕ → Vm → Mem → Bool × Mem
copyin pagetable dst srcva len v m = copyin_from len pagetable dst srcva len v m
