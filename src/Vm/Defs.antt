-- ===== src/Vm/Defs.antt =====
-- kernel/vm.c: the pages of page tables as a function from the address of a page and an index to an entry,
-- and the free list of kalloc.c. An address of a table is the address of its page.
use lab_so.Prelude.{
  ℕ, zero, suc, ◌+◌, ◌-◌, ◌*◌, ◌/◌, ◌%◌, ◌^◌, Bool, true, false, not, Option, none, some, List,
  ◌==◌, if◌then◌else◌, leb, update,
}
use lab_so.Kalloc.{pgsize, kalloc}

-- PTE_R, PTE_W, PTE_X and PTE_U
pub record Perm : Type 0 where
  pub readable : Bool
  pub writable : Bool
  pub executable : Bool
  pub user : Bool

abbrev pub no_perm : Perm
no_perm = record { readable = false; writable = false; executable = false; user = false }

-- A page table entry; `pa` is PTE2PA of it.
pub record Pte : Type 0 where
  pub valid : Bool
  pub perm : Perm
  pub pa : ℕ

abbrev pub blank : Pte
blank = record { valid = false; perm = no_perm; pa = 0 }

abbrev pub pgrounddown : ℕ → ℕ
pgrounddown a = a / pgsize * pgsize

-- `PA2PTE(pa) | perm | PTE_V`
abbrev pub entry : ℕ → Perm → Pte
entry pa perm = record { valid = true; perm = perm; pa = pgrounddown pa }

pub record Vm : Type 0 where
  pub tables : ℕ → ℕ → Pte
  pub freelist : List ℕ

-- `*pte = e`
abbrev pub write : ℕ → ℕ → Pte → (ℕ → ℕ → Pte) → ℕ → ℕ → Pte
write table i e tables = update tables table (update (tables table) i e)

-- MAXVA
abbrev pub maxva : ℕ
maxva = 2 ^ 38

-- `PX(level, va)`
unfoldable pub px : ℕ → ℕ → ℕ
px zero va = va / 2 ^ 12 % 512
px (suc zero) va = va / 2 ^ 21 % 512
px (suc (suc level)) va = va / 2 ^ 30 % 512

-- A table that kalloc gave, hung into the entry `i` of `table`.
unfoldable pub hang : ℕ → ℕ → ℕ → (ℕ → ℕ → Pte) → ℕ → ℕ → Pte
hang table i page tables = write table i (entry page no_perm) (update tables page (λ _. blank))

-- What kalloc gave becomes a table.
unfoldable pub new_table : ℕ → ℕ → Vm → Option ℕ × List ℕ → Option ℕ × Vm
unfolding hang
new_table table i v (none, rest) = (none, record v { freelist = rest })
new_table table i v (some p, rest) =
    (some p, record { tables = hang table i p v.tables; freelist = rest })

-- A round of the loop of walk: the table below, if there is one or one is made.
unfoldable pub walk_step : Bool → ℕ → ℕ → ℕ → Vm → Option ℕ × Vm
walk_step alloc level table va v =
    let pte = v.tables table (px level va) in
    if pte.valid
    then (some pte.pa, v)
    else if not alloc
    then (none, v)
    else new_table table (px level va) v (kalloc v.freelist)

-- The loop goes on with the table below, if there is one.
unfoldable pub go_below : (ℕ → Vm → Option (ℕ × ℕ) × Vm) → Option ℕ × Vm → Option (ℕ × ℕ) × Vm
go_below continue (none, v) = (none, v)
go_below continue (some t, v) = continue t v

-- The loop of walk from `level` on: the page and the index of the entry, if any.
unfoldable pub walk_from : Bool → ℕ → ℕ → ℕ → Vm → Option (ℕ × ℕ) × Vm
walk_from alloc zero table va v = (some (table, px zero va), v)
walk_from alloc (suc level) table va v =
    go_below (λ t v'. walk_from alloc level t va v') (walk_step alloc (suc level) table va v)

-- The outer `none` is the panic "walk".
unfoldable pub walk : Bool → ℕ → ℕ → Vm → Option (Option (ℕ × ℕ) × Vm)
walk alloc pagetable va v = if leb maxva va then none else some (walk_from alloc 2 pagetable va v)

-- `none` is 0.
unfoldable pub walkaddr : ℕ → ℕ → Vm → Option ℕ
walkaddr pagetable va v = if leb maxva va then none else elim (walk_from false 2 pagetable va v).0 [
  | none ↦ none
  | some (table, i) ↦
      let pte = v.tables table i in
      if not pte.valid
      then none
      else if not pte.perm.user
      then none
      else if pte.pa == 0
      then none
      else some pte.pa
]

-- How a call ends: it returns 0, or -1, or panics.
pub data Result : Type 0 where
  success failure panic : Result

-- A round of the loop of mappages, after walk.
unfoldable pub map_at : ℕ → Perm → Option (ℕ × ℕ) × Vm → Result × Vm
map_at pa perm (none, v) = (failure, v)
map_at pa perm (some (table, i), v) =
    if (v.tables table i).valid
    then (panic, v)
    else (success, record v { tables = write table i (entry pa perm) v.tables })

unfoldable pub map_page : ℕ → ℕ → ℕ → Perm → Vm → Result × Vm
map_page pagetable a pa perm v = elim (walk true pagetable a v) [
  | none ↦ (panic, v)
  | some r ↦ map_at pa perm r
]

-- The loop goes on after a round that succeeds.
unfoldable pub map_rest : (Vm → Result × Vm) → Result × Vm → Result × Vm
map_rest continue (success, v) = continue v
map_rest continue (failure, v) = (failure, v)
map_rest continue (panic, v) = (panic, v)

-- The loop of mappages; `a` is `last` once `n` is 0.
unfoldable pub map_from : ℕ → ℕ → ℕ → ℕ → Perm → Vm → Result × Vm
map_from zero pagetable a pa perm v = map_page pagetable a pa perm v
map_from (suc n) pagetable a pa perm v =
    map_rest (λ v'. map_from n pagetable (a + pgsize) (pa + pgsize) perm v')
      (map_page pagetable a pa perm v)

unfoldable pub mappages : ℕ → ℕ → ℕ → ℕ → Perm → Vm → Result × Vm
mappages pagetable va size pa perm v =
    if size == 0
    then (panic, v)
    else (let a = pgrounddown va in
        let last = pgrounddown (va + size - 1) in
        map_from ((last - a) / pgsize) pagetable a pa perm v)
