-- ===== src/Vm/Tests.antt =====
-- kernel/vm.c: runs at concrete inputs, and the theorems at such inputs.
use lab_so.Prelude.{
  ℕ, zero, suc, ◌+◌, ◌*◌, ◌<◌, ◌≡◌, refl, true, false, [], ◌∷◌, ◌==◌, if◌then◌else◌, arith,
}
use lab_so.Kalloc.{pgsize}
use lab_so.Memory.{Mem}
use lab_so.Vm.Defs.{
  Perm, no_perm, blank, entry, Vm, px, walk_from, go_below, walk_step, walkaddr, success, mappages,
}
use lab_so.Vm.User.{uvmunmap, copyout, copyin, is_leaf}
use lab_so.Vm.Tree.{Shape}
use lab_so.Vm.Page.{shows, IsPageTable, Maps}
use lab_so.Vm.Map.{mappages_lem}
use lab_so.Vm.Clear.{Freeable, Removable}
use lab_so.Vm.Unmap.{Unmaps, uvmunmap_lem}
use lab_so.Vm.Copy.{Stands, copyin-copyout}

abbrev user_perm : Perm
user_perm = record { readable = true; writable = true; executable = false; user = true }

-- A page table with one user page: address 0 is at 0x4000.
abbrev small : Vm
small = record {
  tables = λ p i.
      if i == 0
      then (if p == 4096
          then entry 8192 no_perm
          else if p == 8192
          then entry 12288 no_perm
          else if p == 12288
          then entry 16384 user_perm
          else blank)
      else blank;
  freelist = 20480 ∷ [];
}

abbrev depth : ℕ → ℕ
depth p = if p == 4096 then 3 else if p == 8192 then 2 else if p == 12288 then 1 else 0

small-Shape : Shape depth small.tables
small-Shape = record {
  below = λ l p i h v. ground arith;
  once = λ l p q i j h g v u e. ground arith;
}

abbrev small-IsPageTable : IsPageTable 4096 small
small-IsPageTable = record {
  depth = depth;
  top = refl;
  shape = small-Shape;
  free = record { unused = ((refl, refl), tt); distinct = (refl, tt) };
}

shown : shows 4096 small 0 ≡ entry 16384 user_perm
unfolding px
shown = refl

mappages_lem_example :
    Maps 4096 4096 1 24576 user_perm small (mappages 4096 4096 4096 24576 user_perm small)
mappages_lem_example =
    mappages_lem 4096 4096 4096 24576 user_perm small (omega arith) (omega arith) small-IsPageTable

only_zero : (P : ℕ → Type 0) → P 0 → (j : ℕ) → j < 1 → P j
only_zero P p zero h = p
only_zero P p (suc j) h = absurd (omega arith)

small-Removable : Removable 4096 65536 true 4096 1 0 depth small
unfolding px is_leaf
small-Removable = record {
  valid = only_zero (λ j. (shows 4096 small (0 + j * pgsize)).valid ≡ true) refl;
  leaf = only_zero (λ j. is_leaf (shows 4096 small (0 + j * pgsize)).perm ≡ true) refl;
  freeable = λ e.
      only_zero (λ j. Freeable 4096 65536 depth (20480 ∷ []) (shows 4096 small (0 + j * pgsize)).pa)
        (record {
          plain = refl;
          aligned = refl;
          absent = refl;
          low = omega arith;
          high = omega arith;
        });
  single = λ e j k h g q. omega arith;
}

uvmunmap_lem_example :
    (v' : Vm) × (uvmunmap 4096 65536 4096 0 1 true small ≡ (success, v'))
    × Unmaps 4096 65536 4096 0 1 depth small v'
uvmunmap_lem_example =
    uvmunmap_lem 4096 65536 true 4096 0 1 small small-IsPageTable (omega arith) (omega arith)
      small-Removable

small-Stands : Stands 4096 small 5 2 (λ k. 16389 + k)
unfolding walkaddr walk_from go_below walk_step px
small-Stands zero h = refl
small-Stands (suc zero) h = refl
small-Stands (suc (suc k)) h = absurd (omega arith)

abbrev letters : Mem
letters a = a

copyin-copyout_example :
    let (ok, m') = copyout 4096 5 100 2 small letters in
    let (ok', m'') = copyin 4096 200 5 2 small m' in
    (ok ≡ true) × (ok' ≡ true) × ((k : ℕ) → k < 2 → m'' (200 + k) ≡ letters (100 + k))
copyin-copyout_example =
    copyin-copyout 4096 5 100 200 2 small letters (λ k. 16389 + k) small-Stands
      ((λ j k p q e. omega arith), λ j k p q e. omega arith)
      ((λ j k p q e. omega arith), λ j k p q e. omega arith)
