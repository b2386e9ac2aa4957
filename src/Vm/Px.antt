-- ===== src/Vm/Px.antt =====
-- kernel/vm.c: an address is its three indices and its offset.
use lab_so.Prelude.{ℕ, zero, suc, ◌/◌, ◌<◌, ◌≡◌, arith}
use lab_so.Kalloc.{pgsize}
use lab_so.Vm.Defs.{px, maxva}

-- The indices of levels 0 to `l` are the same.
abbrev pub Agree : ℕ → ℕ → ℕ → Type 0
Agree zero va wa = px zero va ≡ px zero wa
Agree (suc l) va wa = Agree l va wa × (px (suc l) va ≡ px (suc l) wa)

pub Agree-page : (va wa : ℕ) → va < maxva → wa < maxva → Agree 2 va wa → va / pgsize ≡ wa / pgsize
unfolding px
Agree-page va wa h k ((a, b), c) = omega arith

pub px-page : (l va wa : ℕ) → va / pgsize ≡ wa / pgsize → px l va ≡ px l wa
unfolding px
px-page zero va wa e = omega arith
px-page (suc zero) va wa e = omega arith
px-page (suc (suc l)) va wa e = omega arith
