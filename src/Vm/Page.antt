-- ===== src/Vm/Page.antt =====
-- kernel/vm.c: a round of the loop of mappages.
use lab_so.Prelude.{
  ℕ, zero, suc, ◌+◌, ◌-◌, ◌*◌, ◌/◌, ◌<◌, ◌≡◌, ◌≢◌, sym, ap, ◌∙◌, true, false, ◌&&◌, Option, none,
  some, [], inl, inr, ◌==◌, if◌then◌else◌, ltb, leb, Bool-cases, arith,
}
use lab_so.Kalloc.{pgsize}
use lab_so.Vm.Defs.{
  Perm, Pte, entry, Vm, write, px, maxva, walk, walk_from, Result, success, failure, panic, map_at,
  map_page,
}
use lab_so.Vm.Px.{Agree-page, px-page}
use lab_so.Vm.Tree.{
  view, place, Shape, Free, place-view, place-depth, place-Agree, view-write_self, view-write_other,
  Shape-write,
}
use lab_so.Vm.Walk.{Reached, walk_from-Reached}

-- The entry of an address in the page table `root`.
abbrev pub shows : ℕ → Vm → ℕ → Pte
shows root v va = view v.tables 2 root va

-- A page table: its tables form a tree of three levels, and no free page is one of them.
pub record IsPageTable (root : ℕ) (v : Vm) : Type 0 where
  pub depth : ℕ → ℕ
  pub top : depth root ≡ 3
  pub shape : Shape depth v.tables
  pub free : Free depth v.freelist

-- `old`, but for `k` pages from `a` on, which come to pages from `pa` on.
abbrev pub mapped : ℕ → ℕ → ℕ → Perm → (ℕ → Pte) → ℕ → Pte
mapped k a pa perm old va =
    if leb (a / pgsize) (va / pgsize) && ltb (va / pgsize) (a / pgsize + k)
    then entry (pa + (va / pgsize - a / pgsize) * pgsize) perm
    else old va

pub place-page :
    (tables : ℕ → ℕ → Pte) (l t va wa : ℕ)
    → va / pgsize ≡ wa / pgsize
    → place tables l t va ≡ place tables l t wa
place-page tables zero t va wa e = ap (λ i. some (t, i)) (px-page zero va wa e)
place-page tables (suc l) t va wa e = rw (px-page (suc l) va wa e) (
    ap (λ r. if (tables t (px (suc l) wa)).valid then r else none)
      (place-page tables l (tables t (px (suc l) wa)).pa va wa e))

-- What a round of mappages does at the page of `a`.
abbrev pub MapsOne : ℕ → ℕ → ℕ → Perm → Vm → Result → Vm → Type 0
MapsOne root a pa perm v success v' =
    ((shows root v a).valid ≡ false)
    × ((va : ℕ)
        → va < maxva
        → shows root v' va ≡ (if va / pgsize == a / pgsize then entry pa perm else shows root v va))
MapsOne root a pa perm v failure v' =
    ((va : ℕ) → va < maxva → shows root v' va ≡ shows root v va) × (v'.freelist ≡ [])
MapsOne root a pa perm v panic v' =
    ((va : ℕ) → va < maxva → shows root v' va ≡ shows root v va) × ((shows root v a).valid ≡ true)

module _ (root a pa : ℕ) (perm : Perm) (v : Vm) (h : a < maxva) (t : IsPageTable root v) where
  at_place :
      (depth' : ℕ → ℕ) (r : Option (ℕ × ℕ)) (v' : Vm)
      → Reached t.depth depth' 2 root a v r v'
      → IsPageTable root (map_at pa perm (r, v')).1
        × MapsOne root a pa perm v (map_at pa perm (r, v')).0 (map_at pa perm (r, v')).1
  unfolding map_at
  at_place depth' none v' x = (
    record {
      depth = depth';
      top = x.walked.depths root 2 t.top;
      shape = x.walked.shape;
      free = x.walked.free;
    },
    ((λ va k. x.walked.views 2 root va t.top), x.outcome),
  )
  at_place depth' (some (p, i)) v' x = elim (Bool-cases (v'.tables p i).valid) [
    | inl b ↦ rw b (
      record { depth = depth'; top = top'; shape = x.walked.shape; free = x.walked.free },
      ((λ va k. x.walked.views 2 root va t.top), (ap (λ z. z.valid) here ∙ b)),
    )
    | inr b ↦ rw b (
      record {
        depth = depth';
        top = top';
        shape = Shape-write v'.tables p i (entry pa perm) depth' x.walked.shape low;
        free = x.walked.free;
      },
      ((ap (λ z. z.valid) here ∙ b), change),
    )
  ]
    where
      top' : depth' root ≡ 3
      top' = x.walked.depths root 2 t.top

      here : shows root v a ≡ v'.tables p i
      here = sym (x.walked.views 2 root a t.top) ∙ place-view v'.tables 2 root a p i x.outcome

      low : depth' p ≡ 1
      low = place-depth depth' v'.tables x.walked.shape 2 root a p i top' x.outcome

      change :
          (va : ℕ)
          → va < maxva
          → view (write p i (entry pa perm) v'.tables) 2 root va
            ≡ (if va / pgsize == a / pgsize then entry pa perm else shows root v va)
      change va k = elim (Bool-cases (va / pgsize == a / pgsize)) [
        | inl b ↦
            let e : va / pgsize ≡ a / pgsize = ground arith in
            rw b (
              view-write_self v'.tables p i (entry pa perm) depth' x.walked.shape low 2 root va top'
                (place-page v'.tables 2 root va a e ∙ x.outcome))
        | inr b ↦
            let n : place v'.tables 2 root va ≢ some (p, i) = λ q.
              (let g =
                  Agree-page va a k h
                    (place-Agree depth' v'.tables x.walked.shape 2 root root va a p i top' top' q
                      x.outcome).1 in
                ground (arith, g)) in
            rw b (
              view-write_other v'.tables p i (entry pa perm) depth' x.walked.shape low 2 root va
                top' n
              ∙ x.walked.views 2 root va t.top)
      ]

  map_page-walk : map_page root a pa perm v ≡ map_at pa perm (walk_from true 2 root a v)
  unfolding map_page walk
  map_page-walk = ground arith

  pub map_page_lem :
      IsPageTable root (map_page root a pa perm v).1
      × MapsOne root a pa perm v (map_page root a pa perm v).0 (map_page root a pa perm v).1
  map_page_lem =
      let (d, x) = walk_from-Reached 2 root a t.depth v t.shape t.free t.top in
      rw map_page-walk (at_place d (walk_from true 2 root a v).0 (walk_from true 2 root a v).1 x)

-- How a call of mappages of `n` pages ends that has mapped `k` pages: all of them; or short of a free
-- page; or at a page that is mapped already.
abbrev pub Ending : ℕ → ℕ → ℕ → ℕ → Vm → Result → Vm → Type 0
Ending root a n k v success v' = k ≡ n
Ending root a n k v failure v' = (k < n) × (v'.freelist ≡ [])
Ending root a n k v panic v' = (k < n) × ((shows root v (a + k * pgsize)).valid ≡ true)

-- What a call of mappages of `n` pages does.
abbrev pub Maps : ℕ → ℕ → ℕ → ℕ → Perm → Vm → Result × Vm → Type 0
Maps root a n pa perm v (r, v') =
    (k : ℕ) × IsPageTable root v'
    × Ending root a n k v r v'
    × ((va : ℕ) → va < maxva → shows root v' va ≡ mapped k a pa perm (shows root v) va)
    × ((j : ℕ) → j < k → (shows root v (a + j * pgsize)).valid ≡ false)
