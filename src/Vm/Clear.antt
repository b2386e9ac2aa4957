-- ===== src/Vm/Clear.antt =====
-- kernel/vm.c: a round of the loop of uvmunmap.
use lab_so.Prelude.{
  ℕ, suc, ◌+◌, ◌*◌, ◌/◌, ◌%◌, ◌≤◌, ◌<◌, ◌≡◌, ◌≢◌, refl, sym, ap, subst, ◌∙◌, Bool, true, false,
  Option, none, some, List, ◌∷◌, inl, inr, mem, ◌==◌, if◌then◌else◌, Bool-cases, arith,
}
use lab_so.Kalloc.{pgsize, kfree}
use lab_so.Vm.Defs.{blank, Vm, write, maxva, pgrounddown, walk, walk_from, success}
use lab_so.Vm.Px.{Agree-page}
use lab_so.Vm.Tree.{
  view, place, Shape, Free, place-view, no_place-view, place-depth, place-Agree, view-write_self,
  view-write_other, Shape-write, walk_from-place,
}
use lab_so.Vm.User.{is_leaf, clear_pte, clear_entry, unmap_at, unmap_page}
use lab_so.Vm.Page.{shows, place-page}

module _ (kernel_end phystop : ℕ) where
  -- The page at `q` can be given back to kfree: it is a page of the memory that kalloc hands out, no table
  -- of the page table, and not free.
  pub record Freeable (depth : ℕ → ℕ) (fl : List ℕ) (q : ℕ) : Type 0 where
    pub plain : depth q ≡ 0
    pub aligned : pgrounddown q ≡ q
    pub absent : mem q fl ≡ false
    pub low : kernel_end ≤ q
    pub high : q < phystop

  kfree_lem :
      (depth : ℕ → ℕ) (fl : List ℕ) (q : ℕ)
      → Freeable depth fl q
      → kfree kernel_end phystop q fl ≡ some (q ∷ fl)
  unfolding kfree
  kfree_lem depth fl q f =
      let a = f.aligned in
      let l = f.low in let h = f.high in let z : q % pgsize ≡ 0 = omega arith in ground arith

  -- What uvmunmap wants of `n` pages from `a` on, which show the entries `old`: each is mapped by a leaf,
  -- and if the pages are freed, each can be, and none is mapped twice.
  pub record Removable (b : Bool) (root n a : ℕ) (depth : ℕ → ℕ) (v : Vm) : Type 0 where
    pub valid : (j : ℕ) → j < n → (shows root v (a + j * pgsize)).valid ≡ true
    pub leaf : (j : ℕ) → j < n → is_leaf (shows root v (a + j * pgsize)).perm ≡ true
    pub freeable :
        b ≡ true → (j : ℕ) → j < n → Freeable depth v.freelist (shows root v (a + j * pgsize)).pa
    pub single :
        b ≡ true
        → (j k : ℕ) → j < n
        → k < n
        → (shows root v (a + j * pgsize)).pa ≡ (shows root v (a + k * pgsize)).pa
        → j ≡ k

  page_walk :
      (b : Bool) (root a : ℕ) (v : Vm)
      → a < maxva
      → unmap_page kernel_end phystop b root a v
        ≡ unmap_at kernel_end phystop b (walk_from false 2 root a v)
  unfolding unmap_page walk
  page_walk b root a v h = ground arith

  clear_lem :
      (b : Bool) (p i q : ℕ) (depth : ℕ → ℕ) (v : Vm)
      → (v.tables p i).pa ≡ q
      → (b ≡ true → Freeable depth v.freelist q)
      → clear_entry kernel_end phystop b p i v ≡ (
        success,
        record {
          tables = write p i blank v.tables;
          freelist = if b then q ∷ v.freelist else v.freelist;
        },
      )
  unfolding clear_entry clear_pte
  clear_lem false p i q depth v e f = refl
  clear_lem true p i q depth v e f = rw (e, kfree_lem depth v.freelist q (f refl)) refl

  unmap_at_lem :
      (b : Bool) (p i q : ℕ) (depth : ℕ → ℕ) (v : Vm)
      → (v.tables p i).valid ≡ true
      → is_leaf (v.tables p i).perm ≡ true
      → (v.tables p i).pa ≡ q
      → (b ≡ true → Freeable depth v.freelist q)
      → unmap_at kernel_end phystop b (some (p, i), v) ≡ (
        success,
        record {
          tables = write p i blank v.tables;
          freelist = if b then q ∷ v.freelist else v.freelist;
        },
      )
  unfolding unmap_at
  unmap_at_lem b p i q depth v c d e f = rw (c, d) (clear_lem b p i q depth v e f)

  module _ (b : Bool) (root a n : ℕ) (depth : ℕ → ℕ) (v : Vm) (s : Shape depth v.tables)
      (f : Free depth v.freelist) (top : depth root ≡ 3) (h : a + suc n * pgsize ≤ maxva)
      (al : a / pgsize * pgsize ≡ a) (r : Removable b root (suc n) a depth v) where
    -- A round of uvmunmap.
    pub round_lem :
        (w : Vm) × (unmap_page kernel_end phystop b root a v ≡ (success, w))
        × Shape depth w.tables
        × (w.freelist ≡ (if b then (shows root v a).pa ∷ v.freelist else v.freelist))
        × ((va : ℕ)
            → va < maxva
            → shows root w va ≡ (if va / pgsize == a / pgsize then blank else shows root v va))
    round_lem = go (place v.tables 2 root a) refl
      where
        start : a + 0 * pgsize ≡ a
        start = omega arith

        valid0 : (shows root v a).valid ≡ true
        valid0 = ap (λ x. (shows root v x).valid) (sym start) ∙ r.valid 0 (omega arith)

        go :
            (o : Option (ℕ × ℕ))
            → place v.tables 2 root a ≡ o
            → (w : Vm) × (unmap_page kernel_end phystop b root a v ≡ (success, w))
              × Shape depth w.tables
              × (w.freelist ≡ (if b then (shows root v a).pa ∷ v.freelist else v.freelist))
              × ((va : ℕ)
                  → va < maxva
                  → shows root w va
                    ≡ (if va / pgsize == a / pgsize then blank else shows root v va))
        go none e =
            let x = no_place-view v.tables 2 root a e in
            let y = ap (λ z. z.valid) x in let z = valid0 in cc
        go (some (p, i)) e =
            let x = place-view v.tables 2 root a p i e in
            let low = place-depth depth v.tables s 2 root a p i top e in
            let q = (shows root v a).pa in
            let w : Vm = record {
              tables = write p i blank v.tables;
              freelist = if b then q ∷ v.freelist else v.freelist;
            } in
            let leaf0 =
              ap (λ c. is_leaf (shows root v c).perm) (sym start) ∙ r.leaf 0 (omega arith) in
            let free0 : b ≡ true → Freeable depth v.freelist q = λ c.
              subst (λ d. Freeable depth v.freelist (shows root v d).pa) start
                (r.freeable c 0 (omega arith)) in
            let u =
              unmap_at_lem b p i q depth v (sym (ap (λ z. z.valid) x) ∙ valid0)
                (sym (ap (λ z. is_leaf z.perm) x) ∙ leaf0) (sym (ap (λ z. z.pa) x)) free0 in
            let g =
              page_walk b root a v (omega arith)
              ∙ ap (unmap_at kernel_end phystop b)
                  (walk_from-place 2 root a v ∙ ap (λ o. (o, v)) e) in
            (
              w,
              g ∙ u,
              Shape-write v.tables p i blank depth s low,
              refl,
              λ va k. change p i e low va k,
            )
          where
            change :
                (p i : ℕ)
                → place v.tables 2 root a ≡ some (p, i)
                → depth p ≡ 1
                → (va : ℕ) → va < maxva
                → view (write p i blank v.tables) 2 root va
                  ≡ (if va / pgsize == a / pgsize then blank else shows root v va)
            change p i e low va k = elim (Bool-cases (va / pgsize == a / pgsize)) [
              | inl c ↦
                  let m : va / pgsize ≡ a / pgsize = ground arith in
                  rw c (
                    view-write_self v.tables p i blank depth s low 2 root va top
                      (place-page v.tables 2 root va a m ∙ e))
              | inr c ↦
                  let m : place v.tables 2 root va ≢ some (p, i) = λ q.
                    (let g =
                        Agree-page va a k (omega arith)
                          (place-Agree depth v.tables s 2 root root va a p i top top q e).1 in
                      ground (arith, g)) in
                  rw c (view-write_other v.tables p i blank depth s low 2 root va top m)
            ]

    first-Freeable : b ≡ true → Freeable depth v.freelist (shows root v a).pa
    first-Freeable c =
        subst (λ d. Freeable depth v.freelist (shows root v d).pa) (plus_none a)
          (r.freeable c 0 (omega arith))
      where
        plus_none : (x : ℕ) → x + 0 * pgsize ≡ x
        plus_none x = omega arith

    pub next_free :
        (c : Bool) → b ≡ c → Free depth (if c then (shows root v a).pa ∷ v.freelist else v.freelist)
    next_free false q = f
    next_free true q =
        let x = first-Freeable q in
        record { unused = ((x.plain, x.aligned), f.unused); distinct = (x.absent, f.distinct) }

    -- A page after the first shows what it showed.
    after :
        (w : Vm)
        → ((va : ℕ)
            → va < maxva
            → shows root w va ≡ (if va / pgsize == a / pgsize then blank else shows root v va))
        → (j : ℕ) → j < n
        → shows root w (a + pgsize + j * pgsize) ≡ shows root v (a + suc j * pgsize)
    after w m j k =
        let c : ((a + pgsize + j * pgsize) / pgsize == a / pgsize) ≡ false = ground arith in
        m (a + pgsize + j * pgsize) (omega arith) ∙ rw c (ap (shows root v) (page_next a j))
      where
        page_next : (a j : ℕ) → a + pgsize + j * pgsize ≡ a + suc j * pgsize
        page_next a j = omega arith

    next-Freeable :
        (c : Bool)
        → b ≡ c
        → c ≡ true
        → (j : ℕ) → j < n
        → Freeable depth
            (if c then (shows root v a).pa ∷ v.freelist else v.freelist)
            (shows root v (a + suc j * pgsize)).pa
    next-Freeable false q e j k = cc
    next-Freeable true q e j k =
        let x = r.freeable q (suc j) (omega arith) in
        let d : (shows root v a).pa ≢ (shows root v (a + suc j * pgsize)).pa = λ z.
          (let y =
              r.single q 0 (suc j) (omega arith) (omega arith)
                (ap (λ c. (shows root v c).pa) (plus_none a) ∙ z) in
            omega arith) in
        record {
          plain = x.plain;
          aligned = x.aligned;
          absent =
              not_in (shows root v a).pa (shows root v (a + suc j * pgsize)).pa v.freelist d
                x.absent;
          low = x.low;
          high = x.high;
        }
      where
        plus_none : (x : ℕ) → x + 0 * pgsize ≡ x
        plus_none x = omega arith

        not_in : (q p : ℕ) (fl : List ℕ) → q ≢ p → mem p fl ≡ false → mem p (q ∷ fl) ≡ false
        not_in q p fl n m = ground arith

    pub next-Removable :
        (w : Vm)
        → w.freelist ≡ (if b then (shows root v a).pa ∷ v.freelist else v.freelist)
        → ((va : ℕ)
            → va < maxva
            → shows root w va ≡ (if va / pgsize == a / pgsize then blank else shows root v va))
        → Removable b root n (a + pgsize) depth w
    next-Removable w e c = record {
      valid = λ j k. ap (λ z. z.valid) (after w c j k) ∙ r.valid (suc j) (omega arith);
      leaf = λ j k. ap (λ z. is_leaf z.perm) (after w c j k) ∙ r.leaf (suc j) (omega arith);
      freeable = λ q j k. rw (after w c j k, e) (next-Freeable b refl q j k);
      single = λ q j k x y z.
          let u =
            r.single q (suc j) (suc k) (omega arith) (omega arith)
              (sym (ap (λ d. d.pa) (after w c j x)) ∙ (z ∙ ap (λ d. d.pa) (after w c k y))) in
          omega arith;
    }
