-- ===== src/Vm/Map.antt =====
-- kernel/vm.c: mappages, as a change of what the addresses come to.
use lab_so.Prelude.{
  ℕ, zero, suc, ◌+◌, ◌-◌, ◌*◌, ◌/◌, ◌≤◌, ◌<◌, ◌≡◌, ◌≢◌, refl, sym, ap, ◌∙◌, false, ◌&&◌, inl, inr,
  ◌⊎◌, ◌==◌, if◌then◌else◌, ltb, leb, Bool-cases, arith,
}
use lab_so.Kalloc.{pgsize}
use lab_so.Vm.Defs.{
  Perm, Pte, entry, Vm, maxva, pgrounddown, Result, success, failure, panic, map_page, map_rest,
  map_from, mappages,
}
use lab_so.Vm.Page.{IsPageTable, shows, mapped, MapsOne, Maps, Ending, map_page_lem}

mapped_none : (a pa : ℕ) (perm : Perm) (old : ℕ → Pte) (va : ℕ) → mapped 0 a pa perm old va ≡ old va
mapped_none a pa perm old va = ground arith

mapped_in :
    (k a pa : ℕ) (perm : Perm) (old : ℕ → Pte) (va : ℕ)
    → a / pgsize ≤ va / pgsize
    → va / pgsize < a / pgsize + k
    → mapped k a pa perm old va ≡ entry (pa + (va / pgsize - a / pgsize) * pgsize) perm
mapped_in k a pa perm old va h l = ground arith

mapped_out :
    (k a pa : ℕ) (perm : Perm) (old : ℕ → Pte) (va : ℕ)
    → (va / pgsize < a / pgsize) ⊎ (a / pgsize + k ≤ va / pgsize)
    → mapped k a pa perm old va ≡ old va
mapped_out k a pa perm old va h = ground arith

mapped-suc :
    (k a pa : ℕ) (perm : Perm) (old new : ℕ → Pte) (va : ℕ)
    → a / pgsize * pgsize ≡ a
    → new va ≡ (if va / pgsize == a / pgsize then entry pa perm else old va)
    → mapped k (a + pgsize) (pa + pgsize) perm new va ≡ mapped (suc k) a pa perm old va
mapped-suc k a pa perm old new va al e = elim (Bool-cases (va / pgsize == a / pgsize)) [
  | inl b ↦
      let q : va / pgsize ≡ a / pgsize = ground arith in
      let x = mapped_out k (a + pgsize) (pa + pgsize) perm new va (inl (omega arith)) in
      let y = mapped_in (suc k) a pa perm old va (omega arith) (omega arith) in
      let z : pa + (va / pgsize - a / pgsize) * pgsize ≡ pa = omega arith in
      x ∙ (rw b at e) ∙ sym (y ∙ ap (λ u. entry u perm) z)
  | inr b ↦
      let q : va / pgsize ≢ a / pgsize = ground arith in
      let n : new va ≡ old va = rw b at e in
      elim (Bool-cases (leb (a / pgsize) (va / pgsize) && ltb (va / pgsize) (a / pgsize + suc k))) [
        | inl c ↦
            let x =
              mapped_in k (a + pgsize) (pa + pgsize) perm new va (ground arith) (ground arith) in
            let y = mapped_in (suc k) a pa perm old va (ground arith) (ground arith) in
            let z : pa + pgsize + (va / pgsize - (a + pgsize) / pgsize) * pgsize
                ≡ pa + (va / pgsize - a / pgsize) * pgsize =
              ground arith in
            x ∙ ap (λ u. entry u perm) z ∙ sym y
        | inr c ↦
            let x = mapped_out k (a + pgsize) (pa + pgsize) perm new va (ground arith) in
            let y = mapped_out (suc k) a pa perm old va (ground arith) in x ∙ n ∙ sym y
      ]
]

page_next : (a j : ℕ) → a + pgsize + j * pgsize ≡ a + suc j * pgsize
page_next a j = omega arith

one_round :
    (root a n pa : ℕ) (perm : Perm) (v v' : Vm) (r : Result)
    → r ≢ success
    → IsPageTable root v'
    → MapsOne root a pa perm v r v'
    → Maps root a (suc n) pa perm v (r, v')
one_round root a n pa perm v v' success q t m = absurd (q refl)
one_round root a n pa perm v v' failure q t m = (
  0,
  t,
  (omega arith, m.1),
  (λ va h. m.0 va h ∙ sym (mapped_none a pa perm (shows root v) va)),
  λ j h. absurd (omega arith),
)
one_round root a n pa perm v v' panic q t m = (
  0,
  t,
  (omega arith, ap (λ x. (shows root v x).valid) (plus_none a) ∙ m.1),
  (λ va h. m.0 va h ∙ sym (mapped_none a pa perm (shows root v) va)),
  λ j h. absurd (omega arith),
)
  where
    plus_none : (x : ℕ) → x + 0 * pgsize ≡ x
    plus_none x = omega arith

module _ (root a n pa : ℕ) (perm : Perm) (v w : Vm) (h : a + n * pgsize < maxva)
    (al : a / pgsize * pgsize ≡ a) (f : (shows root v a).valid ≡ false)
    (m : (va : ℕ)
      → va < maxva
      → shows root w va
        ≡ (if va / pgsize == a / pgsize then entry pa perm else shows root v va)) where
  -- A page after the first shows what it showed.
  after :
      (j : ℕ) → j < n → shows root w (a + pgsize + j * pgsize) ≡ shows root v (a + suc j * pgsize)
  after j k =
      let b : ((a + pgsize + j * pgsize) / pgsize == a / pgsize) ≡ false = ground arith in
      m (a + pgsize + j * pgsize) (omega arith) ∙ (rw b (ap (shows root v) (page_next a j)))

  ending :
      (k : ℕ) (r : Result) (v' : Vm)
      → Ending root (a + pgsize) n k w r v'
      → Ending root a (suc n) (suc k) v r v'
  ending k success v' e = ap suc e
  ending k failure v' e = (omega arith, e.1)
  ending k panic v' e = (omega arith, sym (ap (λ z. z.valid) (after k e.0)) ∙ e.1)

  unmapped :
      (k : ℕ)
      → k ≤ n
      → ((j : ℕ) → j < k → (shows root w (a + pgsize + j * pgsize)).valid ≡ false)
      → (j : ℕ) → j < suc k
      → (shows root v (a + j * pgsize)).valid ≡ false
  unmapped k l g zero q = ap (λ x. (shows root v x).valid) (plus_none a) ∙ f
    where
      plus_none : (x : ℕ) → x + 0 * pgsize ≡ x
      plus_none x = omega arith
  unmapped k l g (suc j) q = sym (ap (λ z. z.valid) (after j (omega arith))) ∙ g j (omega arith)

  Ending-le : (k : ℕ) (r : Result) (v' : Vm) → Ending root (a + pgsize) n k w r v' → k ≤ n
  Ending-le k success v' e = omega arith
  Ending-le k failure v' e = let x = e.0 in omega arith
  Ending-le k panic v' e = let x = e.0 in omega arith

  more_rounds :
      (x : Result × Vm)
      → Maps root (a + pgsize) n (pa + pgsize) perm w x
      → Maps root a (suc n) pa perm v x
  more_rounds (r, v') (k, t, e, c, g) = (
    suc k,
    t,
    ending k r v' e,
    (λ va q. c va q ∙ mapped-suc k a pa perm (shows root v) (shows root w) va al (m va q)),
    unmapped k (Ending-le k r v' e) g,
  )

no_rounds :
    (root a pa : ℕ) (perm : Perm) (w : Vm)
    → IsPageTable root w
    → Maps root a 0 pa perm w (success, w)
no_rounds root a pa perm w t = (
  0,
  t,
  refl,
  (λ va h. sym (mapped_none a pa perm (shows root w) va)),
  λ j h. absurd (omega arith),
)

map_from_lem :
    (n root a pa : ℕ) (perm : Perm) (v : Vm)
    → a + n * pgsize < maxva
    → a / pgsize * pgsize ≡ a
    → IsPageTable root v
    → Maps root a (suc n) pa perm v (map_from n root a pa perm v)
unfolding map_from map_rest
map_from_lem zero root a pa perm v h al t =
    let (t', m) = map_page_lem root a pa perm v (omega arith) t in
    go (map_page root a pa perm v).0 (map_page root a pa perm v).1 t' m
  where
    go :
        (r : Result) (w : Vm)
        → IsPageTable root w
        → MapsOne root a pa perm v r w
        → Maps root a 1 pa perm v (r, w)
    go success w t' m =
        more_rounds root a 0 pa perm v w h al m.0 m.1 (success, w)
          (no_rounds root (a + pgsize) (pa + pgsize) perm w t')
    go failure w t' m = one_round root a 0 pa perm v w failure (λ x. cc) t' m
    go panic w t' m = one_round root a 0 pa perm v w panic (λ x. cc) t' m
map_from_lem (suc n) root a pa perm v h al t =
    let (t', m) = map_page_lem root a pa perm v (omega arith) t in
    go (map_page root a pa perm v).0 (map_page root a pa perm v).1 t' m
      (λ w u. map_from_lem n root (a + pgsize) (pa + pgsize) perm w (omega arith) (omega arith) u)
  where
    go :
        (r : Result) (w : Vm)
        → IsPageTable root w
        → MapsOne root a pa perm v r w
        → ((w : Vm)
            → IsPageTable root w
            → Maps root
                (a + pgsize)
                (suc n)
                (pa + pgsize)
                perm
                w
                (map_from n root (a + pgsize) (pa + pgsize) perm w))
        → Maps root a
            (suc (suc n))
            pa
            perm
            v
            (map_rest (λ v'. map_from n root (a + pgsize) (pa + pgsize) perm v') (r, w))
    go success w t' m rec =
        more_rounds root a (suc n) pa perm v w h al m.0 m.1
          (map_from n root (a + pgsize) (pa + pgsize) perm w) (rec w t')
    go failure w t' m rec = one_round root a (suc n) pa perm v w failure (λ x. cc) t' m
    go panic w t' m rec = one_round root a (suc n) pa perm v w panic (λ x. cc) t' m

-- mappages of a range of addresses in a page table: with `k` pages mapped, in order, and every other
-- address left as it was, it returns 0 once all are mapped; -1 if there is no free page for a table;
-- and it panics at a page that is mapped already. What it maps was not mapped before, and the page
-- table stays one.
pub mappages_lem :
    (root va size pa : ℕ) (perm : Perm) (v : Vm)
    → 0 < size
    → va + size ≤ maxva
    → IsPageTable root v
    → Maps root
        (pgrounddown va)
        (suc ((pgrounddown (va + size - 1) - pgrounddown va) / pgsize))
        pa
        perm
        v
        (mappages root va size pa perm v)
unfolding mappages
mappages_lem root va size pa perm v h k t =
    let e : (size == 0) ≡ false = ground arith in
    rw e (
      map_from_lem ((pgrounddown (va + size - 1) - pgrounddown va) / pgsize) root (pgrounddown va)
        pa perm v (omega arith) (omega arith) t)
