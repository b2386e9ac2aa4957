-- ===== src/Proc/Fair.antt =====
-- kernel/proc.c: the scheduler gives the CPU to each process that can run, in turn.
use lab_so.Prelude.{
  ℕ, zero, suc, ◌+◌, ◌<◌, ◌≡◌, ◌≢◌, refl, sym, ap, subst, ◌∙◌, inl, inr, true, false, List, [], ◌∷◌,
  ◌++◌, ◌==◌, if◌then◌else◌, ltb, leb, ◌&&◌, update, update_eq, update_other, Bool-cases,
  ℕ_discrete, arith,
}
use lab_so.Proc.Defs.{nproc, runnable, running, Procs}
use lab_so.Proc.Scheduler.{is_runnable, scan, scheduler}

-- How often the slot `i` stands in the list.
abbrev pub count : ℕ → List ℕ → ℕ
count i [] = 0
count i (x ∷ xs) = if x == i then suc (count i xs) else count i xs

count-append : (i : ℕ) (xs ys : List ℕ) → count i (xs ++ ys) ≡ count i xs + count i ys
count-append i [] ys = omega arith
count-append i (x ∷ xs) ys = elim (Bool-cases (x == i)) [
  | inl t ↦ rw t (omega (arith, count-append i xs ys))
  | inr t ↦ rw t (count-append i xs ys)
]

module _ (swtch : ℕ → Procs → Procs) where
  -- The process in slot `i` gives the CPU back in the state RUNNABLE, as yield does, and stays so while
  -- another runs.
  pub record Yields (i : ℕ) : Type 0 where
    pub own : (t : Procs) → (t i).state ≡ running → (swtch i t i).state ≡ runnable
    pub others :
        (j : ℕ) (t : Procs) → j ≢ i → (t i).state ≡ runnable → (swtch j t i).state ≡ runnable

  scan_skip :
      (n j : ℕ) (t : Procs)
      → is_runnable (t j).state ≡ false
      → scan swtch (suc n) j t ≡ scan swtch n (j + 1) t
  unfolding scan
  scan_skip n j t e = rw e refl

  scan_run :
      (n j : ℕ) (t : Procs)
      → is_runnable (t j).state ≡ true
      → scan swtch (suc n) j t ≡ (
        j ∷ (scan swtch n (j + 1) (swtch j (update t j (record (t j) { state = running })))).0,
        (scan swtch n (j + 1) (swtch j (update t j (record (t j) { state = running })))).1,
      )
  unfolding scan
  scan_run n j t e = rw e refl

  -- 1 for a slot that the loop comes by.
  abbrev passes : ℕ → ℕ → ℕ → ℕ
  passes i n j = if leb j i && ltb i (j + n) then 1 else 0

  abbrev Served : ℕ → ℕ → ℕ → List ℕ × Procs → Type 0
  Served i n j (ran, t) = (count i ran ≡ passes i n j) × ((t i).state ≡ runnable)

  passes_other : (i n j : ℕ) → j ≢ i → passes i n (j + 1) ≡ passes i (suc n) j
  passes_other i n j h = ground arith

  -- A turn of the process itself, and one of another.
  own_turn :
      (i n : ℕ) (t : Procs)
      → Yields i
      → ((t' : Procs) → (t' i).state ≡ runnable → Served i n (i + 1) (scan swtch n (i + 1) t'))
      → (t i).state ≡ runnable
      → Served i (suc n) i (scan swtch (suc n) i t)
  unfolding is_runnable
  own_turn i n t y ih r =
      let e : is_runnable (t i).state ≡ true = ap is_runnable r in
      let t' = update t i (record (t i) { state = running }) in
      let b =
        ih (swtch i t') (
          y.own t' (ap (λ p. p.state) (update_eq t i i (record (t i) { state = running }) refl))) in
      let q : (i == i) ≡ true = ground arith in
      let z : passes i n (i + 1) ≡ 0 = ground arith in
      let o : passes i (suc n) i ≡ 1 = ground arith in
      subst (Served i (suc n) i) (sym (scan_run n i t e)) (rw q (ap suc (b.0 ∙ z) ∙ sym o, b.1))

  other_turn :
      (i n j : ℕ) (t : Procs)
      → j ≢ i
      → Yields i
      → ((t' : Procs) → (t' i).state ≡ runnable → Served i n (j + 1) (scan swtch n (j + 1) t'))
      → (t i).state ≡ runnable
      → Served i (suc n) j (scan swtch (suc n) j t)
  other_turn i n j t h y ih r = elim (Bool-cases (is_runnable (t j).state)) [
    | inr e ↦
        let b = ih t r in
        subst (Served i (suc n) j) (sym (scan_skip n j t e)) (b.0 ∙ passes_other i n j h, b.1)
    | inl e ↦
        let t' = update t j (record (t j) { state = running }) in
        let b = ih (swtch j t') (
          y.others j t' h
            (ap (λ p. p.state) (update_other t j i (record (t j) { state = running }) h) ∙ r)) in
        let q : (j == i) ≡ false = ground arith in
        subst (Served i (suc n) j) (sym (scan_run n j t e)) (rw q (b.0 ∙ passes_other i n j h, b.1))
  ]

  scan_lem :
      (i n j : ℕ) (t : Procs) → Yields i → (t i).state ≡ runnable → Served i n j (scan swtch n j t)
  unfolding scan
  scan_lem i zero j t y r = (ground arith, r)
  scan_lem i (suc n) j t y r = elim (ℕ_discrete j i) [
    | no h ↦ other_turn i n j t h y (λ t' r'. scan_lem i n (j + 1) t' y r') r
    | yes h ↦
        subst (λ k. Served i (suc n) k (scan swtch (suc n) k t)) (sym h)
          (own_turn i n t y (λ t' r'. scan_lem i n (i + 1) t' y r') r)
  ]

  -- On one CPU, a process that can run and only ever yields gets the CPU exactly once in every pass of the
  -- scheduler, whatever the other processes do that leaves it RUNNABLE: `k` times in the first `k` passes.
  pub scheduler-count :
      (k i : ℕ) (t : Procs)
      → i < nproc
      → Yields i
      → (t i).state ≡ runnable
      → (count i (scheduler swtch k t).0 ≡ k) × (((scheduler swtch k t).1 i).state ≡ runnable)
  unfolding scheduler
  scheduler-count zero i t h y r = (refl, r)
  scheduler-count (suc k) i t h y r =
      let (c, r') = scan_lem i nproc 0 t y r in
      let (c', r'') = scheduler-count k i (scan swtch nproc 0 t).1 h y r' in
      let o : passes i nproc 0 ≡ 1 = ground arith in
      let a =
        count-append i (scan swtch nproc 0 t).0 (scheduler swtch k (scan swtch nproc 0 t).1).0 in
      (omega arith, r'')
