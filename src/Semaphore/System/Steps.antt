-- ===== src/Semaphore/System/Steps.antt =====
-- kernel/semaphore.c: every step keeps the invariant.
use lab_so.Prelude.{
  ℕ, zero, suc, ◌-◌, ◌≡◌, refl, subst, ◌≢◌, ◌⊎◌, inl, inr, some, get_elem?, set, update, replicate,
  arith, ℕ_discrete,
}
use lab_so.Prelude.Int.{pos, ◌+ℤ◌}
use lab_so.Semaphore.Defs.{
  Semaphore, closed, sem_count, sem_open, sem_close, sem_up, sem_down, sem_down_wakes,
  semaphores_init,
}
use lab_so.Semaphore.Table.{sem_open-cases, sem_close-cases, sem_up-cases, sem_down-cases}
use lab_so.Semaphore.System.{
  Thread, running, asleep, woken, wake, after_down, System, took, opened, gave, woken_by, Step,
  open_it, close_it, up_it, down_it, retry_it, kill_it, Reach, boot, next,
}
use lab_so.Semaphore.System.Invariant.{
  Balanced, Inv, raise, raise_open, open_free, update_id, Inv-set, Inv-threads, down-woken,
  asleep_other, woken_other, empty_at,
}

wake-asleep : (i x : ℕ) (p : Thread) → wake i p ≡ asleep x → (p ≡ asleep x) × (x ≢ i)
wake-asleep i x running h = cc
wake-asleep i x (asleep k) h = (ground arith, λ e. ground arith)
wake-asleep i x (woken k) h = cc

wake-woken :
    (i x : ℕ) (p : Thread) → wake i p ≡ woken x → (p ≡ woken x) ⊎ ((p ≡ asleep i) × (x ≡ i))
wake-woken i x running h = cc
wake-woken i x (asleep k) h = inr (ground arith, ground arith)
wake-woken i x (woken k) h = inl h

module _ (s : System) (inv : Inv s.table s.threads s.taken) where
  keeps-threads : (i : ℕ) → Inv s.table s.threads (update s.taken i (s.taken i))
  keeps-threads i = Inv-threads inv i s.threads inv.empty inv.alive

  Step-open :
      (i v : ℕ)
      → let (r, t) = sem_open (pos i) (pos v) s.table in
        Inv t s.threads (update s.taken i (opened r (s.taken i)))
  Step-open i v = elim (sem_open-cases i s.table (pos v)) [
    | inl e ↦ rw e (keeps-threads i)
    | inr (x, a, c, e) ↦ rw e (
        Inv-set inv i x (record { count = pos v; bound = pos v }) 0 s.threads a (omega arith)
          (λ j h. absurd (open_free (empty_at inv j i x a h) c)) (λ j h. λ q. cc) (λ j y o h. h)
          (λ j y o h. h))
  ]

  Step-close :
      (i : ℕ)
      → ((j : ℕ) → (s.threads j ≢ asleep i) × (s.threads j ≢ woken i))
      → Inv (sem_close (pos i) s.table).1 s.threads s.taken
  Step-close i quiet = elim (sem_close-cases i s.table) [
    | inl e ↦ rw e inv
    | inr (x, a, c, e) ↦ rw e (
        subst (Inv (set s.table i (record x { count = closed })) s.threads) (update_id s.taken i) (
          Inv-set inv i x (record x { count = closed }) (s.taken i) s.threads a tt
            (λ j h. absurd ((quiet j).0 h)) (λ j h. absurd ((quiet j).1 h)) (λ j y o h. h)
            (λ j y o h. h)))
  ]

  Step-up :
      (i : ℕ)
      → let (r, t) = sem_up (pos i) s.table in
        Inv t (woken_by r i s.threads) (update s.taken i (gave r (s.taken i)))
  Step-up i = elim (sem_up-cases i s.table) [
    | inl e ↦ rw e (keeps-threads i)
    | inr (x, a, c, b, e) ↦ rw e (
        Inv-set inv i x (record x { count = x.count +ℤ pos 1 }) (s.taken i - 1)
          (λ j. wake i (s.threads j)) a (raise x.count x.bound (s.taken i) (inv.balanced i x a) b c)
          (λ j h. absurd ((wake-asleep i i (s.threads j) h).1 refl))
          (λ j h. raise_open x.count x.bound (s.taken i) (inv.balanced i x a) c)
          (λ j y o h. (wake-asleep i y (s.threads j) h).0)
          (λ j y o h. elim (wake-woken i y (s.threads j) h) [
            | inl k ↦ k
            | inr (k, same) ↦ absurd (o same)
          ]))
  ]

  Step-down :
      (j i : ℕ)
      → s.threads j ≡ running
      → let (r, t) = sem_down (pos i) s.table in
        Inv t (update s.threads j (after_down i r)) (update s.taken i (took r (s.taken i)))
  Step-down j i h = elim (sem_down-cases i s.table) [
    | inl e ↦ rw e (
        Inv-threads inv i (update s.threads j running)
          (λ k x g. inv.empty k x (asleep_other inv j i k x running (λ q. cc) g))
          (λ k x g. inv.alive k x (woken_other inv j i k x running (λ q. cc) g)))
    | inr (x, a, c, e) ↦ rw e (down-woken inv j i x a c)
  ]

  Step-retry :
      (j i : ℕ)
      → s.threads j ≡ woken i
      → let (r, t) = sem_down_wakes (pos i) s.table in
        Inv t (update s.threads j (after_down i r)) (update s.taken i (took r (s.taken i)))
  Step-retry j i h = let (x, a, c) = inv.alive j i h in down-woken inv j i x a c

Step-Inv : {s t : System} → Step s t → Inv s.table s.threads s.taken → Inv t.table t.threads t.taken
Step-Inv {s} (open_it i v) inv = Step-open s inv i v
Step-Inv {s} (close_it i quiet) inv = Step-close s inv i quiet
Step-Inv {s} (up_it i) inv = Step-up s inv i
Step-Inv {s} (down_it j i h) inv = Step-down s inv j i h
Step-Inv {s} (retry_it j i h) inv = Step-retry s inv j i h
Step-Inv {s} (kill_it j i h) inv =
    let (x, a, z) = inv.empty j i h in
    record {
      balanced = inv.balanced;
      empty = λ k y g. inv.empty k y (asleep_other inv j i k y (woken i) (λ q. cc) g);
      alive = λ k y g. elim (ℕ_discrete i y) [
        | yes same ↦ (x, rw same at a, λ q. open_free z q)
        | no other ↦ inv.alive k y (woken_other inv j i k y (woken i) (λ q. other (ground arith)) g)
      ];
    }

get_elem?-replicate :
    (n : ℕ) (s : Semaphore) (i : ℕ) (s' : Semaphore)
    → get_elem? (replicate n s) i ≡ some s'
    → s ≡ s'
get_elem?-replicate zero s i s' h = cc
get_elem?-replicate (suc n) s zero s' h = cc
get_elem?-replicate (suc n) s (suc i) s' h = get_elem?-replicate n s i s' h

pub Reach-Inv : {s : System} → Reach s → Inv s.table s.threads s.taken
unfolding semaphores_init
Reach-Inv boot = record {
  balanced = λ i s g.
      let e = get_elem?-replicate sem_count _ i s g in subst (λ z. Balanced z.count z.bound 0) e tt;
  empty = λ j i h. cc;
  alive = λ j i h. cc;
}
Reach-Inv (next r st) = Step-Inv st (Reach-Inv r)
