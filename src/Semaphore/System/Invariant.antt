-- ===== src/Semaphore/System/Invariant.antt =====
-- kernel/semaphore.c: the invariant of the interleaved calls, and its parts.
mod Balance
pub use Balance.*
use Balance.{Balanced, positive, lower, raise, raise_open, open_free, update_id, Balanced-open}
use lab_so.Prelude.{
  ℕ, zero, suc, ◌+◌, ◌-◌, ◌≤◌, ◌<◌, ◌≡◌, refl, sym, subst, ap, ◌∙◌, ◌≢◌, ◌⊎◌, inl, inr, Bool, true,
  false, Option, none, some, List, [], ◌∷◌, get_elem?, set, length, ◌==◌, if◌then◌else◌, update,
  replicate, fun_ext, arith, ℕ_discrete, get_elem?-set_self, get_elem?-set_ne, get_elem?-some-lt,
}
use lab_so.Prelude.Int.{ℤ, pos, negsuc, ◌+ℤ◌, ◌-ℤ◌}
use lab_so.Semaphore.Defs.{
  Semaphore, Table, closed, sem_count, sem_open, sem_close, sem_up, Down, returns, sleeps, sem_down,
  sem_down_wakes, semaphores_init,
}
use lab_so.Semaphore.Table.{
  sem_open-cases, sem_close-cases, sem_up-cases, sem_down-cases, sem_down_wakes-cases,
}
use lab_so.Semaphore.System.{
  Thread, running, asleep, woken, wake, after_down, System, took, opened, gave, woken_by, Step,
  open_it, close_it, up_it, down_it, retry_it, kill_it, Reach, boot, next,
}

pub record Inv (t : Table) (threads : ℕ → Thread) (taken : ℕ → ℕ) : Type 0 where
  pub balanced :
      (i : ℕ) (s : Semaphore) → get_elem? t i ≡ some s → Balanced s.count s.bound (taken i)
  pub empty :
      (j i : ℕ)
      → threads j ≡ asleep i
      → (s : Semaphore) × (get_elem? t i ≡ some s) × (s.count ≡ pos 0)
  pub alive :
      (j i : ℕ)
      → threads j ≡ woken i
      → (s : Semaphore) × (get_elem? t i ≡ some s) × (s.count ≢ closed)

-- One entry of the table changes, and no thread is inside sem_down on it but those that `ok` lists.
module _ {t : Table} {threads : ℕ → Thread} {taken : ℕ → ℕ} (inv : Inv t threads taken) where
  pub Inv-set :
      (i : ℕ) (old s : Semaphore) (k : ℕ) (threads' : ℕ → Thread)
      → get_elem? t i ≡ some old
      → Balanced s.count s.bound k
      → ((j : ℕ) → threads' j ≡ asleep i → s.count ≡ pos 0)
      → ((j : ℕ) → threads' j ≡ woken i → s.count ≢ closed)
      → ((j x : ℕ) → x ≢ i → threads' j ≡ asleep x → threads j ≡ asleep x)
      → ((j x : ℕ) → x ≢ i → threads' j ≡ woken x → threads j ≡ woken x)
      → Inv (set t i s) threads' (update taken i k)
  Inv-set i old s k threads' a b e l oe ol =
      let self = get_elem?-set_self t i s (get_elem?-some-lt t i a) in
      record {
        balanced = λ x s' g. elim (ℕ_discrete i x) [
          | yes same ↦
              let q : s ≡ s' = cc in
              let u : update taken i k x ≡ k = ground arith in
              rw u (subst (λ z. Balanced z.count z.bound k) q b)
          | no other ↦
              let u : update taken i k x ≡ taken x = ground arith in
              rw u (inv.balanced x s' (sym (get_elem?-set_ne t s other) ∙ g))
        ];
        empty = λ j x h. elim (ℕ_discrete i x) [
          | yes same ↦ (s, rw (← same) self, e j (rw same h))
          | no other ↦
              let (s', g, z) = inv.empty j x (oe j x (λ q. other (sym q)) h) in
              (s', get_elem?-set_ne t s other ∙ g, z)
        ];
        alive = λ j x h. elim (ℕ_discrete i x) [
          | yes same ↦ (s, rw (← same) self, l j (rw same h))
          | no other ↦
              let (s', g, z) = inv.alive j x (ol j x (λ q. other (sym q)) h) in
              (s', get_elem?-set_ne t s other ∙ g, z)
        ];
      }

  pub update_same : (i x : ℕ) → update taken i (taken i) x ≡ taken x
  update_same i x = ground arith

  -- Nothing but the threads changes.
  pub Inv-threads :
      (i : ℕ) (threads' : ℕ → Thread)
      → ((j x : ℕ)
          → threads' j ≡ asleep x
          → (s : Semaphore) × (get_elem? t x ≡ some s) × (s.count ≡ pos 0))
      → ((j x : ℕ)
          → threads' j ≡ woken x
          → (s : Semaphore) × (get_elem? t x ≡ some s) × (s.count ≢ closed))
      → Inv t threads' (update taken i (taken i))
  Inv-threads i threads' e l = record {
    balanced = λ x s g. rw (update_same i x) (inv.balanced x s g);
    empty = e;
    alive = l;
  }

  pub asleep_other :
      (j i k x : ℕ) (p : Thread)
      → p ≢ asleep x
      → update threads j p k ≡ asleep x
      → threads k ≡ asleep x
  asleep_other j i k x p n h = elim (ℕ_discrete j k) [
    | yes e ↦ absurd (n (ground arith))
    | no e ↦ ground arith
  ]

  pub woken_other :
      (j i k x : ℕ) (p : Thread)
      → p ≢ woken x
      → update threads j p k ≡ woken x
      → threads k ≡ woken x
  woken_other j i k x p n h = elim (ℕ_discrete j k) [
    | yes e ↦ absurd (n (ground arith))
    | no e ↦ ground arith
  ]

  pub empty_at :
      (k i : ℕ) (s : Semaphore) → get_elem? t i ≡ some s → threads k ≡ asleep i → s.count ≡ pos 0
  empty_at k i s a h = let (s', a', z) = inv.empty k i h in cc

  pub down-woken :
      (j i : ℕ) (s : Semaphore)
      → get_elem? t i ≡ some s
      → s.count ≢ closed
      → let (r, t') = sem_down_wakes (pos i) t in
        Inv t' (update threads j (after_down i r)) (update taken i (took r (taken i)))
  down-woken j i s a live = elim (sem_down_wakes-cases i t s a) [
    | inl (z, e) ↦ rw e (
        Inv-threads i (update threads j (asleep i))
          (λ k x h. elim (ℕ_discrete i x) [
            | yes same ↦ (s, rw same at a, z)
            | no other ↦
                inv.empty k x (asleep_other j i k x (asleep i) (λ q. other (ground arith)) h)
          ])
          (λ k x h. inv.alive k x (woken_other j i k x (asleep i) (λ q. cc) h)))
    | inr (z, e) ↦
        let (c, p) = positive s.count s.bound (taken i) (inv.balanced i s a) z live in
        rw e (
          Inv-set i s (record s { count = s.count -ℤ pos 1 }) (taken i + 1)
            (update threads j running) a
            (lower s.count s.bound (taken i) (inv.balanced i s a) z live)
            (λ k h. absurd (z (empty_at k i s a (asleep_other j i k i running (λ q. cc) h))))
            (λ k h. λ q. ground (arith, p)) (λ k x o h. asleep_other j i k x running (λ q. cc) h)
            (λ k x o h. woken_other j i k x running (λ q. cc) h))
  ]
