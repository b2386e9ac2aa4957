-- ===== src/Semaphore/System.antt =====
-- kernel/semaphore.c with threads: sem_down sleeps, sem_up wakes, and the calls interleave.
pub mod Invariant
mod Steps
pub mod Safety
use lab_so.Prelude.{
  ℕ, zero, suc, ◌+◌, ◌-◌, ◌≤◌, ◌<◌, ◌≡◌, refl, sym, subst, ap, ◌∙◌, ◌≢◌, ◌⊎◌, inl, inr, Bool, true,
  false, Option, none, some, List, [], ◌∷◌, get_elem?, set, length, ◌==◌, if◌then◌else◌, update,
  replicate, fun_ext, arith, ℕ_discrete, get_elem?-set_self, get_elem?-set_ne, get_elem?-some-lt,
}
use lab_so.Prelude.Int.{ℤ, pos, negsuc, ◌+ℤ◌, ◌-ℤ◌}
use lab_so.Semaphore.Defs.{
  Semaphore, Table, closed, sem_count, sem_open, sem_close, sem_up, Down, returns, sleeps, sem_down,
  sem_down_wakes, semaphores_init,
}
use lab_so.Semaphore.Table.{
  sem_open-cases, sem_close-cases, sem_up-cases, sem_down-cases, sem_down_wakes-cases,
}

-- A thread outside sem_down, asleep in it on a semaphore, or runnable again after that sleep.
pub data Thread : Type 0 where
  running : Thread
  asleep : ℕ → Thread
  woken : ℕ → Thread

-- proc.c `wakeup` on the semaphore `i`, of one thread.
abbrev pub wake : ℕ → Thread → Thread
wake i running = running
wake i (asleep k) = if k == i then woken k else asleep k
wake i (woken k) = woken k

-- Where a thread stands when sem_down on `i` has come to a sleep or a return.
abbrev pub after_down : ℕ → Down → Thread
after_down i sleeps = asleep i
after_down i (returns r) = running

-- `taken i` counts the sem_down that returned 1 less the sem_up that did, since `i` was opened.
pub record System : Type 0 where
  pub table : Table
  pub threads : ℕ → Thread
  pub taken : ℕ → ℕ

abbrev pub took : Down → ℕ → ℕ
took (returns (pos (suc n))) k = k + 1
took _ k = k

abbrev pub opened : ℤ → ℕ → ℕ
opened (pos (suc n)) k = 0
opened _ k = k

abbrev pub gave : ℤ → ℕ → ℕ
gave (pos (suc n)) k = k - 1
gave _ k = k

abbrev pub woken_by : ℤ → ℕ → (ℕ → Thread) → ℕ → Thread
woken_by (pos (suc n)) i f j = wake i (f j)
woken_by _ i f j = f j

-- One critical section of one thread. A semaphore is opened with a count of 0 or more, and closed only
-- while no thread is inside sem_down on it.
pub data Step (s : System) : System → Type 0 where
  open_it :
      (i v : ℕ)
      → Step s (
          let (r, t) = sem_open (pos i) (pos v) s.table in
          record s { table = t; taken = update s.taken i (opened r (s.taken i)) })
  close_it :
      (i : ℕ)
      → ((j : ℕ) → (s.threads j ≢ asleep i) × (s.threads j ≢ woken i))
      → Step s (record s { table = (sem_close (pos i) s.table).1 })
  up_it :
      (i : ℕ)
      → Step s (
          let (r, t) = sem_up (pos i) s.table in
          record {
            table = t;
            threads = woken_by r i s.threads;
            taken = update s.taken i (gave r (s.taken i));
          })
  down_it :
      (j i : ℕ)
      → s.threads j ≡ running
      → Step s (
          let (r, t) = sem_down (pos i) s.table in
          record {
            table = t;
            threads = update s.threads j (after_down i r);
            taken = update s.taken i (took r (s.taken i));
          })
  retry_it :
      (j i : ℕ)
      → s.threads j ≡ woken i
      → Step s (
          let (r, t) = sem_down_wakes (pos i) s.table in
          record {
            table = t;
            threads = update s.threads j (after_down i r);
            taken = update s.taken i (took r (s.taken i));
          })
  -- proc.c `kill` makes a sleeping thread runnable.
  kill_it :
      (j i : ℕ)
      → s.threads j ≡ asleep i
      → Step s (record s { threads = update s.threads j (woken i) })

pub data Reach : System → Type 0 where
  boot : Reach (record { table = semaphores_init; threads = λ _. running; taken = λ _. 0 })
  next : {s t : System} → Reach s → Step s t → Reach t
