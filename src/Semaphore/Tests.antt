-- ===== src/Semaphore/Tests.antt =====
-- kernel/semaphore.c: runs at concrete inputs, and the theorems at such inputs.
use lab_so.Prelude.{ℕ, ◌+◌, ◌≡◌, refl, ◌≢◌, ◌⊎◌, [], ◌∷◌, get_elem?, some, update, arith}
use lab_so.Prelude.Int.{pos, negsuc}
use lab_so.Semaphore.Defs.{
  Semaphore, Table, closed, sem_count, semaphores_init, sem_open, get_sem, sem_close, sem_up,
  sleeps, returns, sem_down, sem_down_wakes,
}
use lab_so.Semaphore.Table.{AllOpen, Taken, get_sem_lem}
use lab_so.Semaphore.Killed.{closed_under_sleeper}
use lab_so.Semaphore.System.{
  System, asleep, running, after_down, took, opened, Reach, boot, next, open_it, down_it,
}
use lab_so.Semaphore.System.Safety.{no_lost_wakeup}

abbrev zero_open : Semaphore
zero_open = record { count = pos 0; bound = pos 1 }

abbrev small : Table
small = zero_open ∷ record { count = closed; bound = closed } ∷ []

down_sleeps : sem_down (pos 0) small ≡ (sleeps, small)
unfolding sem_down
down_sleeps = refl

up_at_bound : (sem_up (pos 0) (record zero_open { count = pos 1 } ∷ [])).0 ≡ pos 0
unfolding sem_up
up_at_bound = refl

bad_index : (sem_open (negsuc 0) (pos 1) small).0 ≡ pos 0
unfolding sem_open
bad_index = refl

-- -1 opens nothing, and is reported as a success.
open_minus_one : sem_open (pos 1) (negsuc 0) small ≡ (pos 1, small)
unfolding sem_open
open_minus_one = refl

get_sem_lem_example :
    ((get_sem (pos 3) small ≡ (negsuc 0, small)) × AllOpen small 0 sem_count)
    ⊎ Taken small 0 sem_count (pos 3) (get_sem (pos 3) small)
get_sem_lem_example = get_sem_lem (pos 3) small

get_sem_takes_second : (get_sem (pos 3) small).0 ≡ pos 1
unfolding get_sem sem_open
get_sem_takes_second = refl

-- Semaphore 0 opened with 1, and then thread 5 calling sem_down on it.
abbrev opened_0 : System
opened_0 = record {
  table = (sem_open (pos 0) (pos 1) semaphores_init).1;
  threads = λ _. running;
  taken = update (λ _. 0) 0 (opened (sem_open (pos 0) (pos 1) semaphores_init).0 0);
}

abbrev held : System
held = record {
  table = (sem_down (pos 0) opened_0.table).1;
  threads = update opened_0.threads 5 (after_down 0 (sem_down (pos 0) opened_0.table).0);
  taken = update opened_0.taken 0 (took (sem_down (pos 0) opened_0.table).0 (opened_0.taken 0));
}

held-Reach : Reach held
held-Reach = next (next boot (open_it 0 1)) (down_it 5 0 refl)

held_0 : get_elem? held.table 0 ≡ some zero_open
unfolding sem_open sem_down semaphores_init
held_0 = refl

no_lost_wakeup_example :
    ((j : ℕ) → held.threads j ≡ asleep 0 → zero_open.count ≡ pos 0)
    × (zero_open.count ≢ closed
        → (c b : ℕ) × (zero_open.count ≡ pos c)
          × (zero_open.bound ≡ pos b)
          × (c + held.taken 0 ≡ b))
no_lost_wakeup_example = no_lost_wakeup held-Reach 0 zero_open held_0

closed_under_sleeper_example :
    let (r, t') = sem_down_wakes (pos 0) (sem_close (pos 0) small).1 in
    (r ≡ returns (pos 1)) × (sem_open (pos 0) (pos 1) t' ≡ (pos 0, t'))
closed_under_sleeper_example =
    closed_under_sleeper 0 small zero_open (pos 1) refl (λ q. ground arith)
