-- ===== src/Semaphore/System/Safety.antt =====
-- kernel/semaphore.c: what holds in every reachable state.
use lab_so.Prelude.{ℕ, ◌+◌, ◌≡◌, ◌≢◌, some, get_elem?}
use lab_so.Prelude.Int.{pos}
use lab_so.Semaphore.Defs.{Semaphore, closed}
use lab_so.Semaphore.System.{asleep, System, Reach}
use lab_so.Semaphore.System.Invariant.{Balanced-open, empty_at}
use lab_so.Semaphore.System.Steps.{Reach-Inv}

-- No wakeup is lost, and units are conserved. In every state that calls of the operations reach from
-- semaphores_init, in any interleaving with kills, if values are opened at 0 or more and a semaphore
-- is closed only while no thread is inside sem_down on it: a thread sleeps only on a semaphore whose
-- count is 0, and on an open semaphore the count and the units taken add up to the bound.
pub no_lost_wakeup :
    {s : System}
    → Reach s
    → (i : ℕ) (x : Semaphore) → get_elem? s.table i ≡ some x
    → ((j : ℕ) → s.threads j ≡ asleep i → x.count ≡ pos 0)
      × (x.count ≢ closed → (c b : ℕ) × (x.count ≡ pos c) × (x.bound ≡ pos b) × (c + s.taken i ≡ b))
no_lost_wakeup {s} r i x a =
    let inv = Reach-Inv r in
    (
      λ j h. empty_at inv j i x a h,
      λ o. Balanced-open x.count x.bound (s.taken i) (inv.balanced i x a) o,
    )
