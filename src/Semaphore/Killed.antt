-- ===== src/Semaphore/Killed.antt =====
-- kernel/semaphore.c: a thread that is inside sem_down when its semaphore is closed.
use lab_so.Prelude.{
  ℕ, ◌≡◌, refl, ◌≢◌, some, get_elem?, set, get_elem?-set_self, get_elem?-some-lt, arith,
}
use lab_so.Prelude.Int.{ℤ, pos, negsuc}
use lab_so.Semaphore.Defs.{Semaphore, Table, closed, sem_open, sem_close, returns, sem_down_wakes}

sem_open-negative :
    (i : ℕ) (v : ℤ) (t : Table) (s : Semaphore)
    → get_elem? t i ≡ some s
    → s.count ≢ closed
    → sem_open (pos i) v t ≡ (pos 0, t)
unfolding sem_open
sem_open-negative i v t s a n = ground (arith, a)

wakes-closed :
    (i : ℕ) (t : Table) (s : Semaphore)
    → get_elem? t i ≡ some s
    → s.count ≡ closed
    → sem_down_wakes (pos i) t ≡ (returns (pos 1), set t i (record s { count = negsuc 1 }))
unfolding sem_down_wakes
wakes-closed i t s a c = ground (arith, a)

-- sem_down does not look again whether the semaphore is open when `sleep` returns. If it was closed
-- meanwhile, and the sleeper is made runnable by `kill`, sem_down returns 1, and the semaphore is left
-- in a state in which no sem_open succeeds on it.
pub closed_under_sleeper :
    (i : ℕ) (t : Table) (s : Semaphore) (v : ℤ)
    → get_elem? t i ≡ some s
    → s.count ≢ closed
    → let (r, t') = sem_down_wakes (pos i) (sem_close (pos i) t).1 in
      (r ≡ returns (pos 1)) × (sem_open (pos i) v t' ≡ (pos 0, t'))
unfolding sem_close
closed_under_sleeper i t s v a n =
    let s1 : Semaphore = record s { count = closed } in
    let t1 = set t i s1 in
    let self = get_elem?-set_self t i s1 (get_elem?-some-lt t i a) in
    let e = wakes-closed i t1 s1 self (refl) in
    let t2 = set t1 i (record s { count = negsuc 1 }) in
    let self2 =
      get_elem?-set_self t1 i (record s { count = negsuc 1 }) (get_elem?-some-lt t1 i self) in
    let closes : sem_close (pos i) t ≡ (pos 1, t1) = ground (arith, a) in
    rw (closes, e) (refl, sem_open-negative i v t2 (record s { count = negsuc 1 }) self2 (λ q. cc))
