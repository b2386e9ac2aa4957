-- ===== src/Semaphore/Defs.antt =====
-- kernel/semaphore.c (so24lab2g02): the table of semaphores and its operations. The lock of a
-- semaphore is held from the test of its `count` to the last write, so an operation is one step, up
-- to a `sleep`. The numbers are C `int`s; `count` never passes `bound`, so no sum overflows.
use lab_so.Prelude.{
  ℕ, zero, suc, ◌+◌, Option, none, some, List, get_elem?, set, replicate, if◌then◌else◌,
}
use lab_so.Prelude.Int.{ℤ, pos, negsuc, ◌+ℤ◌, ◌-ℤ◌, ◌==ℤ◌}

abbrev pub sem_count : ℕ
sem_count = 256

-- -1: the value of `count` of a semaphore that is not open.
abbrev pub closed : ℤ
closed = negsuc 0

-- `struct semaphore`, less its lock.
pub record Semaphore : Type 0 where
  pub count : ℤ
  pub bound : ℤ

abbrev pub Table : Type 0
Table = List Semaphore

unfoldable pub semaphores_init : Table
semaphores_init = replicate sem_count (record { count = closed; bound = closed })

-- `sem < 0 || sem >= N` fails, and the entry is read.
unfoldable pub find : ℤ → Table → Option Semaphore
find (pos i) t = get_elem? t i
find (negsuc i) t = none

unfoldable pub store : ℤ → Semaphore → Table → Table
store (pos i) s t = set t i s
store (negsuc i) s t = t

unfoldable pub sem_open : ℤ → ℤ → Table → ℤ × Table
unfolding find store
sem_open sem value t = elim (find sem t) [
  | none ↦ (pos 0, t)
  | some s ↦
      if s.count ==ℤ closed
      then (pos 1, store sem (record { count = value; bound = value }) t)
      else (pos 0, t)
]

-- The loop of `get_sem` from `index` on, with `n` rounds left before `index == N`. At `index == N`
-- `sem_open` refuses the index.
unfoldable pub get_sem_from : ℕ → ℕ → ℤ → Table → ℤ × Table
get_sem_from zero index value t = (closed, t)
get_sem_from (suc n) index value t =
    let rest = get_sem_from n (index + 1) value t in
    let (r, t') = sem_open (pos index) value t in if r ==ℤ pos 1 then (pos index, t') else rest

unfoldable pub get_sem : ℤ → Table → ℤ × Table
unfolding get_sem_from
get_sem value t = get_sem_from sem_count 0 value t

unfoldable pub sem_close : ℤ → Table → ℤ × Table
unfolding find store
sem_close sem t = elim (find sem t) [
  | none ↦ (pos 0, t)
  | some s ↦
      if s.count ==ℤ closed then (pos 0, t) else (pos 1, store sem (record s { count = closed }) t)
]

-- Where it returns 1 it has also called `wakeup` on the semaphore.
unfoldable pub sem_up : ℤ → Table → ℤ × Table
unfolding find store
sem_up sem t = elim (find sem t) [
  | none ↦ (pos 0, t)
  | some s ↦
      if s.count ==ℤ closed
      then (pos 0, t)
      else if s.count ==ℤ s.bound
      then (pos 0, t)
      else (pos 1, store sem (record s { count = s.count +ℤ pos 1 }) t)
]

-- What a call of `sem_down` comes to, up to its next `sleep`.
pub data Down : Type 0 where
  returns : ℤ → Down
  sleeps : Down

-- The loop of `sem_down` on the semaphore `s` and what follows it, once the lock is held.
unfoldable pub down_loop : ℤ → Semaphore → Table → Down × Table
unfolding store
down_loop sem s t =
    if s.count ==ℤ pos 0
    then (sleeps, t)
    else (returns (pos 1), store sem (record s { count = s.count -ℤ pos 1 }) t)

-- `sem_down` from its call.
unfoldable pub sem_down : ℤ → Table → Down × Table
unfolding find down_loop
sem_down sem t = elim (find sem t) [
  | none ↦ (returns (pos 0), t)
  | some s ↦ if s.count ==ℤ closed then (returns (pos 0), t) else down_loop sem s t
]

-- `sem_down` from the return of `sleep`: only the test of the loop is made again.
unfoldable pub sem_down_wakes : ℤ → Table → Down × Table
unfolding find down_loop
sem_down_wakes sem t = elim (find sem t) [
  | none ↦ (returns (pos 0), t)
  | some s ↦ down_loop sem s t
]
