-- ===== src/Spinlock/Defs.antt =====
-- kernel/spinlock.c: a CPU's nesting of push_off, and the operations on one lock. `none` is a panic.
use lab_so.Prelude.{
  ℕ, ◌+◌, ◌-◌, Bool, true, false, ◌&&◌, Option, none, some, ◌==◌, if◌then◌else◌, ltb,
}

-- The fields of `struct cpu` that push_off and pop_off use, and the interrupt enable bit of the CPU.
pub record Cpu : Type 0 where
  pub noff : ℕ
  pub intena : Bool
  pub intr : Bool

unfoldable pub push_off : Cpu → Cpu
push_off c = record {
  noff = c.noff + 1;
  intena = if c.noff == 0 then c.intr else c.intena;
  intr = false;
}

unfoldable pub pop_off : Cpu → Option Cpu
pop_off c =
    if c.intr
    then none
    else if ltb c.noff 1
    then none
    else some (record c {
      noff = c.noff - 1;
      intr = if c.noff - 1 == 0 && c.intena then true else c.intr;
    })

-- `struct spinlock` less its name; `cpu` is the number of the CPU, `none` for 0.
pub record Lock : Type 0 where
  pub locked : Bool
  pub cpu : Option ℕ

unfoldable pub initlock : Lock
initlock = record { locked = false; cpu = none }

unfoldable pub holding : ℕ → Lock → Bool
holding me lk = lk.locked && (elim lk.cpu [ none ↦ false | some k ↦ k == me ])

-- `acquire` up to its loop.
unfoldable pub acquire_start : ℕ → Cpu → Lock → Option Cpu
unfolding push_off holding
acquire_start me c lk = if holding me lk then none else some (push_off c)

-- One `__sync_lock_test_and_set(&lk->locked, 1)`: the old value, and the lock.
unfoldable pub test_and_set : Lock → Bool × Lock
test_and_set lk = (lk.locked, record lk { locked = true })

-- `lk->cpu = mycpu()`, after the loop.
unfoldable pub acquire_end : ℕ → Lock → Lock
acquire_end me lk = record lk { cpu = some me }

-- `release` up to `__sync_lock_release`.
unfoldable pub release_start : ℕ → Lock → Option Lock
unfolding holding
release_start me lk = if holding me lk then some (record lk { cpu = none }) else none

-- `__sync_lock_release`, and `pop_off`.
unfoldable pub release_end : Cpu → Lock → Option (Cpu × Lock)
unfolding pop_off
release_end c lk = elim (pop_off c) [
  | none ↦ none
  | some c' ↦ some (c', record lk { locked = false })
]
