-- ===== src/Proc/Steps.antt =====
-- kernel/proc.c: the calls as steps on the process table.
use lab_so.Prelude.{ℕ, ◌≡◌, ◌≢◌, Bool, Option, none, some, update}
use lab_so.Proc.Defs.{
  initproc, ProcState, unused, used, runnable, running, zombie, Chan, at_other, Procs, allocproc,
  wakeup, exit, wait, sleep, tidy_up, kill, setkilled,
}

-- The calls, each while it holds the locks that it takes. fork is allocproc, then `np->parent = p`, then
-- `np->state = RUNNABLE`.
pub data Step (t : Procs) : Procs → Type 0 where
  alloc :
      (frame_ok table_ok : Bool) (nextpid : ℕ) → Step t (allocproc frame_ok table_ok nextpid t).2
  adopt :
      (i j : ℕ)
      → (t i).state ≡ running
      → (t j).state ≡ used
      → Step t (update t j (record (t j) { parent = some i }))
  ready : (j : ℕ) → (t j).state ≡ used → Step t (update t j (record (t j) { state = runnable }))
  schedule :
      (i : ℕ) → (t i).state ≡ runnable → Step t (update t i (record (t i) { state = running }))
  yield : (i : ℕ) → (t i).state ≡ running → Step t (update t i (record (t i) { state = runnable }))
  sleep_on : (i k : ℕ) → (t i).state ≡ running → Step t (update t i (sleep (at_other k) (t i)))
  wake : (i : ℕ) → (t i).state ≡ running → Step t (update t i (tidy_up (t i)))
  wake_up : (me : Option ℕ) (c : Chan) → Step t (wakeup me c t)
  kill_pid : (pid : ℕ) → Step t (kill pid t).1
  set_killed : (i : ℕ) → Step t (update t i (setkilled (t i)))
  exits :
      (i status : ℕ) {t' : Procs} → (t i).state ≡ running → exit i status t ≡ some t' → Step t t'
  waits : (copy_ok : Bool) (i : ℕ) → (t i).state ≡ running → Step t (wait copy_ok i t).1

-- After userinit: the first process is ready, every other slot unused.
pub record Booted (t : Procs) : Type 0 where
  pub first : (t initproc).state ≡ runnable
  pub rest : (i : ℕ) → i ≢ initproc → (t i).state ≡ unused
  pub no_parent : (i : ℕ) → (t i).parent ≡ none

pub data Reach : Procs → Type 0 where
  boot : {t : Procs} → Booted t → Reach t
  next : {t t' : Procs} → Reach t → Step t t' → Reach t'

-- Neither free nor ended.
abbrev pub Alive : ProcState → Type 0
Alive s = (s ≢ unused) × (s ≢ zombie)
