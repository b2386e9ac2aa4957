-- ===== src/Proc/Scheduler.antt =====
-- kernel/proc.c: the loop of scheduler on one CPU, and yield.
use lab_so.Prelude.{
  ℕ, zero, suc, ◌+◌, Bool, true, false, List, [], ◌∷◌, ◌++◌, if◌then◌else◌, update,
}
use lab_so.Proc.Defs.{nproc, ProcState, runnable, running, Proc, Procs}

unfoldable pub is_runnable : ProcState → Bool
is_runnable runnable = true
is_runnable s = false

-- `p->state = RUNNABLE` of yield; sched then switches to the scheduler.
unfoldable pub yield : Proc → Proc
yield p = record p { state = runnable }

-- The processes are a parameter: `swtch i t` is the table when the process in slot `i` switches back to the
-- scheduler, after it was given the CPU with the table `t`.
module _ (swtch : ℕ → Procs → Procs) where
  -- `for(p = proc; p < &proc[NPROC]; p++)` from slot `i` on, with `n` slots left: the slots of the
  -- processes it runs, and the table behind it.
  unfoldable pub scan : ℕ → ℕ → Procs → List ℕ × Procs
  unfolding is_runnable
  scan zero i t = ([], t)
  scan (suc n) i t =
      let found = is_runnable (t i).state in
      let t' = if found then swtch i (update t i (record (t i) { state = running })) else t in
      let (ran, t'') = scan n (i + 1) t' in (if found then i ∷ ran else ran, t'')

  -- The first `k` passes of `for(;;)`.
  unfoldable pub scheduler : ℕ → Procs → List ℕ × Procs
  unfolding scan
  scheduler zero t = ([], t)
  scheduler (suc k) t =
      let (ran, t') = scan nproc 0 t in let (later, t'') = scheduler k t' in (ran ++ later, t'')
