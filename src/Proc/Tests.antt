-- ===== src/Proc/Tests.antt =====
-- kernel/proc.c: runs at concrete inputs, and the theorem at one.
use lab_so.Prelude.{
  ℕ, ◌∙◌, ap, ◌||◌, [], ◌∷◌, update_eq, update_other, ◌≡◌, ◌≢◌, refl, true, false, none, some, ◌==◌,
  if◌then◌else◌, update, arith,
}
use lab_so.Proc.Defs.{
  unused, sleeping, runnable, running, zombie, Proc, Procs, at_slot, is_unused, first_slot, found,
  allocproc,
}
use lab_so.Proc.Steps.{alloc, adopt, schedule, Booted, Reach, boot, next}
use lab_so.Proc.Family.{wait_misses_none}
use lab_so.Proc.Scheduler.{is_runnable, yield, scan, scheduler}
use lab_so.Proc.Fair.{count, Yields, scheduler-count}

abbrev no_proc : Proc
no_proc = record {
  state = unused;
  chan = none;
  killed = false;
  xstate = 0;
  pid = 0;
  parent = none;
  trapframe = false;
  pagetable = false;
  sz = 0;
}

abbrev init_only : Procs
init_only i = if i == 0 then record no_proc { state = runnable; pid = 1 } else no_proc

init_only-Booted : Booted init_only
init_only-Booted = record {
  first = refl;
  rest = λ i n. ground arith;
  no_parent = λ i. ground arith;
}

abbrev scheduled : Procs
scheduled = update init_only 0 (record (init_only 0) { state = running })

abbrev forked : Procs
forked = (allocproc true true 2 scheduled).2

abbrev adopted : Procs
adopted = update forked 1 (record (forked 1) { parent = some 0 })

Reach-adopted : Reach adopted
unfolding allocproc found first_slot is_unused
Reach-adopted =
    next (next (next (boot init_only-Booted) (schedule 0 refl)) (alloc true true 2))
      (adopt 0 1 refl refl)

parent_1 : (adopted 1).parent ≡ some 0
parent_1 = refl

wait_misses_none_example :
    (adopted 0).state ≢ unused
    × (adopted 0).state ≢ zombie
    × ((adopted 1).state ≡ zombie
        → (adopted 0).state ≡ sleeping
        → (adopted 0).chan ≢ some (at_slot 0))
wait_misses_none_example = wait_misses_none Reach-adopted 1 0 parent_1

-- Processes that yield as soon as they have the CPU; init and the process in slot 2 can run.
abbrev only_yield : ℕ → Procs → Procs
only_yield i t = update t i (yield (t i))

abbrev two_ready : Procs
two_ready i = if i == 0 || i == 2 then record no_proc { state = runnable } else no_proc

in_turn : (scheduler only_yield 2 two_ready).0 ≡ 0 ∷ 2 ∷ 0 ∷ 2 ∷ []
unfolding scheduler scan is_runnable yield
in_turn = refl

only_yield-Yields : (i : ℕ) → Yields only_yield i
unfolding yield
only_yield-Yields i = record {
  own = λ t r. ap (λ p. p.state) (update_eq t i i (yield (t i)) refl);
  others = λ j t n r. ap (λ p. p.state) (update_other t j i (yield (t j)) n) ∙ r;
}

scheduler-count_example :
    (count 2 (scheduler only_yield 5 two_ready).0 ≡ 5)
    × (((scheduler only_yield 5 two_ready).1 2).state ≡ runnable)
scheduler-count_example =
    scheduler-count only_yield 5 2 two_ready (omega arith) (only_yield-Yields 2) refl
