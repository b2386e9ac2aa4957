-- ===== src/Spinlock/Tests.antt =====
-- kernel/spinlock.c: runs at concrete inputs, and the theorems at such inputs.
use lab_so.Prelude.{ℕ, ◌≡◌, inl, refl, true, false, none, some, [], update}
use lab_so.Spinlock.Defs.{
  Cpu, initlock, acquire_start, test_and_set, acquire_end, push_off, pop_off,
}
use lab_so.Spinlock.Interrupts.{Nest, nothing, pair, calls, run, Same, balanced_calls}
use lab_so.Spinlock.Exclusion.{
  out, spinning, taken, inside, System, call_acquire, win, enter, Reach, boot, next, Proceeds,
  mutual_exclusion, release_safe,
}

-- A CPU outside, with interrupts on.
abbrev idle : Cpu
idle = record { noff = 0; intena = false; intr = true }

abbrev nested : Nest
nested = pair (pair nothing nothing) (pair nothing nothing)

run-nested : run (calls nested []) idle ≡ some (record { noff = 0; intena = true; intr = true })
unfolding push_off pop_off
run-nested = refl

pop_panics : pop_off idle ≡ none
unfolding pop_off
pop_panics = refl

balanced_calls_example : (d : Cpu) × (run (calls nested []) idle ≡ some d) × Same idle d
balanced_calls_example = balanced_calls nested idle (inl refl)

abbrev idle_cpus : ℕ → Cpu
idle_cpus i = idle

abbrev booted : System
booted = record { lock = initlock; cpus = idle_cpus; pcs = λ _. out }

abbrev called : System
called = record booted {
  cpus = update idle_cpus 3 (push_off idle);
  pcs = update (λ _. out) 3 spinning;
}

abbrev won : System
won = record called {
  lock = (test_and_set initlock).1;
  pcs = update (update (λ _. out) 3 spinning) 3 taken;
}

abbrev entered : System
entered = record won {
  lock = acquire_end 3 (test_and_set initlock).1;
  pcs = update (update (update (λ _. out) 3 spinning) 3 taken) 3 inside;
}

Reach-entered : Reach entered
unfolding initlock acquire_start test_and_set
Reach-entered =
    next (next (next (boot idle_cpus (λ i. refl)) (call_acquire 3 refl refl)) (win 3 refl refl))
      (enter 3 refl)

at_three : entered.pcs 3 ≡ inside
at_three = refl

mutual_exclusion_example : (◌≡◌ {A = ℕ} 3 3) × ((entered.cpus 3).intr ≡ false)
mutual_exclusion_example = mutual_exclusion Reach-entered 3 3 at_three at_three

release_safe_example : Proceeds 3 (entered.pcs 3) (entered.cpus 3) entered.lock
release_safe_example = release_safe Reach-entered 3
