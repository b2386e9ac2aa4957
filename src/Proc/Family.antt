-- ===== src/Proc/Family.antt =====
-- kernel/proc.c: parents and children through every call.
use lab_so.Prelude.{
  ℕ, ◌≡◌, ◌≢◌, refl, inl, inr, Bool, true, false, ◌&&◌, Option, none, some, if◌then◌else◌, update,
  Bool-cases, arith,
}
use lab_so.Proc.Defs.{
  nproc, unused, sleeping, runnable, running, zombie, at_slot, at_other, is_zombie, Proc, Procs,
  freeproc, first_slot, wakeup, is_child, Waited, reaped, failed, asleep, wait, sleep, tidy_up,
  setkilled,
}
use lab_so.Proc.Loops.{first_slot-some, first_slot-none, wakeup-Woken, Waits}
use lab_so.Proc.Steps.{
  Alive, Step, alloc, adopt, ready, schedule, yield, sleep_on, wake, wake_up, kill_pid, set_killed,
  exits, waits, Reach, boot, next,
}
use lab_so.Proc.Calm.{
  Inv, Inv-Calm, Inv-slot, Calm-Alive, Calm-Up, Calm-Woken, in_table, Inv-boot, Inv-alloc, Inv-kill,
}
use lab_so.Proc.Wait.{Inv-reap, Inv-asleep, Inv-adopt, zombie_lem}
use lab_so.Proc.Exit.{Inv-exit}

Inv-wait : (t : Procs) (ok : Bool) (i : ℕ) → Inv t → (t i).state ≡ running → Inv (wait ok i t).1
unfolding wait
Inv-wait t ok i inv r = ended (first_slot nproc (λ p. is_child i p && is_zombie p.state) t) refl
  where
    ended :
        (f : Option ℕ)
        → first_slot nproc (λ p. is_child i p && is_zombie p.state) t ≡ f
        → Inv (
            let x : Waited × Procs = elim f [
              | some j ↦ if ok then (reaped (t j).pid, update t j (freeproc (t j))) else (failed, t)
              | none ↦ elim (first_slot nproc (is_child i) t) [
                | none ↦ (failed, t)
                | some j ↦ if (t i).killed then (failed, t) else (
                  asleep,
                  update t i (record (t i) { chan = some (at_slot i); state = sleeping }),
                )
              ]
            ] in
            x.1)
    ended (some j) e = elim (Bool-cases ok) [
      | inl b ↦
          let h = first_slot-some nproc (λ p. is_child i p && is_zombie p.state) t j e in
          rw b (Inv-reap t j inv (zombie_lem (t j).state (ground (arith, h.1))))
      | inr b ↦ rw b inv
    ]
    ended none e = waiting (first_slot nproc (is_child i) t)
      where
        waiting :
            (f : Option ℕ)
            → Inv (
                let x : Waited × Procs = elim f [
                  | none ↦ (failed, t)
                  | some j ↦ if (t i).killed then (failed, t) else (
                    asleep,
                    update t i (record (t i) { chan = some (at_slot i); state = sleeping }),
                  )
                ] in
                x.1)
        waiting none = inv
        waiting (some j) = pick (t i).killed
          where
            pick :
                (b : Bool)
                → Inv (
                    let x : Waited × Procs = if b then (failed, t) else (
                      asleep,
                      update t i (record (t i) { chan = some (at_slot i); state = sleeping }),
                    ) in
                    x.1)
            pick true = inv
            pick false =
                Inv-asleep t i inv r
                  (first_slot-none nproc (λ p. is_child i p && is_zombie p.state) t e)

-- A process that was alive and is not asleep.
Inv-set :
    (t : Procs) (i : ℕ) (p : Proc)
    → Inv t
    → (t i).state ≢ unused
    → p.parent ≡ (t i).parent
    → Alive p.state
    → (Waits i p → ⊥)
    → Inv (update t i p)
Inv-set t i p inv h e a w = Inv-slot t i p inv (Calm-Alive i (t i) p (in_table t i inv h) e a w)

Step-Inv : {t t' : Procs} → Step t t' → Inv t → Inv t'
unfolding sleep tidy_up setkilled
Step-Inv {t} (alloc f g n) inv = Inv-alloc t f g n inv
Step-Inv {t} (adopt i j r u) inv = Inv-adopt t i j inv r u
Step-Inv {t} (ready j u) inv =
    Inv-set t j (record (t j) { state = runnable }) inv (λ x. cc) refl ((λ x. cc), (λ x. cc))
      (λ v. let w = v.0 in cc)
Step-Inv {t} (schedule i u) inv =
    Inv-set t i (record (t i) { state = running }) inv (λ x. cc) refl ((λ x. cc), (λ x. cc))
      (λ v. let w = v.0 in cc)
Step-Inv {t} (yield i u) inv =
    Inv-set t i (record (t i) { state = runnable }) inv (λ x. cc) refl ((λ x. cc), (λ x. cc))
      (λ v. let w = v.0 in cc)
Step-Inv {t} (sleep_on i k u) inv =
    Inv-set t i (sleep (at_other k) (t i)) inv (λ x. cc) refl ((λ x. cc), (λ x. cc))
      (λ v. let w = v.1 in cc)
Step-Inv {t} (wake i u) inv =
    Inv-set t i (tidy_up (t i)) inv (λ x. cc) refl ((λ x. cc), (λ x. cc)) (λ v. let w = v.1 in cc)
Step-Inv {t} (wake_up me c) inv =
    Inv-Calm t (wakeup me c t) inv
      (λ i. Calm-Woken i (t i) (wakeup me c t i) (wakeup-Woken me c t i))
Step-Inv {t} (kill_pid pid) inv = Inv-kill t pid inv
Step-Inv {t} (set_killed i) inv =
    Inv-slot t i (setkilled (t i)) inv (Calm-Up i (t i) (setkilled (t i)) (inl refl) refl refl)
Step-Inv {t} {t'} (exits i status r e) inv = Inv-exit t t' i status inv r e
Step-Inv {t} (waits ok i r) inv = Inv-wait t ok i inv r

Reach-Inv : {t : Procs} → Reach t → Inv t
Reach-Inv (boot b) = Inv-boot b
Reach-Inv (next r s) = Step-Inv s (Reach-Inv r)

-- In every state that the calls reach after userinit, the parent of every process is alive, neither
-- free nor ended, and while a parent sleeps in wait it has no ended child: the wakeups of exit and
-- reparent miss none.
pub wait_misses_none :
    {t : Procs}
    → Reach t
    → (i j : ℕ) → (t i).parent ≡ some j
    → (t j).state ≢ unused
      × (t j).state ≢ zombie
      × ((t i).state ≡ zombie → (t j).state ≡ sleeping → (t j).chan ≢ some (at_slot j))
wait_misses_none r i j e =
    let inv = Reach-Inv r in
    let a = inv.alive i j e in (a.0, a.1, λ z s c. inv.watch i j e z (s, c))
