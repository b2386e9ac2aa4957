-- ===== src/Proc/Defs.antt =====
-- kernel/proc.c: the process table as a function of the slot. A function holds the locks that the source
-- takes, so its effect is one step. `none` is a panic.
use lab_so.Prelude.{
  ℕ, zero, suc, ◌+◌, Bool, true, false, not, ◌&&◌, Option, none, some, ◌==◌, if◌then◌else◌, update,
}

-- NPROC
abbrev pub nproc : ℕ
nproc = 64

-- Slot 0 is initproc, which userinit takes first.
abbrev pub initproc : ℕ
initproc = 0

pub data ProcState : Type 0 where
  unused used sleeping runnable running zombie : ProcState

-- A channel: the address of a slot of the table, or any other.
pub data Chan : Type 0 where
  at_slot at_other : ℕ → Chan

unfoldable pub same_chan : Chan → Option Chan → Bool
same_chan c none = false
same_chan (at_slot i) (some (at_slot j)) = i == j
same_chan (at_other i) (some (at_other j)) = i == j
same_chan c (some d) = false

unfoldable pub is_sleeping : ProcState → Bool
is_sleeping sleeping = true
is_sleeping s = false

unfoldable pub is_zombie : ProcState → Bool
is_zombie zombie = true
is_zombie s = false

unfoldable pub is_unused : ProcState → Bool
is_unused unused = true
is_unused s = false

-- The fields of `struct proc` that proc.c keeps; `none` is 0. The pages are there or not.
pub record Proc : Type 0 where
  pub state : ProcState
  pub chan : Option Chan
  pub killed : Bool
  pub xstate : ℕ
  pub pid : ℕ
  pub parent : Option ℕ
  pub trapframe : Bool
  pub pagetable : Bool
  pub sz : ℕ

abbrev pub Procs : Type 0
Procs = ℕ → Proc

unfoldable pub freeproc : Proc → Proc
freeproc p = record {
  state = unused;
  chan = none;
  killed = false;
  xstate = 0;
  pid = 0;
  parent = none;
  trapframe = false;
  pagetable = false;
  sz = 0;
}

-- `for(p = proc; p < &proc[n]; p++)` with a body that changes its own slot.
unfoldable pub each : ℕ → (ℕ → Proc → Proc) → Procs → Procs
each zero f t = t
each (suc n) f t = let t' = each n f t in update t' n (f n (t' n))

-- The slot that a loop from 0 finds first.
unfoldable pub first_slot : ℕ → (Proc → Bool) → Procs → Option ℕ
first_slot zero test t = none
first_slot (suc n) test t = elim (first_slot n test t) [
  | some i ↦ some i
  | none ↦ if test (t n) then some n else none
]

-- allocproc from `found` on. Where kalloc, or proc_pagetable, has no memory the slot is given back.
unfoldable pub found : Bool → Bool → ℕ → ℕ → Procs → Option ℕ × ℕ × Procs
unfolding freeproc
found frame_ok table_ok nextpid i t =
    let p = record (t i) { pid = nextpid; state = used } in
    if not frame_ok
    then (none, nextpid + 1, update t i (freeproc p))
    else if not table_ok
    then (none, nextpid + 1, update t i (freeproc (record p { trapframe = true })))
    else (some i, nextpid + 1, update t i (record p { trapframe = true; pagetable = true }))

-- The slot, or none; the next pid; the table.
unfoldable pub allocproc : Bool → Bool → ℕ → Procs → Option ℕ × ℕ × Procs
allocproc frame_ok table_ok nextpid t = elim (first_slot nproc (λ p. is_unused p.state) t) [
  | none ↦ (none, nextpid, t)
  | some i ↦ found frame_ok table_ok nextpid i t
]

-- The body of the loop of wakeup in the process `me`.
unfoldable pub wake_slot : Option ℕ → Chan → ℕ → Proc → Proc
wake_slot me c i p =
    if elim me [ none ↦ false | some m ↦ i == m ]
    then p
    else if is_sleeping p.state && same_chan c p.chan
    then record p { state = runnable }
    else p

unfoldable pub wakeup : Option ℕ → Chan → Procs → Procs
unfolding each wake_slot
wakeup me c t = each nproc (wake_slot me c) t

unfoldable pub is_child : ℕ → Proc → Bool
is_child i p = elim p.parent [ none ↦ false | some j ↦ j == i ]

-- The first `n` rounds of reparent in the process `i`.
unfoldable pub reparent_from : ℕ → ℕ → Procs → Procs
reparent_from zero i t = t
reparent_from (suc n) i t =
    let t' = reparent_from n i t in
    if is_child i (t' n)
    then wakeup (some i) (at_slot initproc) (update t' n (record (t' n) { parent = some initproc }))
    else t'

unfoldable pub reparent : ℕ → Procs → Procs
reparent i t = reparent_from nproc i t

-- `wakeup(p->parent)`; nobody sleeps on 0.
unfoldable pub wake_parent : ℕ → Option ℕ → Procs → Procs
wake_parent i none t = t
wake_parent i (some p) t = wakeup (some i) (at_slot p) t

-- `exit` from `acquire(&wait_lock)` to sched.
unfoldable pub exit : ℕ → ℕ → Procs → Option Procs
exit i status t =
    let t₁ = reparent i t in
    let t₂ = wake_parent i (t₁ i).parent t₁ in
    if i == initproc
    then none
    else some (update t₂ i (record (t₂ i) { xstate = status; state = zombie }))

pub data Waited : Type 0 where
  reaped : ℕ → Waited
  failed asleep : Waited

-- One round of the loop of wait: the first child that is a zombie is freed unless its status cannot be
-- copied out; with children but no zombie the process goes to sleep on its own slot.
unfoldable pub wait : Bool → ℕ → Procs → Waited × Procs
wait copy_ok i t = elim (first_slot nproc (λ p. is_child i p && is_zombie p.state) t) [
  | some j ↦ if copy_ok then (reaped (t j).pid, update t j (freeproc (t j))) else (failed, t)
  | none ↦ elim (first_slot nproc (is_child i) t) [
    | none ↦ (failed, t)
    | some j ↦
        if (t i).killed
        then (failed, t)
        else (asleep, update t i (record (t i) { chan = some (at_slot i); state = sleeping }))
  ]
]

-- `sleep` up to sched, and from it on.
unfoldable pub sleep : Chan → Proc → Proc
sleep c p = record p { chan = some c; state = sleeping }

unfoldable pub tidy_up : Proc → Proc
tidy_up p = record p { chan = none }

-- The body of the loop of kill, in the process that has the pid.
unfoldable pub kill_slot : Proc → Proc
kill_slot p = record p { killed = true; state = if is_sleeping p.state then runnable else p.state }

-- Whether there is such a process.
unfoldable pub kill : ℕ → Procs → Bool × Procs
kill pid t = elim (first_slot nproc (λ p. p.pid == pid) t) [
  | none ↦ (false, t)
  | some i ↦ (true, update t i (kill_slot (t i)))
]

unfoldable pub setkilled : Proc → Proc
setkilled p = record p { killed = true }
