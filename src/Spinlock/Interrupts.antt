-- ===== src/Spinlock/Interrupts.antt =====
-- kernel/spinlock.c: push_off and pop_off are matched.
use lab_so.Prelude.{
  ◌-◌, ◌≡◌, ◌⊎◌, inr, refl, ◌∙◌, true, false, ◌&&◌, Option, none, some, List, [], ◌∷◌, ◌==◌,
  if◌then◌else◌, arith,
}
use lab_so.Spinlock.Defs.{Cpu, push_off, pop_off}

pub data Call : Type 0 where
  push pop : Call

-- How calls nest: each pop_off undoes a push_off before it, and none is left over.
pub data Nest : Type 0 where
  nothing : Nest
  pair : Nest → Nest → Nest

abbrev pub calls : Nest → List Call → List Call
calls nothing rest = rest
calls (pair inner after) rest = push ∷ calls inner (pop ∷ calls after rest)

-- A CPU makes the calls in turn; `none` is a panic of pop_off.
abbrev pub run : List Call → Cpu → Option Cpu
run [] c = some c
run (push ∷ cs) c = run cs (push_off c)
run (pop ∷ cs) c = elim (pop_off c) [ none ↦ none | some c' ↦ run cs c' ]

-- Interrupts are off while any push_off is open.
abbrev pub IsOff : Cpu → Type 0
IsOff c = (c.noff ≡ 0) ⊎ (c.intr ≡ false)

-- The same nesting depth and interrupt state, and inside a nesting the same saved state.
pub record Same (c c' : Cpu) : Type 0 where
  pub depth : c'.noff ≡ c.noff
  pub interrupts : c'.intr ≡ c.intr
  pub saved : (c.noff ≡ 0) ⊎ (c'.intena ≡ c.intena)

pop-push : (c d : Cpu) → IsOff c → Same (push_off c) d → (e : Cpu) × (pop_off d ≡ some e) × Same c e
unfolding push_off pop_off
pop-push c d off s = (
  record d { noff = d.noff - 1; intr = if d.noff - 1 == 0 && d.intena then true else d.intr },
  ground arith,
  record { depth = ground arith; interrupts = ground arith; saved = ground arith },
)

intr-push : (c : Cpu) → (push_off c).intr ≡ false
unfolding push_off
intr-push c = refl

IsOff-push : (c : Cpu) → IsOff (push_off c)
IsOff-push c = inr (intr-push c)

calls_lem :
    (n : Nest) (rest : List Call) (c : Cpu)
    → IsOff c
    → (d : Cpu) × (run (calls n rest) c ≡ run rest d) × Same c d
calls_lem nothing rest c off =
    (c, refl, record { depth = refl; interrupts = refl; saved = inr refl })
calls_lem (pair a b) rest c off =
    let (d, r, s) = calls_lem a (pop ∷ calls b rest) (push_off c) (IsOff-push c) in
    let (e, p, u) = pop-push c d off s in
    let (f, q, w) = calls_lem b rest e (ground arith) in
    (
      f,
      ground (arith, r, p, q),
      record {
        depth = w.depth ∙ u.depth;
        interrupts = w.interrupts ∙ u.interrupts;
        saved = ground arith;
      },
    )

-- push_off and pop_off that nest never panic, and leave the depth and the interrupt state of the CPU
-- as they were, and inside an outer push_off also the state that it saved.
pub balanced_calls :
    (n : Nest) (c : Cpu) → IsOff c → (d : Cpu) × (run (calls n []) c ≡ some d) × Same c d
balanced_calls n c off = calls_lem n [] c off
