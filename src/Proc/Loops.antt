-- ===== src/Proc/Loops.antt =====
-- kernel/proc.c: what the loops over the process table do to each slot.
use lab_so.Prelude.{
  ℕ, zero, suc, ◌<◌, ◌≡◌, ◌≢◌, refl, sym, ◌∙◌, ap, subst, ◌⊎◌, inl, inr, Bool, true, false, ◌&&◌,
  Option, none, some, ◌==◌, ltb, if◌then◌else◌, update, update_eq, update_other, Bool-cases,
  ℕ_discrete, arith,
}
use lab_so.Proc.Defs.{
  nproc, initproc, ProcState, unused, used, sleeping, runnable, running, zombie, Chan, at_slot,
  same_chan, is_sleeping, Proc, Procs, each, first_slot, wake_slot, wakeup, is_child, reparent_from,
}

pub each_lem :
    (n : ℕ) (f : ℕ → Proc → Proc) (t : Procs) (j : ℕ)
    → each n f t j ≡ (if ltb j n then f j (t j) else t j)
unfolding each
each_lem zero f t j = ground arith
each_lem (suc n) f t j = elim (ℕ_discrete n j) [
  | yes e ↦
      let h = each_lem n f t n in
      let u = update_eq (each n f t) n j (f n (each n f t n)) e in ground (arith, h, u, e)
  | no k ↦
      let h = each_lem n f t j in
      let u = update_other (each n f t) n j (f n (each n f t n)) k in ground (arith, h, u)
]

-- The loop finds a slot that passes its test, and finds one if there is one.
pub first_slot-some :
    (n : ℕ) (test : Proc → Bool) (t : Procs) (i : ℕ)
    → first_slot n test t ≡ some i
    → (i < n) × (test (t i) ≡ true)
unfolding first_slot
first_slot-some zero test t i e = cc
first_slot-some (suc n) test t i e =
    go (first_slot n test t) (λ k q. first_slot-some n test t k q) refl e
  where
    go :
        (r : Option ℕ)
        → ((k : ℕ) → first_slot n test t ≡ some k → (k < n) × (test (t k) ≡ true))
        → first_slot n test t ≡ r
        → (elim r [ some k ↦ some k | none ↦ if test (t n) then some n else none ]) ≡ some i
        → (i < suc n) × (test (t i) ≡ true)
    go (some k) f q e =
        let k' : k ≡ i = cc in let h = f i (q ∙ ap some k') in (omega (arith, h.0), h.1)
    go none f q e = elim (Bool-cases (test (t n))) [
      | inl b ↦ let n' : n ≡ i = ground arith in (omega arith, subst (λ x. test (t x) ≡ true) n' b)
      | inr b ↦ ground arith
    ]

pub first_slot-none :
    (n : ℕ) (test : Proc → Bool) (t : Procs)
    → first_slot n test t ≡ none
    → (j : ℕ) → j < n
    → test (t j) ≡ false
unfolding first_slot
first_slot-none zero test t e j h = absurd (omega arith)
first_slot-none (suc n) test t e j h =
    go (first_slot n test t) (λ q k. first_slot-none n test t q j k) refl e
  where
    go :
        (r : Option ℕ)
        → (first_slot n test t ≡ none → j < n → test (t j) ≡ false)
        → first_slot n test t ≡ r
        → (elim r [ some k ↦ some k | none ↦ if test (t n) then some n else none ]) ≡ none
        → test (t j) ≡ false
    go (some k) f q e = cc
    go none f q e = elim (ℕ_discrete n j) [
      | yes x ↦ subst (λ z. test (t z) ≡ false) x (ground arith)
      | no x ↦ f q (omega arith)
    ]

-- What wakeup may do to a process.
abbrev pub Woken : Proc → Proc → Type 0
Woken p q = (q ≡ p) ⊎ ((p.state ≡ sleeping) × (q ≡ record p { state = runnable }))

sleeping_lem : (s : ProcState) → is_sleeping s ≡ true → s ≡ sleeping
unfolding is_sleeping
sleeping_lem sleeping h = refl
sleeping_lem unused h = cc
sleeping_lem used h = cc
sleeping_lem runnable h = cc
sleeping_lem running h = cc
sleeping_lem zombie h = cc

wake_slot-Woken : (me : Option ℕ) (c : Chan) (j : ℕ) (p : Proc) → Woken p (wake_slot me c j p)
unfolding wake_slot
wake_slot-Woken none c j p = elim (Bool-cases (is_sleeping p.state && same_chan c p.chan)) [
  | inl b ↦ rw b (inr (sleeping_lem p.state (ground arith), refl))
  | inr b ↦ rw b (inl refl)
]
wake_slot-Woken (some m) c j p = elim (Bool-cases (j == m)) [
  | inl d ↦ rw d (inl refl)
  | inr d ↦ elim (Bool-cases (is_sleeping p.state && same_chan c p.chan)) [
    | inl b ↦ rw (d, b) (inr (sleeping_lem p.state (ground arith), refl))
    | inr b ↦ rw (d, b) (inl refl)
  ]
]

pub wakeup-Woken : (me : Option ℕ) (c : Chan) (t : Procs) (j : ℕ) → Woken (t j) (wakeup me c t j)
unfolding wakeup
wakeup-Woken me c t j = elim (Bool-cases (ltb j nproc)) [
  | inl b ↦ rw (each_lem nproc (wake_slot me c) t j, b) (wake_slot-Woken me c j (t j))
  | inr b ↦ rw (each_lem nproc (wake_slot me c) t j, b) (inl refl)
]

-- Asleep on the slot `k`.
abbrev pub Waits : ℕ → Proc → Type 0
Waits k p = (p.state ≡ sleeping) × (p.chan ≡ some (at_slot k))

wake_slot_awake : (m k j : ℕ) (p : Proc) → j ≢ m → Waits k (wake_slot (some m) (at_slot k) j p) → ⊥
unfolding wake_slot same_chan is_sleeping
wake_slot_awake m k j p n w = elim (Bool-cases (j == m)) [
  | inl d ↦ absurd (n (ground arith))
  | inr d ↦ elim (Bool-cases (is_sleeping p.state && same_chan (at_slot k) p.chan)) [
    | inl b ↦ let w' = rw (d, b) at w in cc
    | inr b ↦ let w' = rw (d, b) at w in let b' = rw (w'.0, w'.1) at b in ground arith
  ]
]

-- After a wakeup by another process nobody else is asleep on the slot.
pub wakeup_awake :
    (m k j : ℕ) (t : Procs) → j < nproc → j ≢ m → Waits k (wakeup (some m) (at_slot k) t j) → ⊥
unfolding wakeup
wakeup_awake m k j t h n w =
    let b : ltb j nproc ≡ true = ground arith in
    wake_slot_awake m k j (t j) n (rw (each_lem nproc (wake_slot (some m) (at_slot k)) t j, b) at w)

-- A wakeup moves a state so.
abbrev pub Up : ProcState → ProcState → Type 0
Up a b = (b ≡ a) ⊎ ((a ≡ sleeping) × (b ≡ runnable))

pub Up-trans : {a b c : ProcState} → Up a b → Up b c → Up a c
Up-trans (inl p) (inl q) = inl (q ∙ p)
Up-trans (inl p) (inr (q, r)) = inr (sym p ∙ q, r)
Up-trans (inr (p, q)) (inl r) = inr (p, r ∙ q)
Up-trans (inr (p, q)) (inr (r, s)) = inr (p, s)

pub Woken-Up :
    {p q : Proc} → Woken p q → Up p.state q.state × (q.chan ≡ p.chan) × (q.parent ≡ p.parent)
Woken-Up (inl e) = (inl (ap (λ x. x.state) e), ap (λ x. x.chan) e, ap (λ x. x.parent) e)
Woken-Up (inr (s, e)) = (inr (s, ap (λ x. x.state) e), ap (λ x. x.chan) e, ap (λ x. x.parent) e)

-- What the first `n` rounds of reparent, in the process `i`, have done to the parent of `j`.
abbrev pub ParentOf : ℕ → ℕ → Procs → Procs → ℕ → Type 0
ParentOf n i t t' j =
    (((t' j).parent ≡ (t j).parent) × (j < n → (t j).parent ≢ some i))
    ⊎ (((t j).parent ≡ some i)
        × ((t' j).parent ≡ some initproc)
        × (Waits initproc (t' initproc) → ⊥))

-- What they have done to `t`.
pub record Moved (n i : ℕ) (t t' : Procs) : Type 0 where
  pub woken : (j : ℕ) → Up (t j).state (t' j).state
  pub chans : (j : ℕ) → (t' j).chan ≡ (t j).chan
  pub parents : (j : ℕ) → ParentOf n i t t' j

pub child_lem : (i : ℕ) (p : Proc) → is_child i p ≡ true → p.parent ≡ some i
unfolding is_child
child_lem i p h = go p.parent refl h
  where
    go :
        (r : Option ℕ)
        → p.parent ≡ r
        → (elim r [ none ↦ false | some j ↦ j == i ]) ≡ true
        → p.parent ≡ some i
    go none e h = cc
    go (some j) e h = let q : j ≡ i = ground arith in e ∙ ap some q

pub no_child_lem : (i : ℕ) (p : Proc) → is_child i p ≡ false → p.parent ≢ some i
unfolding is_child
no_child_lem i p h e = let h' = rw e at h in ground arith

module _ (n i : ℕ) (t t' : Procs) (away : i ≢ initproc) (m : Moved n i t t') where
  abbrev given : Procs
  given = update t' n (record (t' n) { parent = some initproc })

  given_other : (j : ℕ) → n ≢ j → given j ≡ t' j
  given_other j k = update_other t' n j (record (t' n) { parent = some initproc }) k

  given_self : (j : ℕ) → n ≡ j → given j ≡ record (t' n) { parent = some initproc }
  given_self j k = update_eq t' n j (record (t' n) { parent = some initproc }) k

  given_rest : (j : ℕ) → ((given j).state ≡ (t' j).state) × ((given j).chan ≡ (t' j).chan)
  given_rest j = elim (ℕ_discrete n j) [
    | yes e ↦ rw (given_self j e) (ap (λ k. (t' k).state) e, ap (λ k. (t' k).chan) e)
    | no k ↦ rw (given_other j k) (refl, refl)
  ]

  Moved-child :
      (t' n).parent ≡ some i → Moved (suc n) i t (wakeup (some i) (at_slot initproc) given)
  Moved-child c = record {
    woken = λ j.
        Up-trans (Up-trans (m.woken j) (inl (given_rest j).0))
          (Woken-Up (wakeup-Woken (some i) (at_slot initproc) given j)).0;
    chans = λ j.
        (Woken-Up (wakeup-Woken (some i) (at_slot initproc) given j)).1
        ∙ (given_rest j).1
        ∙ m.chans j;
    parents = parents;
  }
    where
      awake : Waits initproc (wakeup (some i) (at_slot initproc) given initproc) → ⊥
      awake w = wakeup_awake i initproc initproc given (omega arith) (λ e. away (sym e)) w

      kept : (j : ℕ) → (wakeup (some i) (at_slot initproc) given j).parent ≡ (given j).parent
      kept j = (Woken-Up (wakeup-Woken (some i) (at_slot initproc) given j)).2

      was_child : ParentOf n i t t' n → (t n).parent ≡ some i
      was_child (inl (e, f)) = sym e ∙ c
      was_child (inr (e, f, g)) = e

      other :
          (j : ℕ)
          → n ≢ j
          → ParentOf n i t t' j
          → ParentOf (suc n) i t (wakeup (some i) (at_slot initproc) given) j
      other j k (inl (e, f)) =
          inl (kept j ∙ ap (λ x. x.parent) (given_other j k) ∙ e, λ h. f (omega arith))
      other j k (inr (e, f, g)) = inr (e, kept j ∙ ap (λ x. x.parent) (given_other j k) ∙ f, awake)

      parents : (j : ℕ) → ParentOf (suc n) i t (wakeup (some i) (at_slot initproc) given) j
      parents j = elim (ℕ_discrete n j) [
        | yes e ↦ inr (
          subst (λ k. (t k).parent ≡ some i) e (was_child (m.parents n)),
          kept j ∙ ap (λ x. x.parent) (given_self j e),
          awake,
        )
        | no k ↦ other j k (m.parents j)
      ]

  Moved-same : (t' n).parent ≢ some i → Moved (suc n) i t t'
  Moved-same c = record { woken = m.woken; chans = m.chans; parents = λ j. go j (m.parents j) }
    where
      go : (j : ℕ) → ParentOf n i t t' j → ParentOf (suc n) i t t' j
      go j (inr r) = inr r
      go j (inl (e, f)) = inl (
        e,
        λ h q. elim (ℕ_discrete n j) [
          | yes x ↦ c (subst (λ k. (t' k).parent ≡ some i) (sym x) (e ∙ q))
          | no x ↦ f (omega arith) q
        ],
      )

pub reparent_lem : (n i : ℕ) (t : Procs) → i ≢ initproc → Moved n i t (reparent_from n i t)
unfolding reparent_from
reparent_lem zero i t a = record {
  woken = λ j. inl refl;
  chans = λ j. refl;
  parents = λ j. inl (refl, λ h. absurd (omega arith));
}
reparent_lem (suc n) i t a =
    let t' = reparent_from n i t in
    let m = reparent_lem n i t a in
    elim (Bool-cases (is_child i (t' n))) [
      | inl b ↦ rw b (Moved-child n i t t' a m (child_lem i (t' n) b))
      | inr b ↦ rw b (Moved-same n i t t' a m (no_child_lem i (t' n) b))
    ]
