-- ===== src/Proc/Calm.antt =====
-- kernel/proc.c: what holds between parents and children, and the calls that leave it alone.
use lab_so.Prelude.{
  ℕ, ◌≤◌, ◌<◌, ◌≡◌, ◌≢◌, refl, sym, ◌∙◌, subst, inl, inr, Bool, true, false, Option, none, some,
  ◌==◌, ltb, if◌then◌else◌, update, update_eq, update_other, Bool-cases, ℕ_discrete, arith,
}
use lab_so.Proc.Defs.{
  nproc, initproc, ProcState, unused, used, sleeping, runnable, running, zombie, is_sleeping,
  is_unused, Proc, Procs, freeproc, first_slot, allocproc, kill, kill_slot, found,
}
use lab_so.Proc.Loops.{first_slot-some, Woken, Waits, Up, Woken-Up}
use lab_so.Proc.Steps.{Alive, Booted}

pub record Inv (t : Procs) : Type 0 where
  pub alive : (i j : ℕ) → (t i).parent ≡ some j → Alive (t j).state
  pub watch : (i j : ℕ) → (t i).parent ≡ some j → (t i).state ≡ zombie → Waits j (t j) → ⊥
  pub root : Alive (t initproc).state
  pub clean : (i : ℕ) → (t i).state ≡ unused → (t i).parent ≡ none
  pub bounded : (i : ℕ) → nproc ≤ i → (t i).state ≡ unused

-- A change of the process in slot `i` that no relative notices.
pub record Calm (i : ℕ) (p q : Proc) : Type 0 where
  pub parent : q.parent ≡ p.parent
  pub living : Alive p.state → Alive q.state
  pub ended : q.state ≡ zombie → p.state ≡ zombie
  pub freed : q.state ≡ unused → p.state ≡ unused
  pub outside : nproc ≤ i → p.state ≡ unused → q.state ≡ unused
  pub waits : Waits i q → Waits i p

pub Calm-refl : (i : ℕ) (p : Proc) → Calm i p p
Calm-refl i p = record {
  parent = refl;
  living = λ a. a;
  ended = λ a. a;
  freed = λ a. a;
  outside = λ h a. a;
  waits = λ w. w;
}

pub Inv-Calm : (t t' : Procs) → Inv t → ((i : ℕ) → Calm i (t i) (t' i)) → Inv t'
Inv-Calm t t' inv c = record {
  alive = λ i j e. (c j).living (inv.alive i j (sym (c i).parent ∙ e));
  watch = λ i j e z w. inv.watch i j (sym (c i).parent ∙ e) ((c i).ended z) ((c j).waits w);
  root = (c initproc).living inv.root;
  clean = λ i u. (c i).parent ∙ inv.clean i ((c i).freed u);
  bounded = λ i h. (c i).outside h (inv.bounded i h);
}

pub Inv-slot : (t : Procs) (i : ℕ) (p : Proc) → Inv t → Calm i (t i) p → Inv (update t i p)
Inv-slot t i p inv c = Inv-Calm t (update t i p) inv (λ j. elim (ℕ_discrete i j) [
  | yes e ↦ rw (update_eq t i j p e) (subst (λ k. Calm k (t k) p) e c)
  | no n ↦ rw (update_other t i j p n) (Calm-refl j (t j))
])

-- Between two states in which a process is alive.
pub Calm-Alive :
    (i : ℕ) (p q : Proc)
    → i < nproc
    → q.parent ≡ p.parent
    → Alive q.state
    → (Waits i q → ⊥)
    → Calm i p q
Calm-Alive i p q h e a w = record {
  parent = e;
  living = λ b. a;
  ended = λ z. absurd (a.1 z);
  freed = λ u. absurd (a.0 u);
  outside = λ k. absurd (omega arith);
  waits = λ v. absurd (w v);
}

pub Calm-Up :
    (i : ℕ) (p q : Proc) → Up p.state q.state → q.chan ≡ p.chan → q.parent ≡ p.parent → Calm i p q
Calm-Up i p q (inl e) c m = record {
  parent = m;
  living = λ a. rw e a;
  ended = λ z. sym e ∙ z;
  freed = λ u. sym e ∙ u;
  outside = λ k u. e ∙ u;
  waits = λ v. (sym e ∙ v.0, sym c ∙ v.1);
}
Calm-Up i p q (inr (s, e)) c m = record {
  parent = m;
  living = λ a. ((λ x. cc), (λ x. cc));
  ended = λ z. cc;
  freed = λ u. cc;
  outside = λ k u. cc;
  waits = λ v. let w = v.0 in cc;
}

pub Calm-Woken : (i : ℕ) (p q : Proc) → Woken p q → Calm i p q
Calm-Woken i p q w = let h = Woken-Up w in Calm-Up i p q h.0 h.1 h.2

-- A slot in use is in the table.
pub in_table : (t : Procs) (i : ℕ) → Inv t → (t i).state ≢ unused → i < nproc
in_table t i inv h = elim (Bool-cases (ltb i nproc)) [
  | inl b ↦ ground arith
  | inr b ↦ absurd (h (inv.bounded i (ground arith)))
]

pub Inv-boot : {t : Procs} → Booted t → Inv t
Inv-boot b = record {
  alive = λ i j e. let h = b.no_parent i in cc;
  watch = λ i j e z w. let h = b.no_parent i in cc;
  root = let h = b.first in ((λ x. cc), (λ x. cc));
  clean = λ i u. b.no_parent i;
  bounded = λ i h. b.rest i (omega arith);
}

unused_lem : (s : ProcState) → is_unused s ≡ true → s ≡ unused
unfolding is_unused
unused_lem unused h = refl
unused_lem used h = cc
unused_lem sleeping h = cc
unused_lem runnable h = cc
unused_lem running h = cc
unused_lem zombie h = cc

-- A free slot stays free, or is taken.
Calm-found :
    (f g : Bool) (n i : ℕ) (t : Procs)
    → Inv t
    → i < nproc
    → (t i).state ≡ unused
    → Inv (found f g n i t).2
unfolding found freeproc
Calm-found false g n i t inv h u = Inv-slot t i (freeproc (t i)) inv (record {
  parent = sym (inv.clean i u);
  living = λ a. absurd (a.0 u);
  ended = λ z. cc;
  freed = λ z. u;
  outside = λ k z. refl;
  waits = λ v. cc;
})
Calm-found true false n i t inv h u = Inv-slot t i (freeproc (t i)) inv (record {
  parent = sym (inv.clean i u);
  living = λ a. absurd (a.0 u);
  ended = λ z. cc;
  freed = λ z. u;
  outside = λ k z. refl;
  waits = λ v. cc;
})
Calm-found true true n i t inv h u =
    Inv-slot t i (record (t i) { pid = n; state = used; trapframe = true; pagetable = true }) inv
      (Calm-Alive i (t i)
        (record (t i) { pid = n; state = used; trapframe = true; pagetable = true }) h refl
        ((λ x. cc), (λ x. cc)) (λ v. cc))

pub Inv-alloc : (t : Procs) (f g : Bool) (n : ℕ) → Inv t → Inv (allocproc f g n t).2
unfolding allocproc
Inv-alloc t f g n inv = go (first_slot nproc (λ p. is_unused p.state) t) refl
  where
    go :
        (r : Option ℕ)
        → first_slot nproc (λ p. is_unused p.state) t ≡ r
        → Inv (
            let x : Option ℕ × ℕ × Procs = elim r [
              | none ↦ (none, n, t)
              | some i ↦ found f g n i t
            ] in
            x.2)
    go none e = inv
    go (some i) e =
        let h = first_slot-some nproc (λ p. is_unused p.state) t i e in
        Calm-found f g n i t inv h.0 (unused_lem (t i).state h.1)

sleeping_lem : (s : ProcState) → Up s (if is_sleeping s then runnable else s)
unfolding is_sleeping
sleeping_lem sleeping = inr (refl, refl)
sleeping_lem unused = inl refl
sleeping_lem used = inl refl
sleeping_lem runnable = inl refl
sleeping_lem running = inl refl
sleeping_lem zombie = inl refl

Calm-kill : (i : ℕ) (p : Proc) → Calm i p (kill_slot p)
unfolding kill_slot
Calm-kill i p = Calm-Up i p (kill_slot p) (sleeping_lem p.state) refl refl

pub Inv-kill : (t : Procs) (pid : ℕ) → Inv t → Inv (kill pid t).1
unfolding kill
Inv-kill t pid inv = go (first_slot nproc (λ p. p.pid == pid) t)
  where
    go :
        (r : Option ℕ)
        → Inv (
            let x : Bool × Procs = elim r [
              | none ↦ (false, t)
              | some i ↦ (true, update t i (kill_slot (t i)))
            ] in
            x.1)
    go none = inv
    go (some i) = Inv-slot t i (kill_slot (t i)) inv (Calm-kill i (t i))
