-- ===== src/Spinlock/Exclusion.antt =====
-- kernel/spinlock.c: many CPUs and one lock, a shared access at a time.
use lab_so.Prelude.{
  ℕ, ◌≡◌, ◌≢◌, refl, sym, ◌∙◌, inl, inr, Bool, true, false, none, some, update, update_eq,
  update_other, subst, Bool-cases, arith, ℕ_discrete,
}
use lab_so.Spinlock.Defs.{
  Cpu, Lock, initlock, holding, acquire_start, test_and_set, acquire_end, release_start,
  release_end, pop_off,
}

-- Where a CPU stands: outside, in the loop of acquire, between the loop and `lk->cpu = mycpu()`, in the
-- critical section, or in release between its two writes.
pub data Pc : Type 0 where
  out spinning taken inside leaving : Pc

pub record System : Type 0 where
  pub lock : Lock
  pub cpus : ℕ → Cpu
  pub pcs : ℕ → Pc

pub data Step (s : System) : System → Type 0 where
  call_acquire :
      (i : ℕ) {c : Cpu}
      → s.pcs i ≡ out
      → acquire_start i (s.cpus i) s.lock ≡ some c
      → Step s (record s { cpus = update s.cpus i c; pcs = update s.pcs i spinning })
  spin :
      (i : ℕ)
      → s.pcs i ≡ spinning
      → (test_and_set s.lock).0 ≡ true
      → Step s (record s { lock = (test_and_set s.lock).1 })
  win :
      (i : ℕ)
      → s.pcs i ≡ spinning
      → (test_and_set s.lock).0 ≡ false
      → Step s (record s { lock = (test_and_set s.lock).1; pcs = update s.pcs i taken })
  enter :
      (i : ℕ)
      → s.pcs i ≡ taken
      → Step s (record s { lock = acquire_end i s.lock; pcs = update s.pcs i inside })
  call_release :
      (i : ℕ) {lk : Lock}
      → s.pcs i ≡ inside
      → release_start i s.lock ≡ some lk
      → Step s (record s { lock = lk; pcs = update s.pcs i leaving })
  leave :
      (i : ℕ) {c : Cpu} {lk : Lock}
      → s.pcs i ≡ leaving
      → release_end (s.cpus i) s.lock ≡ some (c, lk)
      → Step s (record { lock = lk; cpus = update s.cpus i c; pcs = update s.pcs i out })

-- Interrupts may be on or off outside, but no CPU has a push_off open.
pub data Reach : System → Type 0 where
  boot :
      (cpus : ℕ → Cpu)
      → ((i : ℕ) → (cpus i).noff ≡ 0)
      → Reach (record { lock = initlock; cpus = cpus; pcs = λ _. out })
  next : {s t : System} → Reach s → Step s t → Reach t

-- The CPU has won the lock and not given it up.
abbrev pub owns : Pc → Bool
owns out = false
owns spinning = false
owns _ = true

-- What a CPU at `p` knows of the lock.
abbrev Knows : ℕ → Pc → Lock → Type 0
Knows i out lk = Unit
Knows i spinning lk = Unit
Knows i taken lk = (lk.locked ≡ true) × (lk.cpu ≡ none)
Knows i inside lk = (lk.locked ≡ true) × (lk.cpu ≡ some i)
Knows i leaving lk = (lk.locked ≡ true) × (lk.cpu ≡ none)

-- A CPU outside has no push_off open, any other has one and runs with interrupts off.
abbrev Depth : Pc → Cpu → Type 0
Depth out c = c.noff ≡ 0
Depth _ c = (c.noff ≡ 1) × (c.intr ≡ false)

record Inv (s : System) : Type 0 where
  knows : (i : ℕ) → Knows i (s.pcs i) s.lock
  alone : (i j : ℕ) → owns (s.pcs i) ≡ true → owns (s.pcs j) ≡ true → i ≡ j
  free : s.lock.locked ≡ false → (s.lock.cpu ≡ none) × ((i : ℕ) → owns (s.pcs i) ≡ false)
  depth : (i : ℕ) → Depth (s.pcs i) (s.cpus i)

Knows-other : (j : ℕ) (p : Pc) (lk : Lock) → owns p ≡ false → Knows j p lk
Knows-other j out lk h = tt
Knows-other j spinning lk h = tt
Knows-other j taken lk h = cc
Knows-other j inside lk h = cc
Knows-other j leaving lk h = cc

owns_locked : (i : ℕ) (p : Pc) (lk : Lock) → Knows i p lk → owns p ≡ true → lk.locked ≡ true
owns_locked i out lk k h = cc
owns_locked i spinning lk k h = cc
owns_locked i taken lk k h = k.0
owns_locked i inside lk k h = k.0
owns_locked i leaving lk k h = k.0

module _ (s : System) (inv : Inv s) (i : ℕ) where
  -- If `i` owns the lock no other CPU does.
  others : owns (s.pcs i) ≡ true → (j : ℕ) → j ≢ i → owns (s.pcs j) ≡ false
  others o j n = elim (Bool-cases (owns (s.pcs j))) [
    | inl b ↦ absurd (n (sym (inv.alone i j o b)))
    | inr b ↦ b
  ]

  Depth-update :
      (p : Pc) (c : Cpu) → Depth p c → (j : ℕ) → Depth (update s.pcs i p j) (update s.cpus i c j)
  Depth-update p c d j = elim (ℕ_discrete i j) [
    | yes e ↦ rw (update_eq s.pcs i j p e, update_eq s.cpus i j c e) d
    | no n ↦ rw (update_other s.pcs i j p n, update_other s.cpus i j c n) (inv.depth j)
  ]

  Depth-same : (p : Pc) → Depth p (s.cpus i) → (j : ℕ) → Depth (update s.pcs i p j) (s.cpus j)
  Depth-same p d j = elim (ℕ_discrete i j) [
    | yes e ↦ rw (update_eq s.pcs i j p e) (subst (λ k. Depth p (s.cpus k)) e d)
    | no n ↦ rw (update_other s.pcs i j p n) (inv.depth j)
  ]

  -- `i` is the only owner after the step.
  Inv-owner :
      (p : Pc) (lk : Lock) (cpus : ℕ → Cpu)
      → ((j : ℕ) → j ≢ i → owns (s.pcs j) ≡ false)
      → Knows i p lk
      → lk.locked ≡ true
      → ((j : ℕ) → Depth (update s.pcs i p j) (cpus j))
      → Inv (record { lock = lk; cpus = cpus; pcs = update s.pcs i p })
  Inv-owner p lk cpus o k l d = record {
    knows = λ j. elim (ℕ_discrete i j) [
      | yes e ↦ rw (update_eq s.pcs i j p e) (subst (λ x. Knows x p lk) e k)
      | no n ↦ rw (update_other s.pcs i j p n) (Knows-other j (s.pcs j) lk (o j (λ q. n (sym q))))
    ];
    alone = λ a b x y. owner a x ∙ sym (owner b y);
    free = λ f. cc;
    depth = d;
  }
    where
      owner : (a : ℕ) → owns (update s.pcs i p a) ≡ true → a ≡ i
      owner a x = elim (ℕ_discrete i a) [
        | yes e ↦ sym e
        | no n ↦ let h = o a (λ q. n (sym q)) in absurd (ground (arith, update_other s.pcs i a p n))
      ]

  -- The lock stays, and `i` owns it neither before nor after.
  Inv-outside :
      (p : Pc) (cpus : ℕ → Cpu)
      → owns p ≡ false
      → owns (s.pcs i) ≡ false
      → ((j : ℕ) → Depth (update s.pcs i p j) (cpus j))
      → Inv (record { lock = s.lock; cpus = cpus; pcs = update s.pcs i p })
  Inv-outside p cpus a b d = record {
    knows = λ j. elim (ℕ_discrete i j) [
      | yes e ↦ rw (update_eq s.pcs i j p e) (Knows-other j p s.lock a)
      | no n ↦ rw (update_other s.pcs i j p n) (inv.knows j)
    ];
    alone = λ x y h k. inv.alone x y (still x h) (still y k);
    free = λ f. (
      (inv.free f).0,
      λ j. elim (ℕ_discrete i j) [
        | yes e ↦ rw (update_eq s.pcs i j p e) a
        | no n ↦ rw (update_other s.pcs i j p n) ((inv.free f).1 j)
      ],
    );
    depth = d;
  }
    where
      still : (x : ℕ) → owns (update s.pcs i p x) ≡ true → owns (s.pcs x) ≡ true
      still x h = elim (ℕ_discrete i x) [
        | yes e ↦ let q = update_eq s.pcs i x p e in absurd (ground (arith, q))
        | no n ↦ let q = update_other s.pcs i x p n in ground (arith, q)
      ]

  -- `i` gives the lock up.
  Inv-leave :
      (p : Pc) (lk : Lock) (cpus : ℕ → Cpu)
      → ((j : ℕ) → j ≢ i → owns (s.pcs j) ≡ false)
      → owns p ≡ false
      → lk.cpu ≡ none
      → ((j : ℕ) → Depth (update s.pcs i p j) (cpus j))
      → Inv (record { lock = lk; cpus = cpus; pcs = update s.pcs i p })
  Inv-leave p lk cpus o a l d = record {
    knows = λ j. Knows-other j (update s.pcs i p j) lk (nobody j);
    alone = λ x y h k. cc (nobody x);
    free = λ f. (l, nobody);
    depth = d;
  }
    where
      nobody : (j : ℕ) → owns (update s.pcs i p j) ≡ false
      nobody j = elim (ℕ_discrete i j) [
        | yes e ↦ rw (update_eq s.pcs i j p e) a
        | no n ↦ rw (update_other s.pcs i j p n) (o j (λ q. n (sym q)))
      ]

start-depth :
    (i : ℕ) (c : Cpu) (lk : Lock) (d : Cpu)
    → c.noff ≡ 0
    → acquire_start i c lk ≡ some d
    → (d.noff ≡ 1) × (d.intr ≡ false)
unfolding acquire_start
start-depth i c lk d h e = ground arith

end-depth :
    (c : Cpu) (lk : Lock) (d : Cpu) (lk' : Lock)
    → c.noff ≡ 1
    → release_end c lk ≡ some (d, lk')
    → (d.noff ≡ 0) × (lk'.cpu ≡ lk.cpu)
unfolding release_end
end-depth c lk d lk' h e = ground arith

same_lock : (lk : Lock) → lk.locked ≡ true → record lk { locked = true } ≡ lk
same_lock lk e = ground arith

Step-Inv : {s t : System} → Step s t → Inv s → Inv t
unfolding acquire_start test_and_set acquire_end release_start release_end
Step-Inv {s} (call_acquire i {c} p e) inv =
    let d = inv.depth i in
    Inv-outside s inv i spinning (update s.cpus i c) refl (rw p)
      (Depth-update s inv i spinning c (start-depth i (s.cpus i) s.lock c (rw p at d) e))
Step-Inv {s} (spin i p e) inv = rw (same_lock s.lock e) inv
Step-Inv {s} (win i p e) inv =
    Inv-owner s inv i taken (record s.lock { locked = true }) s.cpus (λ j n. (inv.free e).1 j)
      (refl, (inv.free e).0) refl (Depth-same s inv i taken (let d = inv.depth i in rw p at d))
Step-Inv {s} (enter i p) inv =
    let k = inv.knows i in
    let k' = rw p at k in
    Inv-owner s inv i inside (acquire_end i s.lock) s.cpus (others s inv i (rw p)) (k'.0, refl) k'.0
      (Depth-same s inv i inside (let d = inv.depth i in rw p at d))
Step-Inv {s} (call_release i {lk} p e) inv =
    let k = inv.knows i in
    let k' = rw p at k in
    let q : lk ≡ record s.lock { cpu = none } = ground arith in
    Inv-owner s inv i leaving lk s.cpus (others s inv i (rw p)) (rw q (k'.0, refl)) (rw q k'.0)
      (Depth-same s inv i leaving (let d = inv.depth i in rw p at d))
Step-Inv {s} (leave i {c} {lk} p e) inv =
    let k = inv.knows i in
    let k' = rw p at k in
    let d = inv.depth i in
    let d' = rw p at d in
    let (z, n) = end-depth (s.cpus i) s.lock c lk d'.0 e in
    Inv-leave s inv i out lk (update s.cpus i c) (others s inv i (rw p)) refl (n ∙ k'.1)
      (Depth-update s inv i out c z)

Reach-Inv : {s : System} → Reach s → Inv s
unfolding initlock
Reach-Inv (boot cpus z) = record {
  knows = λ i. tt;
  alone = λ i j a b. cc;
  free = λ f. (refl, λ i. refl);
  depth = z;
}
Reach-Inv (next r st) = Step-Inv st (Reach-Inv r)

-- Mutual exclusion: in every state that any number of CPUs reach by interleaving the shared accesses of
-- acquire and release, starting with a free lock, at most one CPU is in the critical section, and that
-- one runs with interrupts off.
pub mutual_exclusion :
    {s : System}
    → Reach s
    → (i j : ℕ) → s.pcs i ≡ inside
    → s.pcs j ≡ inside
    → (i ≡ j) × ((s.cpus i).intr ≡ false)
mutual_exclusion {s} r i j a b =
    let inv = Reach-Inv r in
    let d = inv.depth i in let d' = rw a at d in (inv.alone i j (rw a) (rw b), d'.1)

start_safe : (i : ℕ) (lk : Lock) → lk.locked ≡ true → lk.cpu ≡ some i → release_start i lk ≢ none
unfolding release_start holding
start_safe i lk l c e = ground arith

end_safe : (c : Cpu) (lk : Lock) → c.noff ≡ 1 → c.intr ≡ false → release_end c lk ≢ none
unfolding release_end pop_off
end_safe c lk n f e = ground arith

-- What the next part of release does not do where a CPU stands in it: panic.
abbrev pub Proceeds : ℕ → Pc → Cpu → Lock → Type 0
Proceeds i inside c lk = release_start i lk ≢ none
Proceeds i leaving c lk = release_end c lk ≢ none
Proceeds i _ c lk = Unit

proceeds : (i : ℕ) (p : Pc) (c : Cpu) (lk : Lock) → Knows i p lk → Depth p c → Proceeds i p c lk
proceeds i out c lk k d = tt
proceeds i spinning c lk k d = tt
proceeds i taken c lk k d = tt
proceeds i inside c lk k d = start_safe i lk k.0 k.1
proceeds i leaving c lk k d = end_safe c lk d.0 d.1

-- In every such state release does not panic: a CPU in the critical section passes the test of
-- `holding`, and one that leaves passes the tests of pop_off.
pub release_safe : {s : System} → Reach s → (i : ℕ) → Proceeds i (s.pcs i) (s.cpus i) s.lock
release_safe {s} r i =
    let inv = Reach-Inv r in proceeds i (s.pcs i) (s.cpus i) s.lock (inv.knows i) (inv.depth i)
