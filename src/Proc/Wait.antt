-- ===== src/Proc/Wait.antt =====
-- kernel/proc.c: wait and the rest of fork, from parent to child.
use lab_so.Prelude.{
  ℕ, ◌<◌, ◌≡◌, refl, sym, ◌∙◌, ap, subst, true, false, ◌&&◌, some, update, update_eq, update_other,
  ℕ_discrete, arith,
}
use lab_so.Proc.Defs.{
  nproc, initproc, ProcState, unused, used, sleeping, runnable, running, zombie, at_slot, is_zombie,
  Proc, Procs, freeproc, is_child,
}
use lab_so.Proc.Steps.{Alive}
use lab_so.Proc.Calm.{Inv, in_table}

pub zombie_lem : (s : ProcState) → is_zombie s ≡ true → s ≡ zombie
unfolding is_zombie
zombie_lem zombie h = refl
zombie_lem used h = cc
zombie_lem sleeping h = cc
zombie_lem runnable h = cc
zombie_lem running h = cc
zombie_lem unused h = cc

is_child-some : (i : ℕ) (p : Proc) → p.parent ≡ some i → is_child i p ≡ true
unfolding is_child
is_child-some i p e = rw e (ground arith)

zombie_refl : is_zombie zombie ≡ true
unfolding is_zombie
zombie_refl = refl

-- A zombie has no children, so it can go.
pub Inv-reap :
    (t : Procs) (j : ℕ) → Inv t → (t j).state ≡ zombie → Inv (update t j (freeproc (t j)))
unfolding freeproc
Inv-reap t j inv z = record {
  alive = λ a b e. elim (ℕ_discrete j a) [
    | yes x ↦ let u = update_eq t j a (freeproc (t j)) x in let e' = rw u at e in cc
    | no x ↦
        let u = update_other t j a (freeproc (t j)) x in
        let v = inv.alive a b (rw u at e) in
        elim (ℕ_discrete j b) [
          | yes y ↦ absurd (v.1 (subst (λ k. (t k).state ≡ zombie) y z))
          | no y ↦ rw (update_other t j b (freeproc (t j)) y) v
        ]
  ];
  watch = λ a b e y w. elim (ℕ_discrete j a) [
    | yes x ↦ let u = update_eq t j a (freeproc (t j)) x in let e' = rw u at e in cc
    | no x ↦
        let u = update_other t j a (freeproc (t j)) x in
        elim (ℕ_discrete j b) [
          | yes q ↦ let u' = update_eq t j b (freeproc (t j)) q in let w' = rw u' at w.0 in cc
          | no q ↦
              inv.watch a b (rw u at e) (rw u at y)
                (rw (update_other t j b (freeproc (t j)) q) at w)
        ]
  ];
  root = elim (ℕ_discrete j initproc) [
    | yes x ↦ absurd (inv.root.1 (subst (λ k. (t k).state ≡ zombie) x z))
    | no x ↦ rw (update_other t j initproc (freeproc (t j)) x) inv.root
  ];
  clean = λ a u. elim (ℕ_discrete j a) [
    | yes x ↦ rw (update_eq t j a (freeproc (t j)) x) refl
    | no x ↦ let v = update_other t j a (freeproc (t j)) x in rw v (inv.clean a (rw v at u))
  ];
  bounded = λ a h. elim (ℕ_discrete j a) [
    | yes x ↦ rw (update_eq t j a (freeproc (t j)) x) refl
    | no x ↦ rw (update_other t j a (freeproc (t j)) x) (inv.bounded a h)
  ];
}

-- Whoever has a parent is in the table.
pub has_slot : (t : Procs) (i j : ℕ) → Inv t → (t i).parent ≡ some j → i < nproc
has_slot t i j inv e = in_table t i inv (λ u. let h = inv.clean i u in cc)

pub Inv-asleep :
    (t : Procs) (i : ℕ)
    → Inv t
    → (t i).state ≡ running
    → ((j : ℕ) → j < nproc → is_child i (t j) && is_zombie (t j).state ≡ false)
    → Inv (update t i (record (t i) { chan = some (at_slot i); state = sleeping }))
Inv-asleep t i inv r none_ended = record {
  alive = λ a b e.
      let v = inv.alive a b (sym (parents a) ∙ e) in
      elim (ℕ_discrete i b) [
        | yes y ↦ rw (update_eq t i b q y) ((λ x. cc), (λ x. cc))
        | no y ↦ rw (update_other t i b q y) v
      ];
  watch = λ a b e z w. elim (ℕ_discrete i a) [
    | yes x ↦ let z' = rw (update_eq t i a q x) at z in cc
    | no x ↦
        let z' = rw (update_other t i a q x) at z in
        let e' = sym (parents a) ∙ e in
        elim (ℕ_discrete i b) [
          | yes y ↦ no_zombie a (e' ∙ ap some (sym y)) z'
          | no y ↦ inv.watch a b e' z' (rw (update_other t i b q y) at w)
        ]
  ];
  root = elim (ℕ_discrete i initproc) [
    | yes x ↦ rw (update_eq t i initproc q x) ((λ x. cc), (λ x. cc))
    | no x ↦ rw (update_other t i initproc q x) inv.root
  ];
  clean = λ a u. elim (ℕ_discrete i a) [
    | yes x ↦ let u' = rw (update_eq t i a q x) at u in cc
    | no x ↦ parents a ∙ inv.clean a (rw (update_other t i a q x) at u)
  ];
  bounded = λ a h. elim (ℕ_discrete i a) [
    | yes x ↦ let b = inv.bounded a h in let r' = subst (λ k. (t k).state ≡ running) x r in cc
    | no x ↦ rw (update_other t i a q x) (inv.bounded a h)
  ];
}
  where
    q : Proc
    q = record (t i) { chan = some (at_slot i); state = sleeping }

    parents :
        (a : ℕ)
        → (update t i (record (t i) { chan = some (at_slot i); state = sleeping }) a).parent
          ≡ (t a).parent
    parents a = elim (ℕ_discrete i a) [
      | yes x ↦
          rw (update_eq t i a (record (t i) { chan = some (at_slot i); state = sleeping }) x)
            (ap (λ k. (t k).parent) x)
      | no x ↦
          rw (update_other t i a (record (t i) { chan = some (at_slot i); state = sleeping }) x)
            refl
    ]

    no_zombie : (a : ℕ) → (t a).parent ≡ some i → (t a).state ≡ zombie → ⊥
    no_zombie a e z =
        let h = none_ended a (has_slot t a i inv e) in
        let c = is_child-some i (t a) e in let d = zombie_refl in ground (arith, h, c, d, z)

pub Inv-adopt :
    (t : Procs) (i j : ℕ)
    → Inv t
    → (t i).state ≡ running
    → (t j).state ≡ used
    → Inv (update t j (record (t j) { parent = some i }))
Inv-adopt t i j inv r u = record {
  alive = λ a b e. kept b (elim (ℕ_discrete j a) [
    | yes x ↦
        let e' = rw (update_eq t j a q x) at e in
        let b' : i ≡ b = ground arith in rw (sym b', r) ((λ x. cc), (λ x. cc))
    | no x ↦ inv.alive a b (rw (update_other t j a q x) at e)
  ]);
  watch = λ a b e z w. elim (ℕ_discrete j a) [
    | yes x ↦ let z' = rw (update_eq t j a q x) at z in cc
    | no x ↦
        let o = update_other t j a q x in
        elim (ℕ_discrete j b) [
          | yes y ↦ let w' = rw (update_eq t j b q y) at w.0 in cc
          | no y ↦ inv.watch a b (rw o at e) (rw o at z) (rw (update_other t j b q y) at w)
        ]
  ];
  root = kept initproc inv.root;
  clean = λ a v. elim (ℕ_discrete j a) [
    | yes x ↦ let v' = rw (update_eq t j a q x) at v in cc
    | no x ↦ let o = update_other t j a q x in rw o (inv.clean a (rw o at v))
  ];
  bounded = λ a h. elim (ℕ_discrete j a) [
    | yes x ↦ let b = inv.bounded a h in let u' = subst (λ k. (t k).state ≡ used) x u in cc
    | no x ↦ rw (update_other t j a q x) (inv.bounded a h)
  ];
}
  where
    q : Proc
    q = record (t j) { parent = some i }

    kept :
        (b : ℕ) → Alive (t b).state → Alive (update t j (record (t j) { parent = some i }) b).state
    kept b v = elim (ℕ_discrete j b) [
      | yes y ↦
          rw (update_eq t j b (record (t j) { parent = some i }) y)
            (subst (λ k. Alive (t k).state) (sym y) v)
      | no y ↦ rw (update_other t j b (record (t j) { parent = some i }) y) v
    ]
