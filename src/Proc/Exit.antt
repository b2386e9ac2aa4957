-- ===== src/Proc/Exit.antt =====
-- kernel/proc.c: exit, from reparent to the zombie.
use lab_so.Prelude.{
  ℕ, ◌<◌, ◌≡◌, ◌≢◌, refl, sym, ◌∙◌, ap, subst, inl, inr, Option, none, some, ◌==◌, update,
  update_eq, update_other, Bool-cases, ℕ_discrete, arith,
}
use lab_so.Proc.Defs.{
  nproc, initproc, ProcState, unused, sleeping, running, zombie, at_slot, Proc, Procs, wakeup,
  wake_parent, reparent_from, reparent, exit,
}
use lab_so.Proc.Loops.{
  Woken, wakeup-Woken, wakeup_awake, Waits, Up, Up-trans, Woken-Up, ParentOf, Moved, reparent_lem,
}
use lab_so.Proc.Steps.{Alive}
use lab_so.Proc.Calm.{Inv, in_table}
use lab_so.Proc.Wait.{has_slot}

wake_parent-Woken : (i : ℕ) (r : Option ℕ) (t : Procs) (j : ℕ) → Woken (t j) (wake_parent i r t j)
unfolding wake_parent
wake_parent-Woken i none t j = inl refl
wake_parent-Woken i (some p) t j = wakeup-Woken (some i) (at_slot p) t j

wake_parent_awake :
    (i b : ℕ) (r : Option ℕ) (t : Procs)
    → r ≡ some b
    → b < nproc
    → b ≢ i
    → Waits b (wake_parent i r t b)
    → ⊥
unfolding wake_parent
wake_parent_awake i b none t e h n w = cc
wake_parent_awake i b (some p) t e h n w =
    let p' : p ≡ b = cc in
    wakeup_awake i b b t h n (subst (λ k. Waits b (wakeup (some i) (at_slot k) t b)) p' w)

Alive-Up : {a b : ProcState} → Up a b → Alive a → Alive b
Alive-Up (inl e) v = rw e v
Alive-Up (inr (s, e)) v = rw e ((λ x. cc), (λ x. cc))

zombie-Up : {a b : ProcState} → Up a b → b ≡ zombie → a ≡ zombie
zombie-Up (inl e) z = sym e ∙ z
zombie-Up (inr (s, e)) z = cc

unused-Up : {a b : ProcState} → Up a b → b ≡ unused → a ≡ unused
unused-Up (inl e) z = sym e ∙ z
unused-Up (inr (s, e)) z = cc

sleeping-Up : {a b : ProcState} → Up a b → b ≡ sleeping → a ≡ sleeping
sleeping-Up (inl e) z = sym e ∙ z
sleeping-Up (inr (s, e)) z = s

stays_unused : {a b : ProcState} → Up a b → a ≡ unused → b ≡ unused
stays_unused (inl e) z = e ∙ z
stays_unused (inr (s, e)) z = cc

-- `t₁` after reparent, `t₂` after the wakeup of the parent of `i`.
module _ (t t₁ t₂ : Procs) (i : ℕ) (inv : Inv t) (r : (t i).state ≡ running) (away : i ≢ initproc)
    (m : Moved nproc i t t₁) (w : (j : ℕ) → Woken (t₁ j) (t₂ j))
    (awake : (b : ℕ) → (t₁ i).parent ≡ some b → b < nproc → b ≢ i → Waits b (t₂ b) → ⊥) where
  up₁ : (j : ℕ) → Up (t₁ j).state (t₂ j).state
  up₁ j = (Woken-Up (w j)).0

  up : (j : ℕ) → Up (t j).state (t₂ j).state
  up j = Up-trans (m.woken j) (up₁ j)

  parent₂ : (j : ℕ) → (t₂ j).parent ≡ (t₁ j).parent
  parent₂ j = (Woken-Up (w j)).2

  asleep_before : (b : ℕ) → Waits b (t₂ b) → Waits b (t b)
  asleep_before b v = (sleeping-Up (up b) v.0, sym (m.chans b) ∙ sym (Woken-Up (w b)).1 ∙ v.1)

  asleep_between : (b : ℕ) → Waits b (t₂ b) → Waits b (t₁ b)
  asleep_between b v = (sleeping-Up (up₁ b) v.0, sym (Woken-Up (w b)).1 ∙ v.1)

  -- Nobody is left a child of `i`, and every parent is alive.
  new_parent : (a b : ℕ) → (t₁ a).parent ≡ some b → (b ≢ i) × Alive (t b).state
  new_parent a b e = go (m.parents a)
    where
      go : ParentOf nproc i t t₁ a → (b ≢ i) × Alive (t b).state
      go (inl (q, f)) = (
        λ x. f (has_slot t a b inv (sym q ∙ e)) (sym q ∙ e ∙ ap some x),
        inv.alive a b (sym q ∙ e),
      )
      go (inr (q, g, aw)) =
          let z : initproc ≡ b = cc in
          ((λ x. away (sym (z ∙ x))), subst (λ k. Alive (t k).state) z inv.root)

  zombies : (a b : ℕ) → (t₁ a).parent ≡ some b → (t a).state ≡ zombie → Waits b (t₂ b) → ⊥
  zombies a b e z v = go (m.parents a)
    where
      go : ParentOf nproc i t t₁ a → ⊥
      go (inl (q, f)) = inv.watch a b (sym q ∙ e) z (asleep_before b v)
      go (inr (q, g, aw)) =
          let y : b ≡ initproc = cc in aw (subst (λ k. Waits k (t₁ k)) y (asleep_between b v))

  orphan : (a : ℕ) → (t a).state ≡ unused → (t₁ a).parent ≡ none
  orphan a u = go (m.parents a)
    where
      go : ParentOf nproc i t t₁ a → (t₁ a).parent ≡ none
      go (inl (q, f)) = q ∙ inv.clean a u
      go (inr (q, g, aw)) = let c = inv.clean a u in cc

  Inv-ended : (q : Proc) → q.state ≡ zombie → q.parent ≡ (t₂ i).parent → Inv (update t₂ i q)
  Inv-ended q qz qp = record {
    alive = λ a b e.
        let (n, v) = new_parent a b (sym (parents a) ∙ e) in
        rw (update_other t₂ i b q (λ x. n (sym x))) (Alive-Up (up b) v);
    watch = λ a b e z v.
        let e' = sym (parents a) ∙ e in
        let (n, l) = new_parent a b e' in
        let v' = rw (update_other t₂ i b q (λ x. n (sym x))) at v in
        elim (ℕ_discrete i a) [
          | yes x ↦
              awake b (subst (λ k. (t₁ k).parent ≡ some b) (sym x) e') (in_table t b inv l.0) n v'
          | no x ↦ zombies a b e' (zombie-Up (up a) (rw (update_other t₂ i a q x) at z)) v'
        ];
    root = rw (update_other t₂ i initproc q away) (Alive-Up (up initproc) inv.root);
    clean = λ a u. elim (ℕ_discrete i a) [
      | yes x ↦ let u' = rw (update_eq t₂ i a q x) at u in cc
      | no x ↦ parents a ∙ orphan a (unused-Up (up a) (rw (update_other t₂ i a q x) at u))
    ];
    bounded = λ a h. elim (ℕ_discrete i a) [
      | yes x ↦ let b = inv.bounded a h in let r' = subst (λ k. (t k).state ≡ running) x r in cc
      | no x ↦ rw (update_other t₂ i a q x) (stays_unused (up a) (inv.bounded a h))
    ];
  }
    where
      parents : (a : ℕ) → (update t₂ i q a).parent ≡ (t₁ a).parent
      parents a = elim (ℕ_discrete i a) [
        | yes x ↦ rw (update_eq t₂ i a q x) (qp ∙ parent₂ i ∙ ap (λ k. (t₁ k).parent) x)
        | no x ↦ rw (update_other t₂ i a q x) (parent₂ a)
      ]

pub Inv-exit :
    (t t' : Procs) (i status : ℕ)
    → Inv t
    → (t i).state ≡ running
    → exit i status t ≡ some t'
    → Inv t'
unfolding exit reparent
Inv-exit t t' i status inv r e = elim (Bool-cases (i == initproc)) [
  | inl b ↦ let e' = rw b at e in cc
  | inr b ↦
      let t₁ = reparent_from nproc i t in
      let t₂ = wake_parent i (t₁ i).parent t₁ in
      let away : i ≢ initproc = ground arith in
      let m = reparent_lem nproc i t away in
      let q : t' ≡ update t₂ i (record (t₂ i) { xstate = status; state = zombie }) =
        some_inj (rw b at e) in
      rw q (
        Inv-ended t t₁ t₂ i inv r away m (λ j. wake_parent-Woken i (t₁ i).parent t₁ j)
          (λ c p h n v. wake_parent_awake i c (t₁ i).parent t₁ p h n v)
          (record (t₂ i) { xstate = status; state = zombie }) refl refl)
]
  where
    some_inj : {x y : Procs} → some x ≡ some y → y ≡ x
    some_inj p = cc
