-- ===== src/Vm/Walk.antt =====
-- kernel/vm.c: what walk leaves.
use lab_so.Prelude.{
  ℕ, zero, suc, ◌≡◌, ◌≢◌, refl, sym, ap, subst, ◌∙◌, true, false, Option, none, some, List, [], ◌∷◌,
  All, Distinct, inl, inr, update, update_other, Bool-cases, mem-All_ne, arith,
}
use lab_so.Kalloc.{kalloc}
use lab_so.Vm.Defs.{Vm, px, hang, go_below, new_table, walk_step, walk_from, pgrounddown}
use lab_so.Vm.Tree.{view, place, Shape, Free, step_there}
use lab_so.Vm.Grow.{view-hang, Shape-hang, hang_self, hang_cases, grown_self, grown_other}

abbrev pub Found : ℕ → ℕ → ℕ → Vm → Option (ℕ × ℕ) → Type 0
Found l t va v none = v.freelist ≡ []
Found l t va v (some x) = place v.tables l t va ≡ some x

-- What walk may change: tables are added, nothing is mapped or unmapped.
pub record Walked (depth depth' : ℕ → ℕ) (v v' : Vm) : Type 0 where
  pub shape : Shape depth' v'.tables
  pub free : Free depth' v'.freelist
  pub views : (l t va : ℕ) → depth t ≡ suc l → view v'.tables l t va ≡ view v.tables l t va
  pub depths : (q l : ℕ) → depth q ≡ suc l → depth' q ≡ suc l
  pub kept :
      (q j l : ℕ)
      → depth q ≡ suc (suc l)
      → (v.tables q j).valid ≡ true
      → v'.tables q j ≡ v.tables q j

Walked-refl :
    (depth : ℕ → ℕ) (v : Vm) → Shape depth v.tables → Free depth v.freelist → Walked depth depth v v
Walked-refl depth v s f = record {
  shape = s;
  free = f;
  views = λ l t va h. refl;
  depths = λ q l h. h;
  kept = λ q j l h e. refl;
}

Walked-trans :
    (d d' d'' : ℕ → ℕ) (v v' v'' : Vm)
    → Walked d d' v v'
    → Walked d' d'' v' v''
    → Walked d d'' v v''
Walked-trans d d' d'' v v' v'' a b = record {
  shape = b.shape;
  free = b.free;
  views = λ l t va h. b.views l t va (a.depths t l h) ∙ a.views l t va h;
  depths = λ q l h. b.depths q l (a.depths q l h);
  kept = λ q j l h e.
      let k = a.kept q j l h e in b.kept q j l (a.depths q (suc l) h) (ap (λ z. z.valid) k ∙ e) ∙ k;
}

All-grown :
    (depth : ℕ → ℕ) (p k : ℕ) (fs : List ℕ)
    → All (λ q. q ≢ p) fs
    → All (λ q. (depth q ≡ 0) × (pgrounddown q ≡ q)) fs
    → All (λ q. (update depth p (suc k) q ≡ 0) × (pgrounddown q ≡ q)) fs
All-grown depth p k [] n a = tt
All-grown depth p k (q ∷ fs) n a = (
  (update_other depth p q (suc k) (λ x. n.0 (sym x)) ∙ a.0.0, a.0.1),
  All-grown depth p k fs n.1 a.1,
)

-- A round of walk that makes the table `p`.
module _ (depth : ℕ → ℕ) (v : Vm) (s : Shape depth v.tables) (t i p l : ℕ) (rest : List ℕ)
    (h : depth t ≡ suc (suc l)) (b : (v.tables t i).valid ≡ false) (q : v.freelist ≡ p ∷ rest)
    (f : Free depth v.freelist) where
  abbrev next : Vm
  next = record { tables = hang t i p v.tables; freelist = rest }

  unused : All (λ q. (depth q ≡ 0) × (pgrounddown q ≡ q)) (p ∷ rest)
  unused = let u = f.unused in rw q at u

  distinct : Distinct (p ∷ rest)
  distinct = let u = f.distinct in rw q at u

  pub Walked-hang : Walked depth (update depth p (suc l)) v next
  Walked-hang =
      let u = unused in
      let d = distinct in
      record {
        shape = Shape-hang depth v.tables s t i p l h b u.0.0 u.0.1;
        free = record {
          unused = All-grown depth p l rest (mem-All_ne p rest d.0) u.1;
          distinct = d.1;
        };
        views = λ m r va g. view-hang depth v.tables s t i p l h b u.0.0 u.0.1 m r va g;
        depths = λ r m g.
            grown_other depth v.tables s t i p l h b u.0.0 u.0.1 r
              (λ x. let z = ap depth x in let w = u.0.0 in omega arith)
            ∙ g;
        kept = λ r j m g e.
            elim (hang_cases depth v.tables s t i p l h b u.0.0 u.0.1 (suc m) r j g) [
              | inl (x, y) ↦
                  let z =
                    subst (λ a. (v.tables a j).valid ≡ false) x
                      (subst (λ a. (v.tables t a).valid ≡ false) y b) in
                  cc
              | inr w ↦ w
            ];
      }

step_full :
    (l t va : ℕ) (v : Vm)
    → (v.tables t (px l va)).valid ≡ false
    → v.freelist ≡ []
    → walk_step true l t va v ≡ (none, v)
unfolding walk_step kalloc new_table
step_full l t va v e q = rw (e, q) refl

step_new :
    (l t va p : ℕ) (rest : List ℕ) (v : Vm)
    → (v.tables t (px l va)).valid ≡ false
    → v.freelist ≡ p ∷ rest
    → walk_step true l t va v
      ≡ (some p, record { tables = hang t (px l va) p v.tables; freelist = rest })
unfolding walk_step kalloc new_table
step_new l t va p rest v e q = rw (e, q) refl

-- walk from a table of level `l` on: the tree keeps its shape, every address comes to the entry it came
-- to, and the place of `va` is found unless there is no free page.
pub record Reached (depth depth' : ℕ → ℕ) (l t va : ℕ) (v : Vm) (r : Option (ℕ × ℕ)) (v' : Vm)
    : Type 0 where
  pub walked : Walked depth depth' v v'
  pub outcome : Found l t va v' r

Reached-below :
    (d d' d'' : ℕ → ℕ) (l t va c : ℕ) (v w v' : Vm) (r : Option (ℕ × ℕ))
    → d' t ≡ suc (suc l)
    → (w.tables t (px (suc l) va)).valid ≡ true
    → (w.tables t (px (suc l) va)).pa ≡ c
    → Walked d d' v w
    → Reached d' d'' l c va w r v'
    → Reached d d'' (suc l) t va v r v'
Reached-below d d' d'' l t va c v w v' r h e p a x = record {
  walked = Walked-trans d d' d'' v w v' a x.walked;
  outcome = go r x.outcome;
}
  where
    j : ℕ
    j = px (suc l) va

    same : v'.tables t j ≡ w.tables t j
    same = x.walked.kept t j l h e

    go : (r : Option (ℕ × ℕ)) → Found l c va v' r → Found (suc l) t va v' r
    go none f = f
    go (some y) f = rw (same, e, p) f

-- walk, where it makes tables.
pub walk_from-Reached :
    (l t va : ℕ) (depth : ℕ → ℕ) (v : Vm)
    → Shape depth v.tables
    → Free depth v.freelist
    → depth t ≡ suc l
    → (depth' : ℕ → ℕ) × Reached depth depth' l t va v
        (walk_from true l t va v).0
        (walk_from true l t va v).1
unfolding walk_from go_below
walk_from-Reached zero t va depth v s f h =
    (depth, record { walked = Walked-refl depth v s f; outcome = refl })
walk_from-Reached (suc l) t va depth v s f h =
    elim (Bool-cases (v.tables t (px (suc l) va)).valid) [
      | inl b ↦
          let c = (v.tables t (px (suc l) va)).pa in
          let (d, x) = walk_from-Reached l c va depth v s f (s.below l t (px (suc l) va) h b) in
          rw (step_there true (suc l) t va v b) (
            d,
            Reached-below depth depth d l t va c v v (walk_from true l c va v).1
                (walk_from true l c va v).0 h b refl (Walked-refl depth v s f) x,
          )
      | inr b ↦ make v.freelist refl b (λ u d w a g k. walk_from-Reached l u va d w a g k)
    ]
  where
    make :
        (fs : List ℕ)
        → v.freelist ≡ fs
        → (v.tables t (px (suc l) va)).valid ≡ false
        → ((u : ℕ) (d : ℕ → ℕ) (w : Vm)
            → Shape d w.tables
            → Free d w.freelist
            → d u ≡ suc l
            → (d' : ℕ → ℕ) × Reached d d' l u va w
                (walk_from true l u va w).0
                (walk_from true l u va w).1)
        → (depth' : ℕ → ℕ) × Reached depth depth'
            (suc l)
            t
            va
            v
            (go_below (λ u v'. walk_from true l u va v') (walk_step true (suc l) t va v)).0
            (go_below (λ u v'. walk_from true l u va v') (walk_step true (suc l) t va v)).1
    make [] q b rec =
        rw (step_full (suc l) t va v b q)
          (depth, record { walked = Walked-refl depth v s f; outcome = q })
    make (p ∷ rest) q b rec =
        let j = px (suc l) va in
        let w : Vm = record { tables = hang t j p v.tables; freelist = rest } in
        let u = f.unused in
        let u' = rw q at u in
        let a = Walked-hang depth v s t j p l rest h b q f in
        let g = update depth p (suc l) in
        let (d, x) =
          rec p g w a.shape a.free (grown_self depth v.tables s t j p l h b u'.0.0 u'.0.1) in
        let e = hang_self depth v.tables s t j p l h b u'.0.0 u'.0.1 in
        rw (step_new (suc l) t va p rest v b q) (
          d,
          Reached-below depth g d l t va p v w (walk_from true l p va w).1
              (walk_from true l p va w).0 (a.depths t (suc l) h) (ap (λ z. z.valid) e)
              (ap (λ z. z.pa) e) a x,
        )
