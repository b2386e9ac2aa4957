-- ===== src/Vm/Tree.antt =====
-- kernel/vm.c: what a page table maps, and the tree that its tables form.
use lab_so.Prelude.{
  ℕ, zero, suc, ◌≡◌, ◌≢◌, refl, sym, ap, subst, ◌∙◌, Bool, true, false, Option, none, some, List,
  All, Distinct, inl, inr, if◌then◌else◌, update, update_eq, update_other, Bool-cases, ℕ_discrete,
  arith,
}
use lab_so.Vm.Defs.{Pte, blank, Vm, write, px, go_below, walk_step, walk_from, pgrounddown}
use lab_so.Vm.Px.{Agree}

-- The entry that an address comes to, from a table of level `l` on; `blank` where a table is missing.
abbrev pub view : (ℕ → ℕ → Pte) → ℕ → ℕ → ℕ → Pte
view tables zero t va = tables t (px zero va)
view tables (suc l) t va =
    let pte = tables t (px (suc l) va) in
    let rest = view tables l pte.pa va in if pte.valid then rest else blank

-- Where that entry stands.
abbrev pub place : (ℕ → ℕ → Pte) → ℕ → ℕ → ℕ → Option (ℕ × ℕ)
place tables zero t va = some (t, px zero va)
place tables (suc l) t va =
    let pte = tables t (px (suc l) va) in
    let rest = place tables l pte.pa va in if pte.valid then rest else none

-- `depth p` is the level of the table in page `p` and one, and 0 for a page that is no table. An entry of
-- a table above the last level leads one level down, and two entries never lead to the same table.
pub record Shape (depth : ℕ → ℕ) (tables : ℕ → ℕ → Pte) : Type 0 where
  pub below :
      (l p i : ℕ)
      → depth p ≡ suc (suc l)
      → (tables p i).valid ≡ true
      → depth (tables p i).pa ≡ suc l
  pub once :
      (l p q i j : ℕ)
      → depth p ≡ suc (suc l)
      → depth q ≡ suc (suc l)
      → (tables p i).valid ≡ true
      → (tables q j).valid ≡ true
      → (tables p i).pa ≡ (tables q j).pa
      → (p ≡ q) × (i ≡ j)

-- No free page is a table; a free page is free once, and begins at a multiple of the page size.
pub record Free (depth : ℕ → ℕ) (freelist : List ℕ) : Type 0 where
  pub unused : All (λ p. (depth p ≡ 0) × (pgrounddown p ≡ p)) freelist
  pub distinct : Distinct freelist

pub place-below :
    (tables : ℕ → ℕ → Pte) (l t va : ℕ) {x : ℕ × ℕ}
    → place tables (suc l) t va ≡ some x
    → ((tables t (px (suc l) va)).valid ≡ true)
      × (place tables l (tables t (px (suc l) va)).pa va ≡ some x)
place-below tables l t va e = elim (Bool-cases (tables t (px (suc l) va)).valid) [
  | inl b ↦ (b, rw b at e)
  | inr b ↦ let e' = rw b at e in cc
]

pub pair-eq :
    (t i p j : ℕ) → ◌≡◌ {A = Option (ℕ × ℕ)} (some (t, i)) (some (p, j)) → (t ≡ p) × (i ≡ j)
pair-eq t i p j e = (cc, cc)

pub place-view :
    (tables : ℕ → ℕ → Pte) (l t va p i : ℕ)
    → place tables l t va ≡ some (p, i)
    → view tables l t va ≡ tables p i
place-view tables zero t va p i e = let (x, y) = pair-eq t (px zero va) p i e in rw (x, y) refl
place-view tables (suc l) t va p i e =
    let (b, f) = place-below tables l t va e in
    rw b (place-view tables l (tables t (px (suc l) va)).pa va p i f)

pub no_place-view :
    (tables : ℕ → ℕ → Pte) (l t va : ℕ) → place tables l t va ≡ none → view tables l t va ≡ blank
no_place-view tables zero t va e = cc
no_place-view tables (suc l) t va e = elim (Bool-cases (tables t (px (suc l) va)).valid) [
  | inl b ↦ rw b (no_place-view tables l (tables t (px (suc l) va)).pa va (rw b at e))
  | inr b ↦ rw b refl
]

module _ (depth : ℕ → ℕ) (tables : ℕ → ℕ → Pte) (s : Shape depth tables) where
  pub place-depth :
      (l t va p i : ℕ) → depth t ≡ suc l → place tables l t va ≡ some (p, i) → depth p ≡ 1
  place-depth zero t va p i d e =
      let x = pair-eq t (px zero va) p i e in subst (λ k. depth k ≡ 1) x.0 d
  place-depth (suc l) t va p i d e =
      let (b, f) = place-below tables l t va e in
      place-depth l (tables t (px (suc l) va)).pa va p i (s.below l t (px (suc l) va) d b) f

  pub place-Agree :
      (l t u va wa p i : ℕ)
      → depth t ≡ suc l
      → depth u ≡ suc l
      → place tables l t va ≡ some (p, i)
      → place tables l u wa ≡ some (p, i)
      → (t ≡ u) × Agree l va wa
  place-Agree zero t u va wa p i d f a b =
      let x = pair-eq t (px zero va) p i a in
      let y = pair-eq u (px zero wa) p i b in (x.0 ∙ sym y.0, x.1 ∙ sym y.1)
  place-Agree (suc l) t u va wa p i d f a b =
      let x = place-below tables l t va a in
      let y = place-below tables l u wa b in
      let c = s.below l t (px (suc l) va) d x.0 in
      let c' = s.below l u (px (suc l) wa) f y.0 in
      let (q, r) =
        place-Agree l (tables t (px (suc l) va)).pa (tables u (px (suc l) wa)).pa va wa p i c c' x.1
          y.1 in
      let (m, n) = s.once l t u (px (suc l) va) (px (suc l) wa) d f x.0 y.0 q in (m, (r, n))

pub step_there :
    (alloc : Bool) (l t va : ℕ) (v : Vm)
    → (v.tables t (px l va)).valid ≡ true
    → walk_step alloc l t va v ≡ (some (v.tables t (px l va)).pa, v)
unfolding walk_step
step_there alloc l t va v e = rw e refl

step_missing :
    (l t va : ℕ) (v : Vm)
    → (v.tables t (px l va)).valid ≡ false
    → walk_step false l t va v ≡ (none, v)
unfolding walk_step
step_missing l t va v e = rw e refl

-- A walk that makes no table finds the place, and changes nothing.
pub walk_from-place : (l t va : ℕ) (v : Vm) → walk_from false l t va v ≡ (place v.tables l t va, v)
unfolding walk_from go_below
walk_from-place zero t va v = refl
walk_from-place (suc l) t va v = elim (Bool-cases (v.tables t (px (suc l) va)).valid) [
  | inl b ↦
      rw (step_there false (suc l) t va v b, b)
        (walk_from-place l (v.tables t (px (suc l) va)).pa va v)
  | inr b ↦ rw (step_missing (suc l) t va v b, b) refl
]

module _ (tables : ℕ → ℕ → Pte) (p i : ℕ) (e : Pte) where
  pub write_self : (q j : ℕ) → p ≡ q → i ≡ j → write p i e tables q j ≡ e
  write_self q j a b =
      rw (update_eq tables p q (update (tables p) i e) a, update_eq (tables p) i j e b) refl

  pub write_page : (q j : ℕ) → p ≢ q → write p i e tables q j ≡ tables q j
  write_page q j a = rw (update_other tables p q (update (tables p) i e) a) refl

  pub write_index : (q j : ℕ) → i ≢ j → write p i e tables q j ≡ tables q j
  write_index q j b = elim (ℕ_discrete p q) [
    | yes a ↦
        rw (update_eq tables p q (update (tables p) i e) a, update_other (tables p) i j e b)
          (ap (λ k. tables k j) a)
    | no a ↦ write_page q j a
  ]

  module _ (depth : ℕ → ℕ) (s : Shape depth tables) (d : depth p ≡ 1) where
    higher : (l t : ℕ) → depth t ≡ suc (suc l) → p ≢ t
    higher l t h x = let y = ap depth x in omega arith

    -- Writing an entry of the last level leaves what comes to another entry.
    pub view-write_other :
        (l t va : ℕ)
        → depth t ≡ suc l
        → place tables l t va ≢ some (p, i)
        → view (write p i e tables) l t va ≡ view tables l t va
    view-write_other zero t va h n = elim (ℕ_discrete p t) [
      | yes a ↦ elim (ℕ_discrete i (px zero va)) [
        | yes b ↦ absurd (n (rw (sym a, sym b) refl))
        | no b ↦ write_index t (px zero va) b
      ]
      | no a ↦ write_page t (px zero va) a
    ]
    view-write_other (suc l) t va h n =
        let w = write_page t (px (suc l) va) (higher l t h) in
        elim (Bool-cases (tables t (px (suc l) va)).valid) [
          | inl b ↦
              let n' : place tables l (tables t (px (suc l) va)).pa va ≢ some (p, i) =
                λ q. n (rw b q) in
              rw (w, b)
                (view-write_other l (tables t (px (suc l) va)).pa va
                  (s.below l t (px (suc l) va) h b) n')
          | inr b ↦ rw (w, b) refl
        ]

    pub view-write_self :
        (l t va : ℕ)
        → depth t ≡ suc l
        → place tables l t va ≡ some (p, i)
        → view (write p i e tables) l t va ≡ e
    view-write_self zero t va h n =
        let x = pair-eq t (px zero va) p i n in write_self t (px zero va) (sym x.0) (sym x.1)
    view-write_self (suc l) t va h n =
        let w = write_page t (px (suc l) va) (higher l t h) in
        let (b, f) = place-below tables l t va n in
        rw (w, b)
          (view-write_self l (tables t (px (suc l) va)).pa va (s.below l t (px (suc l) va) h b) f)

    pub Shape-write : Shape depth (write p i e tables)
    Shape-write = record {
      below =
          λ l q j h v. let w = write_page q j (higher l q h) in rw w (s.below l q j h (rw w at v));
      once = λ l q r j k h g v u m.
          let w = write_page q j (higher l q h) in
          let x = write_page r k (higher l r g) in
          s.once l q r j k h g (rw w at v) (rw x at u) (rw (w, x) at m);
    }
