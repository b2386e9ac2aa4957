-- ===== src/Vm/Grow.antt =====
-- kernel/vm.c: a walk that makes the tables it misses.
use lab_so.Prelude.{
  ℕ, zero, suc, ◌≡◌, ◌≢◌, refl, sym, ap, subst, ◌∙◌, true, false, ◌⊎◌, inl, inr, update, update_eq,
  update_other, Bool-cases, ℕ_discrete, arith,
}
use lab_so.Vm.Defs.{Pte, blank, entry, no_perm, px, hang, pgrounddown}
use lab_so.Vm.Tree.{view, Shape, write_self, write_page, write_index}

module _ (depth : ℕ → ℕ) (tables : ℕ → ℕ → Pte) (s : Shape depth tables) (t0 i0 p k : ℕ)
    (high : depth t0 ≡ suc (suc k)) (absent : (tables t0 i0).valid ≡ false) (fresh : depth p ≡ 0)
    (aligned : pgrounddown p ≡ p) where
  abbrev pub grown : ℕ → ℕ
  grown = update depth p (suc k)

  abbrev cleared : ℕ → ℕ → Pte
  cleared = update tables p (λ _. blank)

  apart : p ≢ t0
  apart x = let y = ap depth x in omega arith

  hang_page : (j : ℕ) → hang t0 i0 p tables p j ≡ blank
  unfolding hang
  hang_page j =
      write_page cleared t0 i0 (entry p no_perm) p j (λ x. apart (sym x))
      ∙ ap (λ f. f j) (update_eq tables p p (λ _. blank) refl)

  pub hang_self : hang t0 i0 p tables t0 i0 ≡ record { valid = true; perm = no_perm; pa = p }
  unfolding hang
  hang_self =
      write_self cleared t0 i0 (entry p no_perm) t0 i0 refl refl
      ∙ ap (λ a. record { valid = true; perm = no_perm; pa = a }) aligned

  hang_index : (j : ℕ) → i0 ≢ j → hang t0 i0 p tables t0 j ≡ tables t0 j
  unfolding hang
  hang_index j n =
      write_index cleared t0 i0 (entry p no_perm) t0 j n
      ∙ ap (λ f. f j) (update_other tables p t0 (λ _. blank) apart)

  hang_other : (q j : ℕ) → t0 ≢ q → p ≢ q → hang t0 i0 p tables q j ≡ tables q j
  unfolding hang
  hang_other q j n m =
      write_page cleared t0 i0 (entry p no_perm) q j n
      ∙ ap (λ f. f j) (update_other tables p q (λ _. blank) m)

  view-blank : (l va : ℕ) → view (hang t0 i0 p tables) l p va ≡ blank
  view-blank zero va = hang_page (px zero va)
  view-blank (suc l) va = rw (hang_page (px (suc l) va)) refl

  -- A table has an entry more, or the entries it had.
  pub hang_cases :
      (l q j : ℕ) → depth q ≡ suc l → ((t0 ≡ q) × (i0 ≡ j)) ⊎ (hang t0 i0 p tables q j ≡ tables q j)
  hang_cases l q j h = elim (ℕ_discrete t0 q) [
    | yes x ↦ elim (ℕ_discrete i0 j) [
      | yes y ↦ inl (x, y)
      | no y ↦ inr (subst (λ r. hang t0 i0 p tables r j ≡ tables r j) x (hang_index j y))
    ]
    | no x ↦ inr (hang_other q j x (λ y. let z = ap depth y in omega arith))
  ]

  pub view-hang :
      (l t va : ℕ) → depth t ≡ suc l → view (hang t0 i0 p tables) l t va ≡ view tables l t va
  view-hang zero t va h = elim (hang_cases zero t (px zero va) h) [
    | inl x ↦ absurd (let y = ap depth x.0 in omega arith)
    | inr x ↦ x
  ]
  view-hang (suc l) t va h = elim (hang_cases (suc l) t (px (suc l) va) h) [
    | inl (x, y) ↦
        let w = hang_self in
        let w' =
          subst
            (λ q.
              hang t0 i0 p tables q (px (suc l) va)
              ≡ record { valid = true; perm = no_perm; pa = p })
            x
            (subst (λ j. hang t0 i0 p tables t0 j ≡ record { valid = true; perm = no_perm; pa = p })
              y w) in
        let a =
          subst (λ q. (tables q (px (suc l) va)).valid ≡ false) x
            (subst (λ j. (tables t0 j).valid ≡ false) y absent) in
        rw (w', a) (view-blank l va)
    | inr x ↦ elim (Bool-cases (tables t (px (suc l) va)).valid) [
      | inl b ↦
          rw (x, b) (view-hang l (tables t (px (suc l) va)).pa va (s.below l t (px (suc l) va) h b))
      | inr b ↦ rw (x, b) refl
    ]
  ]

  pub grown_self : grown p ≡ suc k
  grown_self = update_eq depth p p (suc k) refl

  pub grown_other : (q : ℕ) → p ≢ q → grown q ≡ depth q
  grown_other q n = update_other depth p q (suc k) n

  -- In the grown tree a valid entry is the new one, or one that was there.
  valid_cases :
      (l q j : ℕ)
      → grown q ≡ suc (suc l)
      → (hang t0 i0 p tables q j).valid ≡ true
      → ((t0 ≡ q) × (i0 ≡ j) × ((hang t0 i0 p tables q j).pa ≡ p) × (l ≡ k))
        ⊎ ((depth q ≡ suc (suc l))
            × ((tables q j).valid ≡ true)
            × (hang t0 i0 p tables q j ≡ tables q j))
  valid_cases l q j h v = elim (ℕ_discrete p q) [
    | yes x ↦
        let w = subst (λ r. hang t0 i0 p tables r j ≡ blank) x (hang_page j) in
        let v' = rw w at v in cc
    | no x ↦
        let d = sym (grown_other q x) ∙ h in
        elim (hang_cases (suc l) q j d) [
          | inl (a, b) ↦
              let w =
                subst (λ r. (hang t0 i0 p tables r j).pa ≡ p) a
                  (subst (λ r. (hang t0 i0 p tables t0 r).pa ≡ p) b (ap (λ z. z.pa) hang_self)) in
              let e = ap depth a in inl (a, b, w, omega arith)
          | inr w ↦ inr (d, rw w at v, w)
        ]
  ]

  old_child : (l q j : ℕ) → depth q ≡ suc (suc l) → (tables q j).valid ≡ true → (tables q j).pa ≢ p
  old_child l q j h v x = let c = s.below l q j h v in let y = ap depth x in omega arith

  pub Shape-hang : Shape grown (hang t0 i0 p tables)
  Shape-hang = record {
    below = λ l q j h v. elim (valid_cases l q j h v) [
      | inl (a, b, w, e) ↦ ap grown w ∙ (grown_self ∙ ap suc (sym e))
      | inr (d, u, w) ↦
          ap (λ z. grown z.pa) w
          ∙ (grown_other (tables q j).pa (λ x. old_child l q j d u (sym x)) ∙ s.below l q j d u)
    ];
    once = λ l q r j m h g v u e. elim (valid_cases l q j h v) [
      | inl (a, b, w, x) ↦ elim (valid_cases l r m g u) [
        | inl (a', b', w', x') ↦ (sym a ∙ a', sym b ∙ b')
        | inr (d', u', w') ↦ absurd (old_child l r m d' u' (sym (ap (λ z. z.pa) w') ∙ (sym e ∙ w)))
      ]
      | inr (d, y, w) ↦ elim (valid_cases l r m g u) [
        | inl (a', b', w', x') ↦ absurd (old_child l q j d y (sym (ap (λ z. z.pa) w) ∙ (e ∙ w')))
        | inr (d', u', w') ↦
            s.once l q r j m d d' y u' (sym (ap (λ z. z.pa) w) ∙ (e ∙ ap (λ z. z.pa) w'))
      ]
    ];
  }
