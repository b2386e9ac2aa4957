-- ===== src/Memory/Copy.antt =====
-- kernel/string.c: memmove copies a range whole, also where it overlaps itself.
use lab_so.Prelude.{
  ℕ, zero, suc, ◌+◌, ◌-◌, ◌≤◌, ◌<◌, ◌≡◌, ◌⊎◌, inl, inr, false, ◌&&◌, ◌==◌, if◌then◌else◌, ltb, leb,
  update, Bool-cases, ℕ_discrete, update_eq, update_other, sym, ◌∙◌, ap, ◌≢◌, arith,
}
use lab_so.Memory.Defs.{Mem, copy_up, copy_down, memmove}

-- The byte at `a` once `n` bytes from `src` stand at `dst`.
abbrev pub moved : ℕ → ℕ → ℕ → Mem → Mem
moved dst src n m a = if leb dst a && ltb a (dst + n) then m (src + (a - dst)) else m a

pub inside : (d s n : ℕ) (m : Mem) (a : ℕ) → d ≤ a → a < d + n → moved d s n m a ≡ m (s + (a - d))
inside d s n m a h k = ground arith

pub outside : (d s n : ℕ) (m : Mem) (a : ℕ) → (a < d) ⊎ (d + n ≤ a) → moved d s n m a ≡ m a
outside d s n m a h = ground arith

-- Where an address is against a range that begins at `d`, with `n` bytes.
where_at : (d n a : ℕ) → ((a < d) ⊎ (d + n ≤ a)) ⊎ ((d ≤ a) × (a < d + n))
where_at d n a = elim (Bool-cases (ltb a d)) [
  | inl b ↦ inl (inl (ground arith))
  | inr b ↦ elim (Bool-cases (ltb a (d + n))) [
    | inl c ↦ inr (ground arith, ground arith)
    | inr c ↦ inl (inr (ground arith))
  ]
]

first_up :
    (d s n : ℕ) (m : Mem) (a : ℕ)
    → (d ≤ s) ⊎ (s + suc n ≤ d)
    → moved (d + 1) (s + 1) n (update m d (m s)) a ≡ moved d s (suc n) m a
first_up d s n m a h = elim (ℕ_discrete d a) [
  | yes e ↦
      let x = outside (d + 1) (s + 1) n (update m d (m s)) a (inl (omega arith)) in
      let y = inside d s (suc n) m a (omega arith) (omega arith) in
      let z : s + (a - d) ≡ s = omega arith in x ∙ update_eq m d a (m s) e ∙ sym (y ∙ ap m z)
  | no k ↦ elim (where_at (d + 1) n a) [
    | inl o ↦
        let x = outside (d + 1) (s + 1) n (update m d (m s)) a o in
        let y = outside d s (suc n) m a (omega arith) in x ∙ update_other m d a (m s) k ∙ sym y
    | inr o ↦
        let x = inside (d + 1) (s + 1) n (update m d (m s)) a o.0 o.1 in
        let y = inside d s (suc n) m a (omega arith) (omega arith) in
        let z : s + 1 + (a - (d + 1)) ≡ s + (a - d) = omega arith in
        let w : d ≢ s + 1 + (a - (d + 1)) = omega arith in
        x ∙ update_other m d (s + 1 + (a - (d + 1))) (m s) w ∙ ap m z ∙ sym y
  ]
]

first_down :
    (d s n : ℕ) (m : Mem) (a : ℕ)
    → s ≤ d
    → moved d s n (update m (d + n) (m (s + n))) a ≡ moved d s (suc n) m a
first_down d s n m a h = elim (where_at d n a) [
  | inr o ↦
      let x = inside d s n (update m (d + n) (m (s + n))) a o.0 o.1 in
      let y = inside d s (suc n) m a o.0 (omega arith) in
      let w : d + n ≢ s + (a - d) = omega arith in
      x ∙ update_other m (d + n) (s + (a - d)) (m (s + n)) w ∙ sym y
  | inl o ↦
      let x = outside d s n (update m (d + n) (m (s + n))) a o in
      elim (ℕ_discrete (d + n) a) [
        | yes e ↦
            let y = inside d s (suc n) m a (omega arith) (omega arith) in
            let z : s + (a - d) ≡ s + n = omega arith in
            x ∙ update_eq m (d + n) a (m (s + n)) e ∙ sym (y ∙ ap m z)
        | no k ↦
            let y = outside d s (suc n) m a (omega arith) in
            x ∙ update_other m (d + n) a (m (s + n)) k ∙ sym y
      ]
]

copy_up_lem :
    (d s n : ℕ) (m : Mem) → (d ≤ s) ⊎ (s + n ≤ d) → (a : ℕ) → copy_up d s n m a ≡ moved d s n m a
unfolding copy_up
copy_up_lem d s zero m h a = sym (outside d s zero m a (omega arith))
copy_up_lem d s (suc n) m h a =
    copy_up_lem (d + 1) (s + 1) n (update m d (m s)) (omega arith) a ∙ first_up d s n m a h

copy_down_lem : (d s n : ℕ) (m : Mem) → s ≤ d → (a : ℕ) → copy_down d s n m a ≡ moved d s n m a
unfolding copy_down
copy_down_lem d s zero m h a = sym (outside d s zero m a (omega arith))
copy_down_lem d s (suc n) m h a =
    copy_down_lem d s n (update m (d + n) (m (s + n))) h a ∙ first_down d s n m a h

-- memmove, whether the ranges overlap or not: each byte of the destination is the byte that stood at its
-- place in the source before the call, and every other byte of memory is as it was.
pub memmove_lem : (dst src n : ℕ) (m : Mem) (a : ℕ) → memmove dst src n m a ≡ moved dst src n m a
unfolding memmove
memmove_lem dst src zero m a = sym (outside dst src zero m a (omega arith))
memmove_lem dst src (suc n) m a = elim (Bool-cases (ltb src dst && ltb dst (src + suc n))) [
  | inl b ↦
      let z : (suc n == 0) ≡ false = ground arith in
      rw (z, b) (copy_down_lem dst src (suc n) m (ground arith) a)
  | inr b ↦
      let z : (suc n == 0) ≡ false = ground arith in
      rw (z, b) (copy_up_lem dst src (suc n) m (ground arith) a)
]
