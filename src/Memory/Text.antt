-- ===== src/Memory/Text.antt =====
-- kernel/string.c: safestrcpy leaves a string that ends within its bound.
use lab_so.Prelude.{
  ℕ, zero, suc, ◌+◌, ◌≤◌, ◌<◌, ◌≡◌, ◌≢◌, ◌⊎◌, inl, inr, refl, sym, ◌∙◌, ap, ◌==◌, update, update_eq,
  update_other, Bool-cases, arith,
}
use lab_so.Memory.Defs.{Mem, safestrcpy_from, safestrcpy}

-- In `m'` stand at `s` the first `k` bytes of the string at `t` in `m`, and a NUL. They are the whole
-- string, or `n` bytes of it. Nothing has changed but the first `n + 1` bytes from `s`.
pub record Copied (s t n : ℕ) (m m' : Mem) (k : ℕ) : Type 0 where
  pub fits : k ≤ n
  pub same : (i : ℕ) → i < k → m' (s + i) ≡ m (t + i)
  pub text : (i : ℕ) → i < k → m (t + i) ≢ 0
  pub ended : m' (s + k) ≡ 0
  pub whole : (k ≡ n) ⊎ (m (t + k) ≡ 0)
  pub frame : (a : ℕ) → (a < s) ⊎ (s + n < a) → m' a ≡ m a

module _ (s t n : ℕ) (m : Mem) (apart : (t + suc n < s) ⊎ (s + suc n < t)) where
  -- The source string is not written.
  source : (i : ℕ) → i ≤ suc n → update m s (m t) (t + i) ≡ m (t + i)
  source i h = update_other m s (t + i) (m t) (omega arith)

  -- The NUL is copied, and another one put behind it.
  Copied-end : m t ≡ 0 → Copied s t (suc n) m (update (update m s (m t)) (s + 1) 0) 0
  Copied-end z = record {
    fits = omega arith;
    same = λ i k. absurd (omega arith);
    text = λ i k. absurd (omega arith);
    ended =
        update_other (update m s (m t)) (s + 1) (s + 0) 0 (omega arith)
        ∙ (update_eq m s (s + 0) (m t) (omega arith) ∙ z);
    whole = inr (ap m (t0 t) ∙ z);
    frame = λ a o.
        update_other (update m s (m t)) (s + 1) a 0 (omega arith)
        ∙ update_other m s a (m t) (omega arith);
  }
    where
      t0 : (x : ℕ) → x + 0 ≡ x
      t0 x = omega arith

  Copied-next :
      (m' : Mem) (k : ℕ)
      → m t ≢ 0
      → Copied (s + 1) (t + 1) n (update m s (m t)) m' k
      → Copied s t (suc n) m m' (suc k)
  Copied-next m' k z c = record {
    fits = let f = c.fits in omega arith;
    same = same;
    text = text;
    ended = ap m' (shift s k) ∙ c.ended;
    whole = elim c.whole [
      | inl e ↦ inl (ap suc e)
      | inr e ↦ inr (
          sym (let f = c.fits in source (suc k) (omega arith))
          ∙ (ap (update m s (m t)) (shift t k) ∙ e))
    ];
    frame = λ a o. c.frame a (omega arith) ∙ update_other m s a (m t) (omega arith);
  }
    where
      shift : (x i : ℕ) → x + suc i ≡ x + 1 + i
      shift x i = omega arith

      same : (i : ℕ) → i < suc k → m' (s + i) ≡ m (t + i)
      same zero h =
          c.frame (s + 0) (omega arith)
          ∙ update_eq m s (s + 0) (m t) (omega arith)
          ∙ ap m (zero_add t)
        where
          zero_add : (x : ℕ) → x ≡ x + 0
          zero_add x = omega arith
      same (suc i) h =
          ap m' (shift s i)
          ∙ c.same i (omega arith)
          ∙ ap (update m s (m t)) (sym (shift t i))
          ∙ source (suc i) (let f = c.fits in omega arith)

      text : (i : ℕ) → i < suc k → m (t + i) ≢ 0
      text zero h e = z (ap m (zero_add t) ∙ e)
        where
          zero_add : (x : ℕ) → x ≡ x + 0
          zero_add x = omega arith
      text (suc i) h e = c.text i (omega arith) (
          ap (update m s (m t)) (sym (shift t i))
          ∙ (source (suc i) (let f = c.fits in omega arith) ∙ e))

copy_lem :
    (s t n : ℕ) (m : Mem)
    → (t + n < s) ⊎ (s + n < t)
    → (k : ℕ) × Copied s t n m (safestrcpy_from s t n m) k
unfolding safestrcpy_from
copy_lem s t zero m h = (
  0,
  record {
    fits = omega arith;
    same = λ i k. absurd (omega arith);
    text = λ i k. absurd (omega arith);
    ended = update_eq m s (s + 0) 0 (omega arith);
    whole = inl refl;
    frame = λ a o. update_other m s a 0 (omega arith);
  },
)
copy_lem s t (suc n) m h = elim (Bool-cases (m t == 0)) [
  | inl b ↦ rw b (0, Copied-end s t n m h (ground arith))
  | inr b ↦
      let (k, c) = copy_lem (s + 1) (t + 1) n (update m s (m t)) (omega arith) in
      rw b (
        suc k,
        Copied-next s t n m h (safestrcpy_from (s + 1) (t + 1) n (update m s (m t))) k
            (ground arith) c,
      )
]

-- safestrcpy with room for `n + 1` bytes, where the ranges do not overlap: the destination holds a string
-- that ends within its room, the whole source if it fits and its first `n` bytes otherwise, and no byte
-- outside the room changes.
pub safestrcpy_lem :
    (s t n : ℕ) (m : Mem)
    → (t + n < s) ⊎ (s + n < t)
    → (k : ℕ) × Copied s t n m (safestrcpy s t (suc n) m) k
unfolding safestrcpy
safestrcpy_lem s t n m h = copy_lem s t n m h
