-- ===== src/Semaphore/Table.antt =====
-- kernel/semaphore.c: what each operation does to the table, on every branch.
use lab_so.Prelude.{
  ℕ, zero, suc, ◌+◌, ◌≤◌, ◌<◌, ◌≡◌, refl, ◌≢◌, ◌⊎◌, inl, inr, some, get_elem?, set, arith,
  Option-cases, Bool-cases, ℕ_discrete,
}
use lab_so.Prelude.Int.{ℤ, pos, negsuc, ◌+ℤ◌, ◌-ℤ◌, ◌==ℤ◌}
use lab_so.Semaphore.Defs.{
  Semaphore, Table, closed, sem_count, sem_open, get_sem_from, get_sem, sem_close, sem_up, returns,
  sleeps, sem_down, sem_down_wakes,
}

module _ (i : ℕ) (t : Table) where
  abbrev At : Semaphore → Type 0
  At s = get_elem? t i ≡ some s

  pub sem_open-cases :
      (v : ℤ)
      → (sem_open (pos i) v t ≡ (pos 0, t))
        ⊎ ((s : Semaphore) × At s
            × (s.count ≡ closed)
            × (sem_open (pos i) v t ≡ (pos 1, set t i (record { count = v; bound = v }))))
  unfolding sem_open
  sem_open-cases v = elim (Option-cases (get_elem? t i)) [
    | inl e ↦ inl (ground (arith, e))
    | inr (s, e) ↦ elim (Bool-cases (s.count ==ℤ closed)) [
      | inl c ↦ inr (s, e, ground arith, ground (arith, e))
      | inr c ↦ inl (ground (arith, e))
    ]
  ]

  pub sem_close-cases :
      (sem_close (pos i) t ≡ (pos 0, t))
      ⊎ ((s : Semaphore) × At s
          × (s.count ≢ closed)
          × (sem_close (pos i) t ≡ (pos 1, set t i (record s { count = closed }))))
  unfolding sem_close
  sem_close-cases = elim (Option-cases (get_elem? t i)) [
    | inl e ↦ inl (ground (arith, e))
    | inr (s, e) ↦ elim (Bool-cases (s.count ==ℤ closed)) [
      | inl c ↦ inl (ground (arith, e))
      | inr c ↦ inr (s, e, ground arith, ground (arith, e))
    ]
  ]

  pub sem_up-cases :
      (sem_up (pos i) t ≡ (pos 0, t))
      ⊎ ((s : Semaphore) × At s
          × (s.count ≢ closed)
          × (s.count ≢ s.bound)
          × (sem_up (pos i) t ≡ (pos 1, set t i (record s { count = s.count +ℤ pos 1 }))))
  unfolding sem_up
  sem_up-cases = elim (Option-cases (get_elem? t i)) [
    | inl e ↦ inl (ground (arith, e))
    | inr (s, e) ↦ elim (Bool-cases (s.count ==ℤ closed)) [
      | inl c ↦ inl (ground (arith, e))
      | inr c ↦ elim (Bool-cases (s.count ==ℤ s.bound)) [
        | inl d ↦ inl (ground (arith, e))
        | inr d ↦ inr (s, e, ground arith, ground arith, ground (arith, e))
      ]
    ]
  ]

  pub sem_down_wakes-cases :
      (s : Semaphore)
      → At s
      → ((s.count ≡ pos 0) × (sem_down_wakes (pos i) t ≡ (sleeps, t)))
        ⊎ ((s.count ≢ pos 0)
            × (sem_down_wakes (pos i) t
                ≡ (returns (pos 1), set t i (record s { count = s.count -ℤ pos 1 }))))
  unfolding sem_down_wakes
  sem_down_wakes-cases s e = elim (Bool-cases (s.count ==ℤ pos 0)) [
    | inl c ↦ inl (ground arith, ground (arith, e))
    | inr c ↦ inr (ground arith, ground (arith, e))
  ]

  -- A call of sem_down fails at once, or is its loop on an open semaphore.
  pub sem_down-cases :
      (sem_down (pos i) t ≡ (returns (pos 0), t))
      ⊎ ((s : Semaphore) × At s
          × (s.count ≢ closed)
          × (sem_down (pos i) t ≡ sem_down_wakes (pos i) t))
  unfolding sem_down sem_down_wakes
  sem_down-cases = elim (Option-cases (get_elem? t i)) [
    | inl e ↦ inl (ground (arith, e))
    | inr (s, e) ↦ elim (Bool-cases (s.count ==ℤ closed)) [
      | inl c ↦ inl (ground (arith, e))
      | inr c ↦ inr (s, e, ground arith, ground (arith, e))
    ]
  ]

-- The index `k` of the first entry from `index` on that is not open, `n` at most.
pub record FirstClosed (t : Table) (index n k : ℕ) : Type 0 where
  pub from : index ≤ k
  pub below : k < index + n
  pub free : (s : Semaphore) × (get_elem? t k ≡ some s) × (s.count ≡ closed)
  pub earlier :
      (j : ℕ) (s : Semaphore) → index ≤ j → j < k → get_elem? t j ≡ some s → s.count ≢ closed

sem_open-refused :
    (i : ℕ) (v : ℤ) (t : Table) (s : Semaphore)
    → sem_open (pos i) v t ≡ (pos 0, t)
    → get_elem? t i ≡ some s
    → s.count ≢ closed
unfolding sem_open
sem_open-refused i v t s e a = λ c. ground (arith, a, c)

-- No entry from `index` on, `n` at most, is free.
abbrev pub AllOpen : Table → ℕ → ℕ → Type 0
AllOpen t index n =
    (j : ℕ) (s : Semaphore) → index ≤ j → j < index + n → get_elem? t j ≡ some s → s.count ≢ closed

abbrev pub Taken : Table → ℕ → ℕ → ℤ → ℤ × Table → Type 0
Taken t index n v r =
    (k : ℕ) × FirstClosed t index n k × (r ≡ (pos k, set t k (record { count = v; bound = v })))

get_sem_from_lem :
    (n index : ℕ) (v : ℤ) (t : Table)
    → ((get_sem_from n index v t ≡ (negsuc 0, t)) × AllOpen t index n)
      ⊎ Taken t index n v (get_sem_from n index v t)
unfolding get_sem_from
get_sem_from_lem zero index v t = inl (refl, λ j s a b e. absurd (omega arith))
get_sem_from_lem (suc n) index v t = elim (sem_open-cases index t v) [
  | inr (s, a, c, e) ↦ inr (
    index,
    record {
      from = omega arith;
      below = omega arith;
      free = (s, a, c);
      earlier = λ j s' p q e'. absurd (omega arith);
    },
    ground (arith, e),
  )
  | inl e ↦
      let here : (s : Semaphore) → get_elem? t index ≡ some s → s.count ≢ closed =
        λ s a. sem_open-refused index v t s e a in
      elim (get_sem_from_lem n (index + 1) v t) [
        | inl (r, open_after) ↦ inl (
          ground (arith, e, r),
          λ j s p q a. elim (ℕ_discrete index j) [
            | yes same ↦ here s (rw same a)
            | no other ↦ open_after j s (omega arith) (omega arith) a
          ],
        )
        | inr (k, first, r) ↦ inr (
          k,
          record {
            from = omega (arith, first.from);
            below = omega (arith, first.below);
            free = first.free;
            earlier = λ j s p q a. elim (ℕ_discrete index j) [
              | yes same ↦ here s (rw same a)
              | no other ↦ first.earlier j s (omega arith) q a
            ];
          },
          ground (arith, e, r),
        )
      ]
]

-- get_sem stops within its 256 rounds. Either every semaphore of the table is open, and it returns -1
-- and changes nothing, or it returns the first index whose semaphore is not open and gives that one
-- the requested count and bound, and no other changes.
pub get_sem_lem :
    (v : ℤ) (t : Table)
    → ((get_sem v t ≡ (negsuc 0, t)) × AllOpen t 0 sem_count) ⊎ Taken t 0 sem_count v (get_sem v t)
unfolding get_sem
get_sem_lem v t = get_sem_from_lem sem_count 0 v t
