-- ===== src/Fs/Bitmap.antt =====
-- kernel/fs.c: the bitmap says which blocks are in use.
use lab_so.Prelude.{
  ℕ, zero, suc, ◌+◌, ◌-◌, ◌/◌, ◌%◌, ◌≤◌, ◌<◌, ◌≡◌, ◌≢◌, refl, sym, ap, ◌∙◌, ◌⊎◌, inl, inr, Option,
  none, some, ◌==◌, update, update_eq, update_other, Bool-cases, ℕ_discrete, arith,
}
use lab_so.Fs.Bits.{mask, bit, bit-set_self, bit-clear_self, bit-set_other, bit-clear_other}
use lab_so.Fs.Defs.{
  bpb, Superblock, Blocks, put, bblock, block_bit, mark, unmark, bzero, balloc_from, balloc, bfree,
}

pub put_self : (p i v : ℕ) (d : Blocks) (q j : ℕ) → p ≡ q → i ≡ j → put p i v d q j ≡ v
put_self p i v d q j a b = rw (update_eq d p q (update (d p) i v) a, update_eq (d p) i j v b) refl

pub put_block : (p i v : ℕ) (d : Blocks) (q j : ℕ) → p ≢ q → put p i v d q j ≡ d q j
put_block p i v d q j a = rw (update_other d p q (update (d p) i v) a) refl

pub put_other : (p i v : ℕ) (d : Blocks) (q j : ℕ) → i ≢ j → put p i v d q j ≡ d q j
put_other p i v d q j b = elim (ℕ_discrete p q) [
  | yes a ↦
      rw (update_eq d p q (update (d p) i v) a, update_other (d p) i j v b) (ap (λ k. d k j) a)
  | no a ↦ put_block p i v d q j a
]

-- Two block numbers with the same block, byte and bit of the bitmap are one.
place-inj :
    (s b c : ℕ)
    → b / bpb + s ≡ c / bpb + s
    → b % bpb / 8 ≡ c % bpb / 8
    → b % bpb % 8 ≡ c % bpb % 8
    → b ≡ c
place-inj s b c e f g = omega arith

bit_small : (k b : ℕ) → (bit k b ≡ 0) ⊎ (bit k b ≡ 1)
bit_small k b = omega arith

module _ (sb : Superblock) where
  -- A byte written for `b` that has another bit `b` and the same other bits.
  block_bit-put :
      (b c v : ℕ) (d : Blocks)
      → b ≢ c
      → ((j : ℕ) → j < 8 → b % bpb % 8 ≢ j → bit j v ≡ bit j (d (bblock sb b) (b % bpb / 8)))
      → block_bit sb c (put (bblock sb b) (b % bpb / 8) v d) ≡ block_bit sb c d
  block_bit-put b c v d n h = elim (ℕ_discrete (bblock sb b) (bblock sb c)) [
    | no x ↦
        ap (bit (c % bpb % 8))
          (put_block (bblock sb b) (b % bpb / 8) v d (bblock sb c) (c % bpb / 8) x)
    | yes x ↦ elim (ℕ_discrete (b % bpb / 8) (c % bpb / 8)) [
      | no y ↦
          ap (bit (c % bpb % 8))
            (put_other (bblock sb b) (b % bpb / 8) v d (bblock sb c) (c % bpb / 8) y)
      | yes y ↦
          let k : b % bpb % 8 ≢ c % bpb % 8 = λ z. n (place-inj sb.bmapstart b c x y z) in
          ap (bit (c % bpb % 8))
            (put_self (bblock sb b) (b % bpb / 8) v d (bblock sb c) (c % bpb / 8) x y)
          ∙ h (c % bpb % 8) (omega arith) k
          ∙ ap (λ z. bit (c % bpb % 8) (d z (b % bpb / 8))) x
          ∙ ap (λ z. bit (c % bpb % 8) (d (bblock sb c) z)) y
    ]
  ]

  mark_self : (b : ℕ) (d : Blocks) → block_bit sb b d ≡ 0 → block_bit sb b (mark sb b d) ≡ 1
  unfolding mark
  mark_self b d e =
      ap (bit (b % bpb % 8)) (
        put_self (bblock sb b) (b % bpb / 8) (d (bblock sb b) (b % bpb / 8) + mask (b % bpb % 8)) d
          (bblock sb b) (b % bpb / 8) refl refl)
      ∙ bit-set_self (b % bpb % 8) (d (bblock sb b) (b % bpb / 8)) (omega arith) e

  mark_other :
      (b c : ℕ) (d : Blocks)
      → b ≢ c
      → block_bit sb b d ≡ 0
      → block_bit sb c (mark sb b d) ≡ block_bit sb c d
  unfolding mark
  mark_other b c d n e =
      block_bit-put b c (d (bblock sb b) (b % bpb / 8) + mask (b % bpb % 8)) d n
        (λ j h k. bit-set_other (b % bpb % 8) j (d (bblock sb b) (b % bpb / 8)) (omega arith) h e k)

  unmark_self : (b : ℕ) (d : Blocks) → block_bit sb b d ≡ 1 → block_bit sb b (unmark sb b d) ≡ 0
  unfolding unmark
  unmark_self b d e =
      ap (bit (b % bpb % 8)) (
        put_self (bblock sb b) (b % bpb / 8) (d (bblock sb b) (b % bpb / 8) - mask (b % bpb % 8)) d
          (bblock sb b) (b % bpb / 8) refl refl)
      ∙ bit-clear_self (b % bpb % 8) (d (bblock sb b) (b % bpb / 8)) (omega arith) e

  unmark_other :
      (b c : ℕ) (d : Blocks)
      → b ≢ c
      → block_bit sb b d ≡ 1
      → block_bit sb c (unmark sb b d) ≡ block_bit sb c d
  unfolding unmark
  unmark_other b c d n e =
      block_bit-put b c (d (bblock sb b) (b % bpb / 8) - mask (b % bpb % 8)) d n (λ j h k.
        bit-clear_other (b % bpb % 8) j (d (bblock sb b) (b % bpb / 8)) (omega arith) h e k)

  -- The blocks of the bitmap are in use themselves, so balloc gives out none.
  abbrev pub MapUsed : Blocks → Type 0
  MapUsed d = (c : ℕ) → c < sb.size → (bblock sb c < sb.size) × (block_bit sb (bblock sb c) d ≡ 1)

  -- The block `a`, which was free, is in use and has zeros; nothing else has changed.
  pub record Given (a : ℕ) (d d' : Blocks) : Type 0 where
    pub was_free : block_bit sb a d ≡ 0
    pub in_use : block_bit sb a d' ≡ 1
    pub others : (c : ℕ) → a ≢ c → c < sb.size → block_bit sb c d' ≡ block_bit sb c d
    pub zeros : (i : ℕ) → d' a i ≡ 0
    pub blocks : (p i : ℕ) → a ≢ p → bblock sb a ≢ p → d' p i ≡ d p i

  pub MapUsed-Given : (a : ℕ) (d d' : Blocks) → Given a d d' → MapUsed d → MapUsed d'
  MapUsed-Given a d d' g u c h = elim (ℕ_discrete a (bblock sb c)) [
    | yes x ↦ ((u c h).0, ap (λ q. block_bit sb q d') (sym x) ∙ g.in_use)
    | no x ↦ ((u c h).0, g.others (bblock sb c) x (u c h).0 ∙ (u c h).1)
  ]

  give :
      (a : ℕ) (d : Blocks)
      → a < sb.size
      → MapUsed d
      → block_bit sb a d ≡ 0
      → Given a d (bzero sb a (mark sb a d))
  unfolding bzero mark
  give a d h u z = record {
    was_free = z;
    in_use = zeroed a h ∙ mark_self a d z;
    others = λ c n k. zeroed c k ∙ mark_other a c d n z;
    zeros = λ i. ap (λ f. f i) (update_eq (mark sb a d) a a (λ _. 0) refl);
    blocks =
        λ p i n m. ap (λ f. f i) (update_other (mark sb a d) a p (λ _. 0) n) ∙ other_block p i m;
  }
    where
      zeroed :
          (c : ℕ)
          → c < sb.size
          → block_bit sb c (update (mark sb a d) a (λ _. 0)) ≡ block_bit sb c (mark sb a d)
      zeroed c k =
          let n : a ≢ bblock sb c =
            λ e. (let y = (u c k).1 in let w = ap (λ q. block_bit sb q d) e in omega arith) in
          ap (λ f. bit (c % bpb % 8) (f (c % bpb / 8)))
            (update_other (mark sb a d) a (bblock sb c) (λ _. 0) n)

      other_block : (p i : ℕ) → bblock sb a ≢ p → mark sb a d p i ≡ d p i
      other_block p i m =
          put_block (bblock sb a) (a % bpb / 8) (d (bblock sb a) (a % bpb / 8) + mask (a % bpb % 8))
            d p i m

  -- What balloc does, from block `b` on with `n` left.
  abbrev pub Allocated : ℕ → ℕ → Blocks → ℕ × Blocks → Type 0
  Allocated b n d (a, d') =
      ((a ≡ 0) × (d' ≡ d) × ((c : ℕ) → b ≤ c → c < b + n → block_bit sb c d ≡ 1))
      ⊎ ((b ≤ a) × (a < b + n) × ((c : ℕ) → b ≤ c → c < a → block_bit sb c d ≡ 1) × Given a d d')

  balloc_from_lem :
      (n b : ℕ) (d : Blocks) → b + n ≡ sb.size → MapUsed d → Allocated b n d (balloc_from sb n b d)
  unfolding balloc_from bzero mark
  balloc_from_lem zero b d e u = inl (refl, refl, λ c h k. absurd (omega arith))
  balloc_from_lem (suc n) b d e u = elim (Bool-cases (block_bit sb b d == 0)) [
    | inl f ↦
        let z : block_bit sb b d ≡ 0 = ground arith in
        rw f (
          inr
            (omega arith, omega arith, (λ c h k. absurd (omega arith)), give b d (omega arith) u z))
    | inr f ↦
        let z : block_bit sb b d ≡ 1 =
          (let w = bit_small (b % bpb % 8) (d (bblock sb b) (b % bpb / 8)) in ground arith) in
        rw f (later (balloc_from sb n (b + 1) d) (balloc_from_lem n (b + 1) d (omega arith) u) z)
  ]
    where
      first :
          (c : ℕ)
          → b ≤ c
          → c < b + suc n
          → block_bit sb b d ≡ 1
          → (b + 1 ≤ c → c < b + 1 + n → block_bit sb c d ≡ 1)
          → block_bit sb c d ≡ 1
      first c h k z f = elim (ℕ_discrete b c) [
        | yes x ↦ ap (λ q. block_bit sb q d) (sym x) ∙ z
        | no x ↦ f (omega arith) (omega arith)
      ]

      first' :
          (c a : ℕ)
          → b ≤ c
          → c < a
          → block_bit sb b d ≡ 1
          → (b + 1 ≤ c → block_bit sb c d ≡ 1)
          → block_bit sb c d ≡ 1
      first' c a h k z f = elim (ℕ_discrete b c) [
        | yes x ↦ ap (λ q. block_bit sb q d) (sym x) ∙ z
        | no x ↦ f (omega arith)
      ]

      later :
          (r : ℕ × Blocks)
          → Allocated (b + 1) n d r
          → block_bit sb b d ≡ 1
          → Allocated b (suc n) d r
      later (a, d') (inl (x, y, w)) z = inl (x, y, λ c h k. first c h k z (λ i j. w c i j))
      later (a, d') (inr (l, h, w, g)) z =
          inr (omega arith, omega arith, (λ c i k. first' c a i k z (λ j. w c j k)), g)

  -- balloc, where the blocks of the bitmap are marked as used: it gives out the first free block, marks it
  -- and fills it with zeros, and changes no other bit below `size` nor another block but that of the
  -- bitmap; it returns 0 and changes nothing if every block is in use.
  pub balloc_lem : (d : Blocks) → MapUsed d → Allocated 0 sb.size d (balloc sb d)
  unfolding balloc
  balloc_lem d u = balloc_from_lem sb.size 0 d (omega arith) u

  -- What bfree of block `b` does.
  abbrev pub Freed : ℕ → Blocks → Option Blocks → Type 0
  Freed b d none = block_bit sb b d ≡ 0
  Freed b d (some d') =
      (block_bit sb b d ≡ 1)
      × (block_bit sb b d' ≡ 0)
      × ((c : ℕ) → b ≢ c → block_bit sb c d' ≡ block_bit sb c d)

  -- bfree panics exactly at a block that is free; else it frees the block, and changes no other bit.
  pub bfree_lem : (b : ℕ) (d : Blocks) → Freed b d (bfree sb b d)
  unfolding bfree
  bfree_lem b d = elim (Bool-cases (block_bit sb b d == 0)) [
    | inl f ↦ rw f (ground arith)
    | inr f ↦
        let z : block_bit sb b d ≡ 1 =
          (let w = bit_small (b % bpb % 8) (d (bblock sb b) (b % bpb / 8)) in ground arith) in
        rw f (z, unmark_self b d z, λ c n. unmark_other b c d n z)
  ]
