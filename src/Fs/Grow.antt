-- ===== src/Fs/Grow.antt =====
-- kernel/fs.c: a file that is given a block stays well formed, and its bytes stay the same.
use lab_so.Prelude.{
  ℕ, ◌*◌, ◌/◌, ◌%◌, ◌^◌, ◌≤◌, ◌<◌, ◌≡◌, ◌≢◌, refl, sym, ap, subst, ◌∙◌, ◌⊎◌, inl, inr, true, false,
  ◌==◌, Bool-cases, ℕ_discrete, arith,
}
use lab_so.Fs.Defs.{bsize, Superblock, Blocks, bblock, block_bit}
use lab_so.Fs.Bitmap.{MapUsed}
use lab_so.Fs.Content.{maxfile, Inode}
use lab_so.Fs.Slots.{slot, slot_of, byte_in, content}

module _ (sb : Superblock) where
  -- A file on the disk: its blocks are blocks of the disk in use, none of the bitmap, and no block is in
  -- two slots. The blocks of the bitmap, and block 0, are in use.
  pub record IsFile (ip : Inode) (d : Blocks) : Type 0 where
    pub fits : (j : ℕ) → j < 269 → slot ip d j ≢ 0 → slot ip d j < sb.size
    pub in_use : (j : ℕ) → j < 269 → slot ip d j ≢ 0 → block_bit sb (slot ip d j) d ≡ 1
    pub apart : (j c : ℕ) → j < 269 → c < sb.size → slot ip d j ≢ 0 → bblock sb c ≢ slot ip d j
    pub single : (i j : ℕ) → i < 269 → j < 269 → slot ip d i ≢ 0 → slot ip d i ≡ slot ip d j → i ≡ j
    pub bitmap : MapUsed sb d
    pub boot : block_bit sb 0 d ≡ 1
    pub small : sb.size ≤ 2 ^ 32
    pub room : 0 < sb.size

  -- The free slot `j` is given the block `a`, which was free.
  pub record Grown (j a : ℕ) (ip ip' : Inode) (d d' : Blocks) : Type 0 where
    pub was_empty : slot ip d j ≡ 0
    pub now : slot ip' d' j ≡ a
    pub others : (i : ℕ) → i < 269 → j ≢ i → slot ip' d' i ≡ slot ip d i
    pub was_free : block_bit sb a d ≡ 0
    pub below : a < sb.size
    pub used : block_bit sb a d' ≡ 1
    pub bits : (c : ℕ) → a ≢ c → c < sb.size → block_bit sb c d' ≡ block_bit sb c d
    pub zeros : j ≢ 12 → (i : ℕ) → d' a i ≡ 0
    pub bytes :
        (s i : ℕ) → s < 269 → s ≢ 12 → slot ip d s ≢ 0 → d' (slot ip d s) i ≡ d (slot ip d s) i

  module _ (j a : ℕ) (ip ip' : Inode) (d d' : Blocks) (jl : j < 269) (f : IsFile ip d)
      (g : Grown j a ip ip' d d') where
    -- A block whose bit is 1 is another one.
    in_use_other : (c : ℕ) → block_bit sb c d ≡ 1 → a ≢ c
    in_use_other c u e = let x = ap (λ q. block_bit sb q d) e in let y = g.was_free in omega arith

    slot_other : (i : ℕ) → i < 269 → slot ip d i ≢ 0 → a ≢ slot ip d i
    slot_other i h n = in_use_other (slot ip d i) (f.in_use i h n)

    bitmap_other : (c : ℕ) → c < sb.size → a ≢ bblock sb c
    bitmap_other c h = in_use_other (bblock sb c) (f.bitmap c h).1

    -- To show something of the new slot `i`.
    pub each_slot :
        (P : ℕ → Type 0) (i : ℕ)
        → i < 269
        → slot ip' d' i ≢ 0
        → P a
        → (slot ip d i ≢ 0 → P (slot ip d i))
        → P (slot ip' d' i)
    each_slot P i h n p q = elim (ℕ_discrete j i) [
      | yes e ↦ subst P (sym (subst (λ k. slot ip' d' k ≡ a) e g.now)) p
      | no e ↦ subst P (sym (g.others i h e)) (q (λ z. n (g.others i h e ∙ z)))
    ]

    single' :
        (i k : ℕ) → i < 269 → k < 269 → slot ip' d' i ≢ 0 → slot ip' d' i ≡ slot ip' d' k → i ≡ k
    single' i k h l n e = elim (ℕ_discrete j i) [
      | yes x ↦ elim (ℕ_discrete j k) [
        | yes y ↦ sym x ∙ y
        | no y ↦
            let w : a ≡ slot ip d k =
              sym (subst (λ m. slot ip' d' m ≡ a) x g.now) ∙ e ∙ g.others k l y in
            let z : slot ip d k ≢ 0 = (λ q. n (e ∙ g.others k l y ∙ q)) in
            absurd (slot_other k l z w)
      ]
      | no x ↦
          let m : slot ip d i ≢ 0 = (λ q. n (g.others i h x ∙ q)) in
          elim (ℕ_discrete j k) [
            | yes y ↦ absurd (
                slot_other i h m
                  (sym (subst (λ m. slot ip' d' m ≡ a) y g.now) ∙ sym e ∙ g.others i h x))
            | no y ↦ f.single i k h l m (sym (g.others i h x) ∙ e ∙ g.others k l y)
          ]
    ]

    pub IsFile-Grown : IsFile ip' d'
    IsFile-Grown = record {
      fits = λ i h n. each_slot (λ b. b < sb.size) i h n g.below (f.fits i h);
      in_use = λ i h n.
          each_slot (λ b. block_bit sb b d' ≡ 1) i h n g.used
            (λ m. g.bits (slot ip d i) (slot_other i h m) (f.fits i h m) ∙ f.in_use i h m);
      apart = λ i c h l n.
          each_slot (λ b. bblock sb c ≢ b) i h n (λ e. bitmap_other c l (sym e)) (f.apart i c h l);
      single = single';
      bitmap = λ c h. (
        (f.bitmap c h).0,
        g.bits (bblock sb c) (bitmap_other c h) (f.bitmap c h).0 ∙ (f.bitmap c h).1,
      );
      boot = g.bits 0 (in_use_other 0 f.boot) f.room ∙ f.boot;
      small = f.small;
      room = f.room;
    }

    byte_in-Grown :
        (s i : ℕ) → s < 269 → s ≢ 12 → byte_in d' (slot ip' d' s) i ≡ byte_in d (slot ip d s) i
    byte_in-Grown s i h n = elim (ℕ_discrete j s) [
      | yes e ↦
          let z : slot ip d s ≡ 0 = subst (λ k. slot ip d k ≡ 0) e g.was_empty in
          let y = subst (λ k. slot ip' d' k ≡ a) e g.now in
          let w = g.zeros (λ q. n (sym e ∙ q)) i in
          ap (λ b. byte_in d' b i) y ∙ zero_byte w ∙ sym (ap (λ b. byte_in d b i) z)
      | no e ↦ ap (λ b. byte_in d' b i) (g.others s h e) ∙ old (Bool-cases (slot ip d s == 0))
    ]
      where
        zero_byte : d' a i ≡ 0 → byte_in d' a i ≡ 0
        zero_byte w = elim (Bool-cases (a == 0)) [ inl t ↦ rw t refl | inr t ↦ rw t w ]

        old :
            ((slot ip d s == 0) ≡ true) ⊎ ((slot ip d s == 0) ≡ false)
            → byte_in d' (slot ip d s) i ≡ byte_in d (slot ip d s) i
        old (inl t) = rw t refl
        old (inr t) = rw t (g.bytes s i h n (ground arith))

    pub content-Grown : (k : ℕ) → k < maxfile * bsize → content ip' d' k ≡ content ip d k
    content-Grown k h =
        byte_in-Grown (slot_of (k / bsize)) (k % bsize) (ground arith) (ground arith)
