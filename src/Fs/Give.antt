-- ===== src/Fs/Give.antt =====
-- kernel/fs.c: a file that is given the block of balloc, as one of its own or in its indirect block.
use lab_so.Prelude.{
  ℕ, ◌+◌, ◌-◌, ◌*◌, ◌/◌, ◌%◌, ◌≤◌, ◌<◌, ◌≡◌, ◌≢◌, refl, sym, ap, subst, ◌∙◌, ◌⊎◌, inl, inr, ltb,
  update, update_eq, update_other, Bool-cases, ℕ_discrete, arith,
}
use lab_so.Fs.Bits.{bit}
use lab_so.Fs.Defs.{bsize, bpb, Superblock, Blocks, bblock, block_bit, balloc}
use lab_so.Fs.Bitmap.{Given, Allocated, balloc_lem}
use lab_so.Fs.Content.{maxfile, Inode, word, put_word}
use lab_so.Fs.Slots.{
  slot, slot_low, slot_none, slot_high, content, word-put_word_other, word-put_word_self,
  put_word_block,
}
use lab_so.Fs.Grow.{IsFile, Grown, IsFile-Grown, content-Grown}

module _ (sb : Superblock) where
  -- The file stays well formed, with its bytes and the blocks that it had.
  pub record Kept (ip : Inode) (d : Blocks) (ip' : Inode) (d' : Blocks) : Type 0 where
    pub file : IsFile sb ip' d'
    pub bytes : (k : ℕ) → k < maxfile * bsize → content ip' d' k ≡ content ip d k
    pub slots : (s : ℕ) → s < 269 → slot ip d s ≢ 0 → slot ip' d' s ≡ slot ip d s
    pub size : ip'.size ≡ ip.size

  pub Kept-refl : (ip : Inode) (d d' : Blocks) → d' ≡ d → IsFile sb ip d → Kept ip d ip d'
  Kept-refl ip d d' e f =
      subst (Kept ip d ip) (sym e)
        (record { file = f; bytes = λ k h. refl; slots = λ s h n. refl; size = refl })

  pub Kept-trans :
      (ip : Inode) (d : Blocks) (ip' : Inode) (d' : Blocks) (ip'' : Inode) (d'' : Blocks)
      → Kept ip d ip' d'
      → Kept ip' d' ip'' d''
      → Kept ip d ip'' d''
  Kept-trans ip d ip' d' ip'' d'' a b = record {
    file = b.file;
    bytes = λ k h. b.bytes k h ∙ a.bytes k h;
    slots = λ s h n. b.slots s h (λ e. n (sym (a.slots s h n) ∙ e)) ∙ a.slots s h n;
    size = b.size ∙ a.size;
  }

  pub Kept-Grown :
      (j a : ℕ) (ip ip' : Inode) (d d' : Blocks)
      → j < 269
      → ip'.size ≡ ip.size
      → IsFile sb ip d
      → Grown sb j a ip ip' d d'
      → Kept ip d ip' d'
  Kept-Grown j a ip ip' d d' h e f g = record {
    file = IsFile-Grown sb j a ip ip' d d' h f g;
    bytes = content-Grown sb j a ip ip' d d' h f g;
    slots = λ s l n. g.others s l (λ q. n (subst (λ k. slot ip d k ≡ 0) q g.was_empty));
    size = e;
  }

  -- No block is free.
  abbrev pub Full : Blocks → Type 0
  Full d = (c : ℕ) → c < sb.size → block_bit sb c d ≡ 1

  -- What balloc gives a file.
  abbrev pub Block : Blocks → ℕ × Blocks → Type 0
  Block d (a, d') = ((a ≡ 0) × (d' ≡ d) × Full d) ⊎ ((a ≢ 0) × (a < sb.size) × Given sb a d d')

  pub balloc-Block : (ip : Inode) (d : Blocks) → IsFile sb ip d → Block d (balloc sb d)
  balloc-Block ip d f = go (balloc sb d) (balloc_lem sb d f.bitmap)
    where
      go : (r : ℕ × Blocks) → Allocated sb 0 sb.size d r → Block d r
      go (a, d') (inl (x, y, w)) = inl (x, y, λ c h. w c (omega arith) (omega arith))
      go (a, d') (inr (l, h, w, g)) = inr (
        (λ e.
            (let x = ap (λ q. block_bit sb q d) e in
              let y = f.boot in let z = g.was_free in omega arith)),
        omega arith,
        g,
      )

  module _ (a : ℕ) (ip : Inode) (d d' : Blocks) (f : IsFile sb ip d) (nz : a ≢ 0) (l : a < sb.size)
      (g : Given sb a d d') where
    -- The blocks in the slots are as they were.
    same_block : (s i : ℕ) → s < 269 → slot ip d s ≢ 0 → d' (slot ip d s) i ≡ d (slot ip d s) i
    same_block s i h n =
        g.blocks (slot ip d s) i
          (λ e.
            (let x = ap (λ q. block_bit sb q d) e in
              let y = f.in_use s h n in let z = g.was_free in omega arith))
          (f.apart s a h l n)

    -- `a` is none of them.
    other_block : (s : ℕ) → s < 269 → slot ip d s ≢ 0 → a ≢ slot ip d s
    other_block s h n e =
        let x = ap (λ q. block_bit sb q d) e in
        let y = f.in_use s h n in let z = g.was_free in omega arith

    module _ (i : ℕ) (h : i < 13) (z : ip.addrs i ≡ 0) where
      abbrev own : Inode
      own = record ip { addrs = update ip.addrs i a }

      own_others : (s : ℕ) → s < 269 → i ≢ s → slot own d' s ≡ slot ip d s
      own_others s k n = elim (Bool-cases (ltb s 13)) [
        | inl t ↦
            slot_low own d' s (ground arith)
            ∙ update_other ip.addrs i s a n
            ∙ sym (slot_low ip d s (ground arith))
        | inr t ↦ high (ground arith) (ℕ_discrete i 12)
      ]
        where
          words : (p : ℕ) → ((j : ℕ) → d' p j ≡ d p j) → word d' p (s - 13) ≡ word d p (s - 13)
          words p e =
              let e0 = e (4 * (s - 13)) in
              let e1 = e (4 * (s - 13) + 1) in
              let e2 = e (4 * (s - 13) + 2) in let e3 = e (4 * (s - 13) + 3) in omega arith

          fresh : word d' a (s - 13) ≡ 0
          fresh =
              let e0 = g.zeros (4 * (s - 13)) in
              let e1 = g.zeros (4 * (s - 13) + 1) in
              let e2 = g.zeros (4 * (s - 13) + 2) in
              let e3 = g.zeros (4 * (s - 13) + 3) in omega arith

          high : 13 ≤ s → Dec (i ≡ 12) → slot own d' s ≡ slot ip d s
          high q (yes e) =
              let x : ip.addrs 12 ≡ 0 = subst (λ m. ip.addrs m ≡ 0) e z in
              let y : own.addrs 12 ≡ a = update_eq ip.addrs i 12 a e in
              slot_high own d' s q (λ w. nz (sym y ∙ w))
              ∙ ap (λ p. word d' p (s - 13)) y
              ∙ fresh
              ∙ sym (slot_none ip d s q x)
          high q (no e) = elim (ℕ_discrete (ip.addrs 12) 0) [
            | yes x ↦
                slot_none own d' s q (update_other ip.addrs i 12 a e ∙ x)
                ∙ sym (slot_none ip d s q x)
            | no x ↦
                let y : own.addrs 12 ≡ ip.addrs 12 = update_other ip.addrs i 12 a e in
                let b = slot_low ip d 12 (omega arith) in
                slot_high own d' s q (λ w. x (sym y ∙ w))
                ∙ ap (λ p. word d' p (s - 13)) y
                ∙ words (ip.addrs 12) (λ j.
                  subst (λ p. d' p j ≡ d p j) b
                    (same_block 12 j (omega arith) (λ w. x (sym b ∙ w))))
                ∙ sym (slot_high ip d s q x)
          ]

      pub own-Grown : Grown sb i a ip own d d'
      own-Grown = record {
        was_empty = slot_low ip d i h ∙ z;
        now = slot_low own d' i h ∙ update_eq ip.addrs i i a refl;
        others = own_others;
        was_free = g.was_free;
        below = l;
        used = g.in_use;
        bits = g.others;
        zeros = λ n. g.zeros;
        bytes = λ s j k m n. same_block s j k n;
      }

    module _ (p j : ℕ) (h : j < 256) (pe : ip.addrs 12 ≡ p) (pn : p ≢ 0) (z : word d p j ≡ 0) where
      abbrev listed : Blocks
      listed = put_word p j a d'

      twelve : slot ip d 12 ≡ p
      twelve = slot_low ip d 12 (omega arith) ∙ pe

      twelve_ne : slot ip d 12 ≢ 0
      twelve_ne e = pn (sym twelve ∙ e)

      old_bytes : (k : ℕ) → d' p k ≡ d p k
      old_bytes k = subst (λ q. d' q k ≡ d q k) twelve (same_block 12 k (omega arith) twelve_ne)

      old_bits : (c : ℕ) → c < sb.size → block_bit sb c listed ≡ block_bit sb c d'
      old_bits c k = ap (bit (c % bpb % 8)) (
          put_word_block p j a d' (bblock sb c) (c % bpb / 8)
            (λ e. f.apart 12 c (omega arith) k twelve_ne (sym e ∙ sym twelve)))

      listed_others : (s : ℕ) → s < 269 → 13 + j ≢ s → slot ip listed s ≡ slot ip d s
      listed_others s k n = elim (Bool-cases (ltb s 13)) [
        | inl t ↦ slot_low ip listed s (ground arith) ∙ sym (slot_low ip d s (ground arith))
        | inr t ↦
            slot_high ip listed s (ground arith) (λ w. pn (sym pe ∙ w))
            ∙ ap (λ q. word listed q (s - 13)) pe
            ∙ word-put_word_other p j a d' (s - 13) (ground arith)
            ∙ words
            ∙ sym (ap (λ q. word d q (s - 13)) pe)
            ∙ sym (slot_high ip d s (ground arith) (λ w. pn (sym pe ∙ w)))
      ]
        where
          words : word d' p (s - 13) ≡ word d p (s - 13)
          words =
              let e0 = old_bytes (4 * (s - 13)) in
              let e1 = old_bytes (4 * (s - 13) + 1) in
              let e2 = old_bytes (4 * (s - 13) + 2) in
              let e3 = old_bytes (4 * (s - 13) + 3) in omega arith

      listed_at : (e : Blocks) → slot ip e (13 + j) ≡ word e p j
      listed_at e =
          slot_high ip e (13 + j) (omega arith) (λ w. pn (sym pe ∙ w))
          ∙ ap (λ q. word e q (13 + j - 13)) pe
          ∙ (let w : 13 + j - 13 ≡ j = omega arith in ap (word e p) w)

      pub listed-Grown : Grown sb (13 + j) a ip ip d listed
      listed-Grown = record {
        was_empty = listed_at d ∙ z;
        now = listed_at listed ∙ word-put_word_self p j a d' (omega (arith, l, f.small));
        others = listed_others;
        was_free = g.was_free;
        below = l;
        used = old_bits a l ∙ g.in_use;
        bits = λ c n k. old_bits c k ∙ g.others c n k;
        zeros = λ n i.
            put_word_block p j a d' a i
              (λ e. other_block 12 (omega arith) twelve_ne (sym e ∙ sym twelve))
            ∙ g.zeros i;
        bytes = λ s i k m n.
            put_word_block p j a d' (slot ip d s) i
              (λ e. m (f.single s 12 k (omega arith) n (sym e ∙ sym twelve)))
            ∙ same_block s i k n;
      }
