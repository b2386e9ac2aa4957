-- ===== src/Fs/Bmap.antt =====
-- kernel/fs.c: bmap finds the block of a file, or gives it one.
use lab_so.Prelude.{
  ℕ, ◌+◌, ◌-◌, ◌<◌, ◌≡◌, ◌≢◌, refl, sym, ap, subst, ◌∙◌, inl, inr, true, false, ◌==◌, some,
  if◌then◌else◌, ltb, update, Bool-cases, ℕ_discrete, arith,
}
use lab_so.Fs.Defs.{Superblock, Blocks, balloc}
use lab_so.Fs.Content.{
  ndirect, nindirect, maxfile, Inode, word, put_word, own_block, listed_block, indirect, bmap,
}
use lab_so.Fs.Slots.{slot, slot_low, slot_none, slot_high, slot_of}
use lab_so.Fs.Grow.{IsFile}
use lab_so.Fs.Give.{
  Kept, Kept-refl, Kept-trans, Kept-Grown, Full, Block, balloc-Block, own-Grown, listed-Grown,
}

module _ (sb : Superblock) where
  -- What a search for the block of slot `s` gives: a block number other than 0 is that of the slot.
  pub record Found (s : ℕ) (ip : Inode) (d : Blocks) (a : ℕ) (ip' : Inode) (d' : Blocks)
      : Type 0 where
    pub kept : Kept sb ip d ip' d'
    pub given : a ≢ 0 → slot ip' d' s ≡ a
    pub present : slot ip d s ≢ 0 → a ≡ slot ip d s
    pub full : a ≡ 0 → Full sb d'

  abbrev FoundAll : ℕ → Inode → Blocks → ℕ × Inode × Blocks → Type 0
  FoundAll s ip d (a, ip', d') = Found s ip d a ip' d'

  own_block_lem :
      (i : ℕ) (ip : Inode) (d : Blocks)
      → i < 13
      → IsFile sb ip d
      → FoundAll i ip d (own_block sb i ip d)
  unfolding own_block
  own_block_lem i ip d h f = elim (Bool-cases (ip.addrs i == 0)) [
    | inl t ↦ rw t (go (ground arith) (balloc sb d) (balloc-Block sb ip d f))
    | inr t ↦ rw t (record {
      kept = Kept-refl sb ip d d refl f;
      given = λ n. slot_low ip d i h;
      present = λ n. sym (slot_low ip d i h);
      full = λ n. absurd (ground arith);
    })
  ]
    where
      go :
          ip.addrs i ≡ 0
          → (r : ℕ × Blocks) → Block sb d r
          → FoundAll i ip d (
              if r.0 == 0
              then (0, ip, r.1)
              else (r.0, record ip { addrs = update ip.addrs i r.0 }, r.1))
      go z (a, d') (inl (x, y, w)) =
          let t : (a == 0) ≡ true = ground arith in
          rw t (record {
            kept = Kept-refl sb ip d d' y f;
            given = λ n. absurd (n refl);
            present = λ n. absurd (n (slot_low ip d i h ∙ z));
            full = λ n. subst (Full sb) (sym y) w;
          })
      go z (a, d') (inr (nz, l, g)) =
          let t : (a == 0) ≡ false = ground arith in
          let w = own-Grown sb a ip d d' f nz l g i h z in
          rw t (record {
            kept =
                Kept-Grown sb i a ip (record ip { addrs = update ip.addrs i a }) d d' (omega arith)
                  refl f w;
            given = λ n. w.now;
            present = λ n. absurd (n (slot_low ip d i h ∙ z));
            full = λ n. absurd (nz n);
          })

  listed_block_lem :
      (p j : ℕ) (ip : Inode) (d : Blocks)
      → j < 256
      → ip.addrs 12 ≡ p
      → p ≢ 0
      → IsFile sb ip d
      → FoundAll (13 + j) ip d (listed_block sb p j ip d)
  unfolding listed_block
  listed_block_lem p j ip d h pe pn f = elim (Bool-cases (word d p j == 0)) [
    | inl t ↦ rw t (go (ground arith) (balloc sb d) (balloc-Block sb ip d f))
    | inr t ↦ rw t (record {
      kept = Kept-refl sb ip d d refl f;
      given = λ n. at;
      present = λ n. sym at;
      full = λ n. absurd (ground arith);
    })
  ]
    where
      at : slot ip d (13 + j) ≡ word d p j
      at =
          slot_high ip d (13 + j) (omega arith) (λ w. pn (sym pe ∙ w))
          ∙ ap (λ q. word d q (13 + j - 13)) pe
          ∙ (let w : 13 + j - 13 ≡ j = omega arith in ap (word d p) w)

      go :
          word d p j ≡ 0
          → (r : ℕ × Blocks) → Block sb d r
          → FoundAll
              (13 + j)
              ip
              d
              (if r.0 == 0 then (0, ip, r.1) else (r.0, ip, put_word p j r.0 r.1))
      go z (a, d') (inl (x, y, w)) =
          let t : (a == 0) ≡ true = ground arith in
          rw t (record {
            kept = Kept-refl sb ip d d' y f;
            given = λ n. absurd (n refl);
            present = λ n. absurd (n (at ∙ z));
            full = λ n. subst (Full sb) (sym y) w;
          })
      go z (a, d') (inr (nz, l, g)) =
          let t : (a == 0) ≡ false = ground arith in
          let w = listed-Grown sb a ip d d' f nz l g p j h pe pn z in
          rw t (record {
            kept = Kept-Grown sb (13 + j) a ip ip d (put_word p j a d') (omega arith) refl f w;
            given = λ n. w.now;
            present = λ n. absurd (n (at ∙ z));
            full = λ n. absurd (nz n);
          })

  indirect_lem :
      (j : ℕ) (ip : Inode) (d : Blocks) (r : ℕ × Inode × Blocks)
      → j < 256
      → FoundAll 12 ip d r
      → FoundAll (13 + j) ip d (indirect sb j r)
  unfolding indirect
  indirect_lem j ip d (a, ip', d') h x = elim (ℕ_discrete a 0) [
    | yes e ↦
        let t : (a == 0) ≡ true = ground arith in
        rw t (record {
          kept = x.kept;
          given = λ n. absurd (n refl);
          present = λ n. absurd (x_present n (sym (x.present (x_present n)) ∙ e));
          full = λ n. x.full e;
        })
    | no e ↦
        let t : (a == 0) ≡ false = ground arith in
        let pe : ip'.addrs 12 ≡ a = sym (slot_low ip' d' 12 (omega arith)) ∙ x.given e in
        rw t (behind (listed_block sb a j ip' d') (listed_block_lem a j ip' d' h pe e x.kept.file))
  ]
    where
      x_present : slot ip d (13 + j) ≢ 0 → slot ip d 12 ≢ 0
      x_present n w =
          n (slot_none ip d (13 + j) (omega arith) (sym (slot_low ip d 12 (omega arith)) ∙ w))

      behind : (r : ℕ × Inode × Blocks) → FoundAll (13 + j) ip' d' r → FoundAll (13 + j) ip d r
      behind (b, ip'', d'') y = record {
        kept = Kept-trans sb ip d ip' d' ip'' d'' x.kept y.kept;
        given = y.given;
        present = λ n.
            (let q = x.kept.slots (13 + j) (omega arith) n in y.present (λ w. n (sym q ∙ w)) ∙ q);
        full = y.full;
      }

  -- bmap of a block below MAXFILE, of a file on the disk: it returns, and the file stays well formed, with
  -- its bytes, its size and the blocks it had. The number it gives, if it is not 0, is then the one in the
  -- slot of the block, and the one that was there before, if there was one; it is 0 only if no block is free.
  pub bmap_lem :
      (bn : ℕ) (ip : Inode) (d : Blocks)
      → bn < maxfile
      → IsFile sb ip d
      → (a : ℕ) × (ip' : Inode) × (d' : Blocks) × (bmap sb bn ip d ≡ some (a, ip', d'))
        × Found (slot_of bn) ip d a ip' d'
  unfolding bmap
  bmap_lem bn ip d h f = elim (Bool-cases (ltb bn ndirect)) [
    | inl t ↦
        let w = own_block_lem bn ip d (ground arith) f in
        rw t ((own_block sb bn ip d).0, (own_block sb bn ip d).1, (own_block sb bn ip d).2, refl, w)
    | inr t ↦
        let u : ltb (bn - ndirect) nindirect ≡ true = ground arith in
        let w =
          indirect_lem (bn - ndirect) ip d (own_block sb 12 ip d) (ground arith)
            (own_block_lem 12 ip d (omega arith) f) in
        let e : 13 + (bn - ndirect) ≡ bn + 1 = ground arith in
        let r = indirect sb (bn - ndirect) (own_block sb 12 ip d) in
        rw (t, u) (r.0, r.1, r.2, refl, subst (λ s. FoundAll s ip d r) e w)
  ]
