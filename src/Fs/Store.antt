-- ===== src/Fs/Store.antt =====
-- kernel/fs.c: bytes stored in a block of a file change those bytes of the file only.
use lab_so.Prelude.{
  ℕ, ◌+◌, ◌-◌, ◌*◌, ◌/◌, ◌%◌, ◌≤◌, ◌<◌, ◌≡◌, ◌≢◌, refl, sym, ap, subst, ◌∙◌, inl, inr, false, ◌==◌,
  if◌then◌else◌, ltb, update, update_eq, update_other, Bool-cases, ℕ_discrete, arith,
}
use lab_so.Fs.Bits.{bit}
use lab_so.Fs.Defs.{bsize, bpb, Superblock, Blocks, bblock, block_bit}
use lab_so.Fs.Content.{maxfile, Inode}
use lab_so.Fs.Slots.{slot, slot_low, slot_none, slot_high, slot_of, byte_in, content}
use lab_so.Fs.Grow.{IsFile}

module _ (sb : Superblock) (bn a : ℕ) (v : ℕ → ℕ) (ip : Inode) (d : Blocks) (f : IsFile sb ip d)
    (h : bn < maxfile) (e : slot ip d (slot_of bn) ≡ a) (nz : a ≢ 0) where
  abbrev stored : Blocks
  stored = update d a v

  here : slot_of bn < 269
  here = ground arith

  not_twelve : slot_of bn ≢ 12
  not_twelve = ground arith

  in_slot : slot ip d (slot_of bn) ≢ 0
  in_slot z = nz (sym e ∙ z)

  same_bit : (c : ℕ) → c < sb.size → block_bit sb c stored ≡ block_bit sb c d
  same_bit c k =
      ap (λ g. bit (c % bpb % 8) (g (c % bpb / 8)))
        (update_other d a (bblock sb c) v
          (λ z. f.apart (slot_of bn) c here k in_slot (sym z ∙ sym e)))

  same_slot : (s : ℕ) → s < 269 → slot ip stored s ≡ slot ip d s
  same_slot s k = elim (Bool-cases (ltb s 13)) [
    | inl t ↦ slot_low ip stored s (ground arith) ∙ sym (slot_low ip d s (ground arith))
    | inr t ↦ high (ground arith) (ℕ_discrete (ip.addrs 12) 0)
  ]
    where
      high : 13 ≤ s → Dec (ip.addrs 12 ≡ 0) → slot ip stored s ≡ slot ip d s
      high q (yes z) = slot_none ip stored s q z ∙ sym (slot_none ip d s q z)
      high q (no z) =
          let b = slot_low ip d 12 (omega arith) in
          let n : a ≢ ip.addrs 12 =
            λ w. not_twelve (f.single (slot_of bn) 12 here (omega arith) in_slot (e ∙ w ∙ sym b)) in
          slot_high ip stored s q z
          ∙ ap
              (λ g.
                g (4 * (s - 13))
                + 256 * g (4 * (s - 13) + 1)
                + 65536 * g (4 * (s - 13) + 2)
                + 16777216 * g (4 * (s - 13) + 3))
              (update_other d a (ip.addrs 12) v n)
          ∙ sym (slot_high ip d s q z)

  pub IsFile-stored : IsFile sb ip stored
  IsFile-stored = record {
    fits = λ i k n.
        subst (λ b. b < sb.size) (sym (same_slot i k)) (f.fits i k (λ z. n (same_slot i k ∙ z)));
    in_use = λ i k n.
        (let m : slot ip d i ≢ 0 = (λ z. n (same_slot i k ∙ z)) in
          ap (λ b. block_bit sb b stored) (same_slot i k)
          ∙ same_bit (slot ip d i) (f.fits i k m)
          ∙ f.in_use i k m);
    apart = λ i c k l n z. f.apart i c k l (λ w. n (same_slot i k ∙ w)) (z ∙ same_slot i k);
    single = λ i j k l n z.
        f.single i j k l (λ w. n (same_slot i k ∙ w)) (sym (same_slot i k) ∙ z ∙ same_slot j l);
    bitmap = λ c k. ((f.bitmap c k).0, same_bit (bblock sb c) (f.bitmap c k).0 ∙ (f.bitmap c k).1);
    boot = same_bit 0 f.room ∙ f.boot;
    small = f.small;
    room = f.room;
  }

  -- The bytes of the block, and all others.
  pub content-stored :
      (k : ℕ)
      → k < maxfile * bsize
      → content ip stored k ≡ (if k / bsize == bn then v (k % bsize) else content ip d k)
  content-stored k l = elim (Bool-cases (k / bsize == bn)) [
    | inl t ↦
        let q : slot_of (k / bsize) ≡ slot_of bn =
          (let w : k / bsize ≡ bn = ground arith in ap slot_of w) in
        let u : (a == 0) ≡ false = ground arith in
        let x : slot ip stored (slot_of (k / bsize)) ≡ a =
          same_slot (slot_of (k / bsize)) (ground arith) ∙ ap (slot ip d) q ∙ e in
        let y : byte_in stored a (k % bsize) ≡ v (k % bsize) =
          rw u (ap (λ g. g (k % bsize)) (update_eq d a a v refl)) in
        rw t (ap (λ b. byte_in stored b (k % bsize)) x ∙ y)
    | inr t ↦ rw t (
        ap (λ b. byte_in stored b (k % bsize)) (same_slot (slot_of (k / bsize)) (ground arith))
        ∙ old (slot_of (k / bsize)) (ground arith) (ground arith))
  ]
    where
      old :
          (s : ℕ)
          → s < 269
          → s ≢ slot_of bn
          → byte_in stored (slot ip d s) (k % bsize) ≡ byte_in d (slot ip d s) (k % bsize)
      old s m n = elim (Bool-cases (slot ip d s == 0)) [
        | inl t ↦ rw t refl
        | inr t ↦
            let z : slot ip d s ≢ 0 = ground arith in
            rw t (
              ap (λ g. g (k % bsize))
                (update_other d a (slot ip d s) v
                  (λ w. n (f.single s (slot_of bn) m here z (sym w ∙ sym e)))))
      ]
