-- ===== src/Fs/Round.antt =====
-- kernel/fs.c: a round of the loop of writei.
use lab_so.Prelude.{
  ℕ, ◌+◌, ◌-◌, ◌*◌, ◌/◌, ◌%◌, ◌≤◌, ◌<◌, ◌≡◌, ◌≢◌, refl, sym, ap, ◌∙◌, ◌⊎◌, inl, inr, true, false,
  Option, some, min, ◌&&◌, ◌==◌, if◌then◌else◌, ltb, leb, update, Bool-cases, arith,
}
use lab_so.Fs.Defs.{bsize, Superblock, Blocks}
use lab_so.Fs.Content.{maxfile, Inode}
use lab_so.Fs.Slots.{slot, slot_of, byte_in, content}
use lab_so.Fs.Grow.{IsFile}
use lab_so.Fs.Give.{Full}
use lab_so.Fs.Bmap.{Found}
use lab_so.Fs.Store.{IsFile-stored, content-stored}
use lab_so.Fs.Writei.{laid_over, piece}
use lab_so.Fs.Patch.{piece_fits, patch, patch-laid_over, patch-patch, laid_over_cong}

module _ (sb : Superblock) (fetch : ℕ → ℕ → Option ℕ) (src : ℕ → ℕ) where
  -- The bytes of `src` from `tot` up to `reach` are in the file at `off`; the rest of it is as it was. Those up
  -- to `done` are written, and the others left by a fetch that failed. Fewer than `left` are written only if the
  -- fetch of the next fails, or if no block is free.
  pub record Written (tot left off : ℕ) (ip : Inode) (d : Blocks) (done reach : ℕ) (ip' : Inode)
      (d' : Blocks) : Type 0 where
    pub file : IsFile sb ip' d'
    pub bytes :
        (k : ℕ)
        → k < maxfile * bsize
        → content ip' d' k ≡ patch off (reach - tot) (λ i. src (tot + i)) (content ip d) k
    pub size : ip'.size ≡ ip.size
    pub least : tot ≤ done
    pub reached : done ≤ reach
    pub most : reach ≤ tot + left
    pub cause :
        ((done ≡ tot + left) × (reach ≡ done))
        ⊎ ((m : ℕ) × (p : ℕ) × (fetch done m ≡ some p) × (reach ≤ done + p))
        ⊎ (Full sb d' × (reach ≡ done))

  pub patch_none : (off tot k : ℕ) (s old : ℕ → ℕ) → patch off (tot - tot) s old k ≡ old k
  patch_none off tot k s old =
      let t : (leb off k && ltb k (off + (tot - tot))) ≡ false = ground arith in rw t refl

  module _ (tot left off : ℕ) (ip : Inode) (d : Blocks) (some_left : 0 < left)
      (inside : off + left ≤ maxfile * bsize) (a : ℕ) (ip1 : Inode) (d1 : Blocks)
      (x : Found sb (slot_of (off / bsize)) ip d a ip1 d1) where
    -- The loop stops after bmap.
    pub stopped : Full sb d1 → Written tot left off ip d tot tot ip1 d1
    stopped why = record {
      file = x.kept.file;
      bytes =
          λ k h. x.kept.bytes k h ∙ sym (patch_none off tot k (λ i. src (tot + i)) (content ip d));
      size = x.kept.size;
      least = omega arith;
      reached = omega arith;
      most = omega arith;
      cause = inr (inr (why, refl));
    }

    -- The blocks once `n` bytes are put into the block.
    abbrev with_bytes : ℕ → Blocks
    with_bytes n = update d1 a (laid_over (off % bsize) n tot src (d1 a))

    abbrev m : ℕ
    m = piece off left

    abbrev d2 : Blocks
    d2 = with_bytes m

    module _ (nz : a ≢ 0) where
      old_byte : (i : ℕ) → i < bsize → d1 a i ≡ content ip d (off / bsize * bsize + i)
      old_byte i h =
          let q : (off / bsize * bsize + i) / bsize ≡ off / bsize = omega arith in
          let r : (off / bsize * bsize + i) % bsize ≡ i = omega arith in
          let u : (a == 0) ≡ false = ground arith in
          let b : byte_in d1 a i ≡ d1 a i = rw u refl in
          sym b
          ∙ sym (ap (λ c. byte_in d1 c i) (x.given nz))
          ∙ sym (ap (λ c. byte_in d1 (slot ip1 d1 (slot_of c)) i) q)
          ∙ sym (ap (byte_in d1 (slot ip1 d1 (slot_of ((off / bsize * bsize + i) / bsize)))) r)
          ∙ x.kept.bytes (off / bsize * bsize + i) (omega arith)

      pub round-IsFile : (n : ℕ) → IsFile sb ip1 (with_bytes n)
      round-IsFile n =
          IsFile-stored sb (off / bsize) a (laid_over (off % bsize) n tot src (d1 a)) ip1 d1
            x.kept.file (omega arith) (x.given nz) nz

      round_bytes :
          (n : ℕ)
          → n ≤ m
          → (k : ℕ) → k < maxfile * bsize
          → content ip1 (with_bytes n) k ≡ patch off n (λ i. src (tot + i)) (content ip d) k
      round_bytes n b k h =
          content-stored sb (off / bsize) a (laid_over (off % bsize) n tot src (d1 a)) ip1 d1
            x.kept.file (omega arith) (x.given nz) nz k h
          ∙ choose (Bool-cases (k / bsize == off / bsize))
          ∙ patch-laid_over off n tot k src (content ip d)
              (let p = (piece_fits off left some_left).2 in omega arith)
        where
          choose :
              (((k / bsize == off / bsize) ≡ true) ⊎ ((k / bsize == off / bsize) ≡ false))
              → (if k / bsize == off / bsize
                  then laid_over (off % bsize) n tot src (d1 a) (k % bsize)
                  else content ip1 d1 k)
                ≡ (if k / bsize == off / bsize
                    then laid_over
                        (off % bsize)
                        n
                        tot
                        src
                        (λ i. content ip d (off / bsize * bsize + i))
                        (k % bsize)
                    else content ip d k)
          choose (inl t) = rw t (
              laid_over_cong (off % bsize) n tot src (d1 a)
                (λ i. content ip d (off / bsize * bsize + i)) (k % bsize)
                (old_byte (k % bsize) (omega arith)))
          choose (inr t) = rw t (x.kept.bytes k h)

      -- The loop stops at a fetch that fails once it has put `p` bytes.
      pub cut :
          (p : ℕ)
          → fetch tot m ≡ some p
          → Written tot left off ip d tot (tot + min p m) ip1 (with_bytes (min p m))
      cut p e =
          let q = piece_fits off left some_left in
          let n : tot + min p m - tot ≡ min p m = omega arith in
          record {
            file = round-IsFile (min p m);
            bytes = λ k h.
                round_bytes (min p m) (omega arith) k h
                ∙ sym (ap (λ j. patch off j (λ i. src (tot + i)) (content ip d) k) n);
            size = x.kept.size;
            least = omega arith;
            reached = omega arith;
            most = omega arith;
            cause = inr (inl (m, p, e, omega arith));
          }

      -- The rest of the loop, behind a round.
      pub continued :
          (done reach : ℕ) (ip' : Inode) (d' : Blocks)
          → Written (tot + m) (left - m) (off + m) ip1 d2 done reach ip' d'
          → Written tot left off ip d done reach ip' d'
      continued done reach ip' d' y =
          let p = piece_fits off left some_left in
          let lt = y.least in
          let rt = y.reached in
          let mt = y.most in
          record {
            file = y.file;
            bytes = λ k h.
                y.bytes k h
                ∙ ap
                    (λ b.
                      if leb (off + m) k && ltb k (off + m + (reach - (tot + m)))
                      then src (tot + m + (k - (off + m)))
                      else b)
                    (round_bytes m (omega arith) k h)
                ∙ joined reach k (omega arith);
            size = y.size ∙ x.kept.size;
            least = omega arith;
            reached = y.reached;
            most = omega arith;
            cause = elim y.cause [ inl (e, q) ↦ inl (omega arith, q) | inr w ↦ inr w ];
          }
        where
          joined :
              (reach k : ℕ)
              → tot + m ≤ reach
              → (if leb (off + m) k && ltb k (off + m + (reach - (tot + m)))
                  then src (tot + m + (k - (off + m)))
                  else patch off m (λ i. src (tot + i)) (content ip d) k)
                ≡ patch off (reach - tot) (λ i. src (tot + i)) (content ip d) k
          joined reach k l =
              let e : m + (reach - (tot + m)) ≡ reach - tot = omega arith in
              let q : tot + m + (k - (off + m)) ≡ tot + (m + (k - (off + m))) = omega arith in
              ap
                (λ j.
                  if leb (off + m) k && ltb k (off + m + (reach - (tot + m)))
                  then src j
                  else patch off m (λ i. src (tot + i)) (content ip d) k)
                q
              ∙ patch-patch off m (reach - (tot + m)) k (λ i. src (tot + i)) (content ip d)
              ∙ ap (λ n. patch off n (λ i. src (tot + i)) (content ip d) k) e
