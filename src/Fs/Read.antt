-- ===== src/Fs/Read.antt =====
-- kernel/fs.c: readi gives the bytes of the file.
use lab_so.Prelude.{
  ℕ, zero, suc, ◌+◌, ◌-◌, ◌*◌, ◌/◌, ◌%◌, ◌^◌, ◌≤◌, ◌<◌, ◌≡◌, ◌≢◌, refl, sym, ap, ◌∙◌, inl, inr,
  Bool, true, false, not, ◌&&◌, ◌||◌, ◌==◌, Option, none, some, [], if◌then◌else◌, ltb, leb, min,
  Bool-cases, arith,
}
use lab_so.Log.{Log}
use lab_so.Fs.Defs.{bsize, Superblock, Blocks}
use lab_so.Fs.Content.{maxfile, Inode, bmap}
use lab_so.Fs.Logged.{bmap_logs, log_all, bmap_present}
use lab_so.Fs.Slots.{slot, slot_of, byte_in, content}
use lab_so.Fs.Writei.{laid_over, piece}
use lab_so.Fs.Patch.{piece_fits}
use lab_so.Fs.Readi.{read_blocks, readi}

module _ (sb : Superblock) (copies : ℕ → ℕ → Bool) where
  -- The call returns the end of the bytes it read, which are those of the file from `off` on; or -1, if a
  -- copy fails.
  abbrev pub Returned : ℕ → ℕ → ℕ → (ℕ → ℕ) → Inode → Blocks → Option ℕ × (ℕ → ℕ) → Type 0
  Returned tot left off out ip d (some t, out') =
      (t ≡ tot + left)
      × ((j : ℕ) → j < tot → out' j ≡ out j)
      × ((j : ℕ) → tot ≤ j → j < t → out' j ≡ content ip d (off + (j - tot)))
  Returned tot left off out ip d (none, out') = (t : ℕ) × (m : ℕ) × (copies t m ≡ false)

  laid_over_below :
      (tot m o : ℕ) (src out : ℕ → ℕ) (j : ℕ) → j < tot → laid_over tot m o src out j ≡ out j
  laid_over_below tot m o src out j h =
      let t : (leb tot j && ltb j (tot + m)) ≡ false = ground arith in rw t refl

  laid_over_inside :
      (tot m o : ℕ) (src out : ℕ → ℕ) (j : ℕ)
      → tot ≤ j
      → j < tot + m
      → laid_over tot m o src out j ≡ src (o + (j - tot))
  laid_over_inside tot m o src out j h k =
      let t : (leb tot j && ltb j (tot + m)) ≡ true = ground arith in rw t refl

  module _ (tot left off : ℕ) (out : ℕ → ℕ) (ip : Inode) (d : Blocks) (some_left : 0 < left)
      (nz : slot ip d (slot_of (off / bsize)) ≢ 0) where
    abbrev a : ℕ
    a = slot ip d (slot_of (off / bsize))

    abbrev m : ℕ
    m = piece off left

    -- The bytes of the block are those of the file.
    block_byte : (i : ℕ) → i < m → d a (off % bsize + i) ≡ content ip d (off + i)
    block_byte i h =
        let p = piece_fits off left some_left in
        let q : (off + i) / bsize ≡ off / bsize = omega arith in
        let r : (off + i) % bsize ≡ off % bsize + i = omega arith in
        let u : (a == 0) ≡ false = ground arith in
        let b : byte_in d a (off % bsize + i) ≡ d a (off % bsize + i) = rw u refl in
        sym b
        ∙ sym (ap (λ c. byte_in d (slot ip d (slot_of c)) (off % bsize + i)) q)
        ∙ sym (ap (byte_in d (slot ip d (slot_of ((off + i) / bsize)))) r)

    further :
        (r : Option ℕ × (ℕ → ℕ))
        → Returned (tot + m) (left - m) (off + m) (laid_over tot m (off % bsize) (d a) out) ip d r
        → Returned tot left off out ip d r
    further (none, out') x = x
    further (some t, out') (l, before, bytes) =
        let p = piece_fits off left some_left in
        (
          omega arith,
          (λ j i. before j (omega arith) ∙ laid_over_below tot m (off % bsize) (d a) out j i),
          (λ j i n. elim (Bool-cases (ltb j (tot + m))) [
            | inl s ↦
                before j (ground arith)
                ∙ laid_over_inside tot m (off % bsize) (d a) out j i (ground arith)
                ∙ block_byte (j - tot) (ground arith)
            | inr s ↦
                let e : off + m + (j - (tot + m)) ≡ off + (j - tot) = ground arith in
                bytes j (ground arith) n ∙ ap (content ip d) e
          ]),
        )

  read_blocks_round :
      (fuel tot left off : ℕ) (out : ℕ → ℕ) (ip : Inode) (d : Blocks) (l : Log) (a : ℕ)
      → (left == 0) ≡ false
      → (a == 0) ≡ false
      → bmap_logs sb (off / bsize) ip d ≡ []
      → bmap sb (off / bsize) ip d ≡ some (a, ip, d)
      → read_blocks sb (suc fuel) copies tot left off out ip d l ≡ (
          if not (copies tot (piece off left))
          then some (none, out, ip, d, l)
          else read_blocks sb fuel copies
              (tot + piece off left)
              (left - piece off left)
              (off + piece off left)
              (laid_over tot (piece off left) (off % bsize) (d a) out)
              ip
              d
              l)
  unfolding read_blocks log_all
  read_blocks_round fuel tot left off out ip d l a t n e q = rw (t, e, q, n) refl

  read_blocks_none :
      (fuel tot left off : ℕ) (out : ℕ → ℕ) (ip : Inode) (d : Blocks) (l : Log)
      → left ≡ 0
      → read_blocks sb fuel copies tot left off out ip d l ≡ some (some tot, out, ip, d, l)
  unfolding read_blocks
  read_blocks_none zero tot left off out ip d l e = refl
  read_blocks_none (suc fuel) tot left off out ip d l e =
      let t : (left == 0) ≡ true = ground arith in rw t refl

  read_blocks_lem :
      (fuel tot left off : ℕ) (out : ℕ → ℕ) (ip : Inode) (d : Blocks) (l : Log)
      → left ≤ fuel
      → off + left ≤ maxfile * bsize
      → ((k : ℕ) → k < off + left → slot ip d (slot_of (k / bsize)) ≢ 0)
      → (r : Option ℕ × (ℕ → ℕ)) × (read_blocks sb fuel copies tot left off out ip d l
          ≡ some (r.0, r.1, ip, d, l))
        × Returned tot left off out ip d r
  read_blocks_lem fuel tot zero off out ip d l h i f = (
    (some tot, out),
    read_blocks_none fuel tot 0 off out ip d l refl,
    (omega arith, (λ j l. refl), (λ j l n. absurd (omega arith))),
  )
  read_blocks_lem zero tot (suc left) off out ip d l h i f = absurd (omega arith)
  read_blocks_lem (suc fuel) tot (suc left) off out ip d l h i f =
      let nz = f off (omega arith) in
      let a = slot ip d (slot_of (off / bsize)) in
      let (e, q) = bmap_present sb (off / bsize) ip d (omega arith) nz in
      let s =
        read_blocks_round fuel tot (suc left) off out ip d l a (ground arith) (ground arith) q e in
      let p = piece_fits off (suc left) (omega arith) in
      elim (Bool-cases (copies tot (piece off (suc left)))) [
        | inr u ↦ ((none, out), s ∙ (rw u refl), (tot, piece off (suc left), u))
        | inl u ↦
            let (r, q, y) =
              read_blocks_lem fuel (tot + piece off (suc left)) (suc left - piece off (suc left))
                (off + piece off (suc left))
                (laid_over tot (piece off (suc left)) (off % bsize) (d a) out) ip d l (omega arith)
                (omega arith) (λ k b. f k (omega arith)) in
            (r, s ∙ (rw u q), further tot (suc left) off out ip d (omega arith) nz r y)
      ]

  -- The bytes that are there to read: none behind the end of the file or if the end of the call overflows.
  abbrev pub readable : ℕ → ℕ → ℕ → ℕ
  readable size off n = if leb (2 ^ 32) (off + n) then 0 else min n (size - off)

  -- readi of `n` bytes at `off`, of a file of at most MAXFILE blocks that has a block for each of its bytes:
  -- inside or outside of a transaction it does not panic, and changes neither the inode nor the blocks nor
  -- the log. It returns -1 only if a copy fails. Else it gives the bytes of the file from `off` on, all `n`
  -- or those up to the end of the file; it gives none if `off + n` is not below 2 ^ 32.
  pub readi_lem :
      (off n : ℕ) (out : ℕ → ℕ) (ip : Inode) (d : Blocks) (l : Log)
      → ip.size ≤ maxfile * bsize
      → ((k : ℕ) → k < ip.size → slot ip d (slot_of (k / bsize)) ≢ 0)
      → (r : Option ℕ × (ℕ → ℕ)) × (readi sb copies off n out ip d l ≡ some (r.0, r.1, ip, d, l))
        × Returned 0 (readable ip.size off n) off out ip d r
  unfolding readi
  readi_lem off n out ip d l h f = elim (Bool-cases (ltb ip.size off || leb (2 ^ 32) (off + n))) [
    | inl t ↦
        let z : readable ip.size off n ≡ 0 = ground arith in
        rw (t, z)
          ((some 0, out), refl, (omega arith, (λ j i. refl), (λ j i h. absurd (omega arith))))
    | inr t ↦
        let z : readable ip.size off n ≡ (if ltb ip.size (off + n) then ip.size - off else n) =
          ground arith in
        let n' = if ltb ip.size (off + n) then ip.size - off else n in
        let b : off + n' ≤ ip.size = ground arith in
        rw (t, z)
          (read_blocks_lem n' 0 n' off out ip d l (omega arith) (omega arith)
            (λ k c. f k (omega arith)))
  ]
