-- ===== src/Fs/Logged.antt =====
-- kernel/fs.c: the blocks that balloc and bmap pass to log_write, in order.
use lab_so.Prelude.{
  ℕ, zero, suc, ◌+◌, ◌-◌, ◌<◌, ◌≡◌, ◌≢◌, refl, sym, ap, ◌∙◌, inl, inr, true, false, Option, none,
  some, List, [], ◌∷◌, ◌++◌, ◌==◌, if◌then◌else◌, ltb, Bool-cases, ℕ_discrete, arith,
}
use lab_so.Log.{Log, log_write}
use lab_so.Fs.Defs.{Superblock, Blocks, bblock, block_bit, balloc}
use lab_so.Fs.Content.{
  ndirect, nindirect, maxfile, Inode, word, own_block, listed_block, indirect, bmap,
}
use lab_so.Fs.Slots.{slot, slot_low, slot_none, slot_high, slot_of}

-- The calls of log_write on these blocks, of which the bytes are in the blocks that the cache shows; `none`
-- is a panic of one of them.
unfoldable pub log_all : List ℕ → Log → Option Log
log_all [] l = some l
log_all (b ∷ bs) l = elim (log_write b [] l) [ none ↦ none | some l' ↦ log_all bs l' ]

module _ (sb : Superblock) where
  -- balloc: the block of the bitmap, and the block that bzero clears.
  unfoldable pub balloc_logs_from : ℕ → ℕ → Blocks → List ℕ
  balloc_logs_from zero b d = []
  balloc_logs_from (suc n) b d =
      let rest = balloc_logs_from n (b + 1) d in
      if block_bit sb b d == 0 then bblock sb b ∷ b ∷ [] else rest

  unfoldable pub balloc_logs : Blocks → List ℕ
  unfolding balloc_logs_from
  balloc_logs d = balloc_logs_from sb.size 0 d

  unfoldable pub own_logs : ℕ → Inode → Blocks → List ℕ
  own_logs i ip d = if ip.addrs i == 0 then balloc_logs d else []

  -- The indirect block is logged if it gets an entry.
  unfoldable pub listed_logs : ℕ → ℕ → Blocks → List ℕ
  listed_logs block j d =
      if word d block j == 0
      then balloc_logs d ++ (if (balloc sb d).0 == 0 then [] else block ∷ [])
      else []

  unfoldable pub indirect_logs : ℕ → ℕ × Inode × Blocks → List ℕ
  indirect_logs j (a, ip, d) = if a == 0 then [] else listed_logs a j d

  unfoldable pub bmap_logs : ℕ → Inode → Blocks → List ℕ
  bmap_logs bn ip d =
      if ltb bn ndirect
      then own_logs bn ip d
      else own_logs ndirect ip d ++ indirect_logs (bn - ndirect) (own_block sb ndirect ip d)

  -- A block that is there is found, without a change and without a call of log_write.
  pub bmap_present :
      (bn : ℕ) (ip : Inode) (d : Blocks)
      → bn < maxfile
      → slot ip d (slot_of bn) ≢ 0
      → (bmap sb bn ip d ≡ some (slot ip d (slot_of bn), ip, d)) × (bmap_logs bn ip d ≡ [])
  unfolding bmap own_block listed_block indirect bmap_logs own_logs indirect_logs listed_logs
  bmap_present bn ip d h n = elim (Bool-cases (ltb bn ndirect)) [
    | inl t ↦
        let e : slot ip d (slot_of bn) ≡ ip.addrs bn =
          ap (slot ip d) (rw t refl) ∙ slot_low ip d bn (ground arith) in
        let u : (ip.addrs bn == 0) ≡ false = (let m = n in ground arith) in
        let f : bmap sb bn ip d ≡ some (ip.addrs bn, ip, d) = rw (t, u) refl in
        (f ∙ ap (λ a. some (a, ip, d)) (sym e), rw (t, u) refl)
    | inr t ↦
        let s : slot_of bn ≡ bn + 1 = rw t refl in
        let v : ltb (bn - ndirect) nindirect ≡ true = ground arith in
        elim (ℕ_discrete (ip.addrs 12) 0) [
          | yes z ↦ absurd (n (ap (slot ip d) s ∙ slot_none ip d (bn + 1) (ground arith) z))
          | no z ↦
              let e : slot ip d (slot_of bn) ≡ word d (ip.addrs 12) (bn + 1 - 13) =
                ap (slot ip d) s ∙ slot_high ip d (bn + 1) (ground arith) z in
              let q : bn + 1 - 13 ≡ bn - 12 = omega arith in
              let e' : slot ip d (slot_of bn) ≡ word d (ip.addrs 12) (bn - 12) =
                e ∙ ap (word d (ip.addrs 12)) q in
              let u : (ip.addrs 12 == 0) ≡ false = ground arith in
              let w : (word d (ip.addrs 12) (bn - 12) == 0) ≡ false = nonzero (λ y. n (e' ∙ y)) in
              let f : bmap sb bn ip d ≡ some (word d (ip.addrs 12) (bn - 12), ip, d) =
                rw (t, v, u, u, w) refl in
              (f ∙ ap (λ a. some (a, ip, d)) (sym e'), rw (t, u, u, w) refl)
        ]
  ]
    where
      nonzero : {a : ℕ} → a ≢ 0 → (a == 0) ≡ false
      nonzero y = ground arith
