-- ===== src/Fs/Defs.antt =====
-- kernel/fs.c: the blocks of the disk as seen through the buffer cache, as a function of the block and the
-- byte in it. bread gives the block, and log_write the changed one to all that follows.
use lab_so.Prelude.{
  ℕ, zero, suc, ◌+◌, ◌-◌, ◌/◌, ◌%◌, Option, none, some, ◌==◌, if◌then◌else◌, update,
}
use lab_so.Fs.Bits.{mask, bit}

-- BSIZE
abbrev pub bsize : ℕ
bsize = 1024

-- BPB
abbrev pub bpb : ℕ
bpb = 8192

-- The fields of `struct superblock` that fs.c uses.
pub record Superblock : Type 0 where
  pub size : ℕ
  pub bmapstart : ℕ

abbrev pub Blocks : Type 0
Blocks = ℕ → ℕ → ℕ

abbrev pub put : ℕ → ℕ → ℕ → Blocks → Blocks
put block i byte d = update d block (update (d block) i byte)

module _ (sb : Superblock) where
  -- `BBLOCK(b, sb)`
  abbrev pub bblock : ℕ → ℕ
  bblock b = b / bpb + sb.bmapstart

  -- The bit of block `b`, with `bi = b % BPB`: `bp->data[bi/8] & (1 << (bi % 8))`, 0 or 1.
  abbrev pub block_bit : ℕ → Blocks → ℕ
  block_bit b d = bit (b % bpb % 8) (d (bblock b) (b % bpb / 8))

  -- `bp->data[bi/8] |= m`, where the bit is 0
  unfoldable pub mark : ℕ → Blocks → Blocks
  mark b d = put (bblock b) (b % bpb / 8) (d (bblock b) (b % bpb / 8) + mask (b % bpb % 8)) d

  -- `bp->data[bi/8] &= ~m`, where the bit is 1
  unfoldable pub unmark : ℕ → Blocks → Blocks
  unmark b d = put (bblock b) (b % bpb / 8) (d (bblock b) (b % bpb / 8) - mask (b % bpb % 8)) d

  unfoldable pub bzero : ℕ → Blocks → Blocks
  bzero b d = update d b (λ _. 0)

  -- The loops of balloc from the block `b` on, with `n` blocks left: `b` is `b + bi` of the source. The
  -- number 0 is "out of blocks".
  unfoldable pub balloc_from : ℕ → ℕ → Blocks → ℕ × Blocks
  unfolding mark bzero
  balloc_from zero b d = (0, d)
  balloc_from (suc n) b d =
      let rest = balloc_from n (b + 1) d in
      if block_bit b d == 0 then (b, bzero b (mark b d)) else rest

  unfoldable pub balloc : Blocks → ℕ × Blocks
  unfolding balloc_from
  balloc d = balloc_from sb.size 0 d

  -- `none` is the panic "freeing free block".
  unfoldable pub bfree : ℕ → Blocks → Option Blocks
  unfolding unmark
  bfree b d = if block_bit b d == 0 then none else some (unmark b d)
