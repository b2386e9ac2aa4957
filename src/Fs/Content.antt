-- ===== src/Fs/Content.antt =====
-- kernel/fs.c: the blocks of an inode, and its bytes.
use lab_so.Prelude.{
  ℕ, ◌+◌, ◌-◌, ◌*◌, ◌/◌, ◌%◌, Option, none, some, ◌==◌, if◌then◌else◌, ltb, update,
}
use lab_so.Fs.Defs.{Superblock, Blocks, put, balloc}

-- NDIRECT and NINDIRECT
abbrev pub ndirect : ℕ
ndirect = 12

abbrev pub nindirect : ℕ
nindirect = 256

-- MAXFILE
abbrev pub maxfile : ℕ
maxfile = 268

-- The fields of `struct inode` that the content of a file uses.
pub record Inode : Type 0 where
  pub addrs : ℕ → ℕ
  pub size : ℕ

-- `a[j]` of the block as an array of uint, which are little-endian.
abbrev pub word : Blocks → ℕ → ℕ → ℕ
word d block j =
    d block (4 * j)
    + 256 * d block (4 * j + 1)
    + 65536 * d block (4 * j + 2)
    + 16777216 * d block (4 * j + 3)

abbrev pub put_word : ℕ → ℕ → ℕ → Blocks → Blocks
put_word block j v d = put block (4 * j + 3) (v / 16777216 % 256) (
    put block (4 * j + 2) (v / 65536 % 256)
      (put block (4 * j + 1) (v / 256 % 256) (put block (4 * j) (v % 256) d)))

-- The loops run on a bound on the bytes left; a round moves a byte at least.
module _ (sb : Superblock) where
  -- `if((addr = ip->addrs[i]) == 0){ … }` of bmap; a block number 0 is a failure.
  unfoldable pub own_block : ℕ → Inode → Blocks → ℕ × Inode × Blocks
  own_block i ip d =
      if ip.addrs i == 0
      then (let (a, d') = balloc sb d in
          if a == 0 then (0, ip, d') else (a, record ip { addrs = update ip.addrs i a }, d'))
      else (ip.addrs i, ip, d)

  -- The entry `j` of the indirect block, which bmap fills if it is 0.
  unfoldable pub listed_block : ℕ → ℕ → Inode → Blocks → ℕ × Inode × Blocks
  listed_block block j ip d =
      if word d block j == 0
      then (let (a, d') = balloc sb d in
          if a == 0 then (0, ip, d') else (a, ip, put_word block j a d'))
      else (word d block j, ip, d)

  -- bmap past NDIRECT, once the indirect block is there or not.
  unfoldable pub indirect : ℕ → ℕ × Inode × Blocks → ℕ × Inode × Blocks
  indirect j (a, ip, d) = if a == 0 then (0, ip, d) else listed_block a j ip d

  -- `none` is the panic "bmap: out of range".
  unfoldable pub bmap : ℕ → Inode → Blocks → Option (ℕ × Inode × Blocks)
  bmap bn ip d =
      if ltb bn ndirect
      then some (own_block bn ip d)
      else if ltb (bn - ndirect) nindirect
      then some (indirect (bn - ndirect) (own_block ndirect ip d))
      else none
