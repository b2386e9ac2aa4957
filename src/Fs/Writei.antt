-- ===== src/Fs/Writei.antt =====
-- kernel/fs.c: writei.
use lab_so.Prelude.{
  ℕ, zero, suc, ◌+◌, ◌-◌, ◌*◌, ◌/◌, ◌%◌, ◌^◌, ◌&&◌, ◌||◌, Option, none, some, [], ◌==◌,
  if◌then◌else◌, ltb, leb, min, update,
}
use lab_so.Log.{Log, log_write}
use lab_so.Fs.Defs.{bsize, Superblock, Blocks}
use lab_so.Fs.Content.{maxfile, Inode, bmap}
use lab_so.Fs.Logged.{bmap_logs, log_all}

-- The bytes of `m` from `i` on are those of `src` from `tot` on.
abbrev pub laid_over : ℕ → ℕ → ℕ → (ℕ → ℕ) → (ℕ → ℕ) → ℕ → ℕ
laid_over i m tot src old k = if leb i k && ltb k (i + m) then src (tot + (k - i)) else old k

-- `min(n - tot, BSIZE - off%BSIZE)`
unfoldable pub piece : ℕ → ℕ → ℕ
piece off left = min left (bsize - off % bsize)

-- How writei ends: it returns -1, or panics, or returns how many bytes it wrote.
pub data WriteEnd : Type 0 where
  refused panicked : WriteEnd
  wrote : ℕ → Inode → Blocks → Log → WriteEnd

-- The loop runs on the bytes left; a round writes a byte at least.
module _ (sb : Superblock) where
  -- The loop of writei, with `left` bytes of `src` from `tot` on to write at `off`. `fetch tot m` is either_copyin
  -- of the `m` bytes of a round: `none` if it gives them all, `some p` if it fails once it has put `p` of them
  -- into the block, which is then not logged. How many are written, the inode, the blocks and the log; `none` is
  -- a panic, of bmap or of log_write.
  unfoldable pub write_from :
      ℕ
      → (ℕ → ℕ → Option ℕ)
      → (ℕ → ℕ)
      → ℕ
      → ℕ
      → ℕ
      → Inode
      → Blocks
      → Log
      → Option (ℕ × Inode × Blocks × Log)
  write_from zero fetch src tot left off ip d l = some (tot, ip, d, l)
  write_from (suc fuel) fetch src tot left off ip d l =
      if left == 0
      then some (tot, ip, d, l)
      else elim (log_all (bmap_logs sb (off / bsize) ip d) l) [
        | none ↦ none
        | some l1 ↦ elim (bmap sb (off / bsize) ip d) [
          | none ↦ none
          | some (addr, ip', d') ↦
              let m = piece off left in
              if addr == 0 then some (tot, ip', d', l1) else elim (fetch tot m) [
                | none ↦ elim (log_write addr [] l1) [
                  | none ↦ none
                  | some l2 ↦
                      write_from fuel fetch src (tot + m) (left - m) (off + m) ip'
                        (update d' addr (laid_over (off % bsize) m tot src (d' addr))) l2
                ]
                | some p ↦ some (
                  tot,
                  ip',
                  update d' addr (laid_over (off % bsize) (min p m) tot src (d' addr)),
                  l1,
                )
              ]
        ]
      ]

  -- `iblock` is the block of the inode, which iupdate logs; what it puts there is left out.
  unfoldable pub writei : (ℕ → ℕ → Option ℕ) → (ℕ → ℕ) → ℕ → ℕ → ℕ → Inode → Blocks → Log → WriteEnd
  writei fetch src iblock off n ip d l =
      if ltb ip.size off || leb (2 ^ 32) (off + n)
      then refused
      else if ltb (maxfile * bsize) (off + n)
      then refused
      else elim (write_from n fetch src 0 n off ip d l) [
        | none ↦ panicked
        | some (tot, ip', d', l1) ↦ elim (log_write iblock [] l1) [
          | none ↦ panicked
          | some l2 ↦
              wrote tot (if ltb ip'.size (off + tot) then record ip' { size = off + tot } else ip')
                d' l2
        ]
      ]
