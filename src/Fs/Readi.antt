-- ===== src/Fs/Readi.antt =====
-- kernel/fs.c: readi.
use lab_so.Prelude.{
  ℕ, zero, suc, ◌+◌, ◌-◌, ◌/◌, ◌%◌, ◌^◌, Bool, not, ◌||◌, Option, none, some, ◌==◌, if◌then◌else◌,
  ltb, leb,
}
use lab_so.Log.{Log}
use lab_so.Fs.Defs.{bsize, Superblock, Blocks}
use lab_so.Fs.Content.{Inode, bmap}
use lab_so.Fs.Logged.{bmap_logs, log_all}
use lab_so.Fs.Writei.{laid_over, piece}

-- What a call returns, -1 as `none`; the bytes at `dst`, the inode, the blocks and the log.
abbrev pub Reading : Type 0
Reading = Option ℕ × (ℕ → ℕ) × Inode × Blocks × Log

-- The loop runs on the bytes left; a round reads a byte at least.
module _ (sb : Superblock) where
  -- The loop, with `left` bytes to read at `off` to `out` from `tot` on. `copies tot m` says whether
  -- either_copyout takes the `m` bytes of a round; `none` is a panic, of bmap or of log_write, which bmap
  -- calls where the file has a hole. What a copy that fails has written is left out.
  unfoldable pub read_blocks :
      ℕ → (ℕ → ℕ → Bool) → ℕ → ℕ → ℕ → (ℕ → ℕ) → Inode → Blocks → Log → Option Reading
  read_blocks zero copies tot left off out ip d l = some (some tot, out, ip, d, l)
  read_blocks (suc fuel) copies tot left off out ip d l =
      if left == 0
      then some (some tot, out, ip, d, l)
      else elim (log_all (bmap_logs sb (off / bsize) ip d) l) [
        | none ↦ none
        | some l' ↦ elim (bmap sb (off / bsize) ip d) [
          | none ↦ none
          | some (addr, ip', d') ↦
              let m = piece off left in
              let rest =
                read_blocks fuel copies (tot + m) (left - m) (off + m)
                  (laid_over tot m (off % bsize) (d' addr) out) ip' d' l' in
              if addr == 0
              then some (some tot, out, ip', d', l')
              else if not (copies tot m)
              then some (none, out, ip', d', l')
              else rest
        ]
      ]

  unfoldable pub readi : (ℕ → ℕ → Bool) → ℕ → ℕ → (ℕ → ℕ) → Inode → Blocks → Log → Option Reading
  unfolding read_blocks
  readi copies off n out ip d l =
      if ltb ip.size off || leb (2 ^ 32) (off + n)
      then some (some 0, out, ip, d, l)
      else (let n' = if ltb ip.size (off + n) then ip.size - off else n in
          read_blocks n' copies 0 n' off out ip d l)
