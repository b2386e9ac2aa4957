-- ===== src/Log/Defs.antt =====
-- kernel/log.c (so24lab3g02): the log in memory, the disk that it writes, and its operations.
-- A disk write is atomic. `power` is the number of writes that reach the disk before the machine
-- stops: at 0 a write is lost, so a run with `power = k` leaves the disk of a crash after k writes.
use lab_so.Prelude.{
  ℕ, zero, suc, ◌+◌, ◌-◌, ◌*◌, Bool, true, false, ◌||◌, Option, none, some, List, [], ◌∷◌, ◌++◌,
  ltb, leb, if◌then◌else◌, length, update, mem,
}
use lab_so.Prelude.Int.{ℤ, pos, ◌+ℤ◌, ◌-ℤ◌, ◌==ℤ◌, pos_part, neg_part, ltb_ℤ}

-- The bytes of a block: they are only moved.
abbrev pub Data : Type 0
Data = List ℕ

abbrev pub maxopblocks : ℕ
maxopblocks = 10

abbrev pub logsize : ℕ
logsize = 30

-- `header` is the block at `log.start`, read as `struct logheader`: the first `n` entries of `block`.
pub record Disk : Type 0 where
  pub header : List ℕ
  pub blocks : ℕ → Data
  pub power : ℕ

-- `struct log` without `lock` and `dev`; `lh` has the first `lh.n` entries of `lh.block`.
-- `pinned` is the cached copy of a block that is modified and not yet written home.
pub record Log : Type 0 where
  pub start : ℕ
  pub size : ℕ
  pub outstanding : ℤ
  pub committing : Bool
  pub lh : List ℕ
  pub pinned : ℕ → Option Data

-- bio.c `bread`: the cached copy of a modified block, else the disk's.
unfoldable pub bread : (ℕ → Option Data) → Disk → ℕ → Data
bread pinned d b = elim (pinned b) [ none ↦ d.blocks b | some v ↦ v ]

-- bio.c `bwrite`.
unfoldable pub bwrite : ℕ → Data → Disk → Disk
bwrite b v d = elim d.power [
  | zero ↦ d
  | suc p ↦ record d { blocks = update d.blocks b v; power = p }
]

unfoldable pub write_head : List ℕ → Disk → Disk
write_head lh d = elim d.power [ zero ↦ d | suc p ↦ record d { header = lh; power = p } ]

module _ (start : ℕ) where
  -- The loop of `install_trans` from `tail` on: log block to home block.
  unfoldable pub install_from : ℕ → List ℕ → Disk → Disk
  install_from tail [] d = d
  install_from tail (b ∷ bs) d =
      install_from (tail + 1) bs (bwrite b (d.blocks (start + tail + 1)) d)

  -- The loop of `write_log` from `tail` on: cached block to log block.
  unfoldable pub write_log_from : (ℕ → Option Data) → ℕ → List ℕ → Disk → Disk
  write_log_from pinned tail [] d = d
  write_log_from pinned tail (b ∷ bs) d =
      write_log_from pinned (tail + 1) bs (bwrite (start + tail + 1) (bread pinned d b) d)

  unfoldable pub install_trans : List ℕ → Disk → Disk
  install_trans lh d = install_from 0 lh d

  unfoldable pub write_log : (ℕ → Option Data) → List ℕ → Disk → Disk
  write_log pinned lh d = write_log_from pinned 0 lh d

  -- `read_head`, then `install_trans(1)`, then an empty header.
  unfoldable pub recover_from_log : Disk → Disk
  unfolding install_trans install_from write_head
  recover_from_log d = write_head [] (install_trans d.header d)

-- `bunpin` of each block of the transaction.
unfoldable pub unpin : List ℕ → (ℕ → Option Data) → ℕ → Option Data
unpin lh pinned b = if mem b lh then none else pinned b

unfoldable pub commit : Log → Disk → Log × Disk
unfolding write_log install_trans write_head unpin
commit l d =
    if ltb 0 (length l.lh)
    then (
      record l { lh = []; pinned = unpin l.lh l.pinned },
      write_head []
          (install_trans l.start l.lh (write_head l.lh (write_log l.start l.pinned l.lh d))),
    )
    else (l, d)

-- `initlog`: the fields from the superblock, and recovery.
unfoldable pub initlog : ℕ → ℕ → Disk → Log × Disk
unfolding recover_from_log
initlog logstart nlog d = (
  record {
    start = logstart;
    size = nlog;
    outstanding = pos 0;
    committing = false;
    lh = [];
    pinned = λ _. none;
  },
  recover_from_log logstart d,
)

-- `log.lh.n + (log.outstanding + 1) * MAXOPBLOCKS > LOGSIZE`
unfoldable pub no_room : Log → Bool
no_room l =
    let o = l.outstanding +ℤ pos 1 in
    ltb (logsize + neg_part o * maxopblocks) (length l.lh + pos_part o * maxopblocks)

-- One round of the loop of `begin_op`: `none` is a call of `sleep`, after which the loop starts again.
unfoldable pub begin_op : Log → Option Log
unfolding no_room
begin_op l =
    if l.committing
    then none
    else if no_room l
    then none
    else some (record l { outstanding = l.outstanding +ℤ pos 1 })

-- end_op up to where it lets go of the lock, and `do_commit`. `none` is the panic "log.committing".
unfoldable pub end_op_start : Log → Option (Log × Bool)
end_op_start l =
    let l' = record l { outstanding = l.outstanding -ℤ pos 1 } in
    if l.committing
    then none
    else if l'.outstanding ==ℤ pos 0
    then some (record l' { committing = true }, true)
    else some (l', false)

-- The end of end_op after commit, which runs without the lock, if `do_commit`.
unfoldable pub end_op_end : Log → Log
end_op_end l = record l { committing = false }

-- The caller has put `v` into the buffer of block `b`. `none` is a panic: "too big a transaction" or
-- "log_write outside of trans".
unfoldable pub log_write : ℕ → Data → Log → Option Log
log_write b v l =
    if leb logsize (length l.lh) || leb (l.size - 1) (length l.lh)
    then none
    else if ltb_ℤ l.outstanding (pos 1)
    then none
    else some (record l {
      lh = if mem b l.lh then l.lh else l.lh ++ b ∷ [];
      pinned = update l.pinned b (some v);
    })
