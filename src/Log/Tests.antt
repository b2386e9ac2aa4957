-- ===== src/Log/Tests.antt =====
-- kernel/log.c: runs of the log at concrete inputs, and the theorems at such inputs.
use lab_so.Prelude.{
  Bool, ℕ, ◌<◌, ◌≡◌, refl, inr, true, false, none, some, [], ◌∷◌, ltb, if◌then◌else◌, length,
  update, arith,
}
use lab_so.Prelude.Int.{pos}
use lab_so.Log.Defs.{
  Disk, Log, bread, bwrite, write_log_from, commit, recover_from_log, begin_op, end_op_start,
  log_write, initlog,
}
use lab_so.Log.Crash.{Ready, power_on, reboots, commit_crash_atomic, commit_durable}
use lab_so.Log.Space.{
  idle, to_commit, Ops, Reach, here, next, begin, finish, log_never_full, commit_alone,
}

abbrev two_blocks : Log
two_blocks = record {
  start = 2;
  size = 35;
  outstanding = pos 0;
  committing = true;
  lh = 50 ∷ 60 ∷ [];
  pinned = update (update (λ _. none) 50 (some (7 ∷ []))) 60 (some (8 ∷ []));
}

abbrev disk_with : ℕ → Disk
disk_with p = record { header = []; blocks = λ b. b ∷ []; power = p }

two_blocks-Ready : (p : ℕ) → Ready two_blocks (disk_with p)
two_blocks-Ready p = record {
  clear = refl;
  homes = (inr (omega arith), (inr (omega arith), tt));
  fits = omega arith;
  logged = λ b h. ground arith;
}

-- Three writes reach the disk: both log blocks and the header. The recovery after it is cut too.
commit_crash_atomic_example :
    let r =
      recover_from_log 2 (power_on 35 (reboots 2 (1 ∷ []) (commit two_blocks (disk_with 3)).1)) in
    (r.header ≡ [])
    × (r.blocks 50 ≡ (
        if ltb (length two_blocks.lh) 3
        then bread two_blocks.pinned (disk_with 3) 50
        else (disk_with 3).blocks 50))
commit_crash_atomic_example =
    commit_crash_atomic two_blocks (disk_with 3) (1 ∷ []) 35 50 (two_blocks-Ready 3) (omega arith)
      (inr (omega arith))

commit_durable_example :
    let (l', d') = commit two_blocks (disk_with 70) in
    (l'.lh ≡ [])
    × (d'.header ≡ [])
    × (d'.blocks 60 ≡ bread two_blocks.pinned (disk_with 70) 60)
    × (bread l'.pinned d' 60 ≡ bread two_blocks.pinned (disk_with 70) 60)
commit_durable_example =
    commit_durable two_blocks (disk_with 70) 60 (two_blocks-Ready 70) (omega arith)
      (inr (omega arith))

-- The crash before the header is out loses both blocks, the crash after it none.
crash_before :
    (recover_from_log 2 (power_on 9 (commit two_blocks (disk_with 2)).1)).blocks 50 ≡ 50 ∷ []
unfolding recover_from_log commit bread bwrite write_log_from
crash_before = refl

crash_after :
    (recover_from_log 2 (power_on 9 (commit two_blocks (disk_with 4)).1)).blocks 60 ≡ 8 ∷ []
unfolding recover_from_log commit bread bwrite write_log_from
crash_after = refl

abbrev fresh : Log
fresh = record {
  start = 2;
  size = 35;
  outstanding = pos 0;
  committing = false;
  lh = [];
  pinned = λ _. none;
}

fresh-initlog : (initlog 2 35 (disk_with 3)).0 ≡ fresh
unfolding initlog
fresh-initlog = refl

abbrev started : Ops
started = record { log = fresh; credits = []; phase = idle }

abbrev begun : Ops
begun = record { log = record fresh { outstanding = pos 1 }; credits = 10 ∷ []; phase = idle }

begun-Reach : Reach begun
unfolding begin_op
begun-Reach =
    next
      (here {s = started} (record {
        no_calls = refl;
        no_phase = refl;
        not_committing = refl;
        empty = refl;
        no_credits = refl;
        room = omega arith;
      }))
      (begin refl)

log_never_full_example :
    (0 < 10 → (l : Log) × (log_write 50 [] begun.log ≡ some l))
    × ((r : Log × Bool) × (end_op_start begun.log ≡ some r))
log_never_full_example = log_never_full 50 [] [] 10 [] begun-Reach refl

-- The call ends, and commits.
abbrev ending : Ops
ending = record { log = record fresh { committing = true }; credits = []; phase = to_commit }

ending-Reach : Reach ending
unfolding end_op_start
ending-Reach = next begun-Reach (finish [] 10 [] {l = ending.log} {do_commit = true} refl refl)

commit_alone_example :
    (ending.credits ≡ []) × (begin_op ending.log ≡ none) × (end_op_start ending.log ≡ none)
commit_alone_example = commit_alone ending-Reach (λ e. cc)
