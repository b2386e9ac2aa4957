-- ===== src/Log/Crash.antt =====
-- kernel/log.c: a commit is atomic under crashes, of itself and of the recoveries after it.
mod WriteLog
use lab_so.Prelude.{
  ℕ, zero, suc, ◌+◌, ◌-◌, ◌≤◌, ◌<◌, ◌≡◌, refl, sym, ap, ◌∙◌, ◌⊎◌, inl, inr, Bool, true, false,
  Option, none, some, List, [], ◌∷◌, ltb, if◌then◌else◌, length, update, mem, All, fun_ext, lt→ltb,
  arith, Bool-cases, Option-cases,
}
use lab_so.Log.Defs.{
  Data, Disk, Log, bread, bwrite, install_from, install_trans, write_log_from, write_log,
  write_head, recover_from_log, commit,
}
use lab_so.Log.Install.{
  IsHome, slot, overlay, slot-bounds, slot-some, install_from-header, install_from-power,
  install_from-unlisted, install_from-overlay, IsHome-unlisted,
}
use WriteLog.{
  write_log_from-header, write_log_from-power, write_log_from-outside, write_log_from-slot,
}

abbrev pub power_on : ℕ → Disk → Disk
power_on p d = record d { power = p }

-- The boots after a crash: each recovery stops when its number of writes has reached the disk.
abbrev pub reboots : ℕ → List ℕ → Disk → Disk
reboots start [] d = d
reboots start (p ∷ ps) d = reboots start ps (recover_from_log start (power_on p d))

-- A complete recovery from `d` gives the contents `want`.
pub record Recoverable (start size : ℕ) (want : ℕ → Data) (d : Disk) : Type 0 where
  pub homes : All (IsHome start size) d.header
  pub fits : length d.header < size
  pub target : (b : ℕ) → IsHome start size b → overlay start 0 d.header d.blocks b ≡ want b

write_head-cases :
    (lh : List ℕ) (d : Disk)
    → ((d.power ≡ 0) × (write_head lh d ≡ d))
      ⊎ ((0 < d.power) × (write_head lh d ≡ record d { header = lh; power = d.power - 1 }))
unfolding write_head
write_head-cases lh d = power_cases d.power refl
  where
    power_cases :
        (p : ℕ)
        → d.power ≡ p
        → ((d.power ≡ 0) × (write_head lh d ≡ d))
          ⊎ ((0 < d.power) × (write_head lh d ≡ record d { header = lh; power = d.power - 1 }))
    power_cases zero e = inl (e, ground arith)
    power_cases (suc p) e = inr (omega arith, ground arith)

module _ (start size : ℕ) (want : ℕ → Data) where
  overlay-install :
      (bs : List ℕ) (d : Disk) (b : ℕ)
      → All (IsHome start size) bs
      → length bs < size
      → overlay start 0 bs (install_from start 0 bs d).blocks b ≡ overlay start 0 bs d.blocks b
  overlay-install bs d b h lt = elim (Option-cases (slot 0 bs b)) [
    | inr (j, s) ↦ ground (
      arith,
      s,
      slot-bounds 0 bs b j s,
      install_from-unlisted start 0 bs d (start + j + 1),
      IsHome-unlisted start size (j + 1) bs h,
    )
    | inl n ↦ elim (Bool-cases (mem b bs)) [
      | inl listed ↦ let (j, s) = slot-some 0 bs b listed in cc
      | inr other ↦ ground (arith, n, install_from-unlisted start 0 bs d b other)
    ]
  ]

  installed :
      (d : Disk) (b : ℕ)
      → Recoverable start size want d
      → length d.header ≤ d.power
      → (install_from start 0 d.header d).blocks b ≡ overlay start 0 d.header d.blocks b
  installed d b r e =
      install_from-overlay start size 0 d.header d b r.homes (omega (arith, r.fits)) e

  -- A recovery that is cut short loses nothing.
  pub recover_from_log-Recoverable :
      (d : Disk)
      → Recoverable start size want d
      → Recoverable start size want (recover_from_log start d)
  unfolding recover_from_log
  recover_from_log-Recoverable d r =
      let e = install_from start 0 d.header d in
      elim (write_head-cases [] e) [
        | inl (p, same) ↦ rw same (record {
          homes = rw (install_from-header start 0 d.header d) r.homes;
          fits = rw (install_from-header start 0 d.header d) r.fits;
          target = λ b h.
              rw (install_from-header start 0 d.header d)
                (overlay-install d.header d b r.homes r.fits ∙ r.target b h);
        })
        | inr (p, same) ↦ rw same (record {
          homes = tt;
          fits = omega (arith, r.fits);
          target = λ b h.
              installed d b r (omega (arith, install_from-power start 0 d.header d)) ∙ r.target b h;
        })
      ]

  -- A recovery that is not cut short ends in the contents `want`, with an empty log.
  pub recover_from_log_complete :
      (d : Disk) (b : ℕ)
      → Recoverable start size want d
      → size ≤ d.power
      → IsHome start size b
      → ((recover_from_log start d).header ≡ []) × ((recover_from_log start d).blocks b ≡ want b)
  unfolding recover_from_log
  recover_from_log_complete d b r e h =
      let pw = install_from-power start 0 d.header d in
      elim (write_head-cases [] (install_from start 0 d.header d)) [
        | inl (p, same) ↦ absurd (omega (arith, r.fits))
        | inr (p, same) ↦ rw same (refl, installed d b r (omega (arith, r.fits)) ∙ r.target b h)
      ]

install_from-no_power :
    (start tail : ℕ) (bs : List ℕ) (d : Disk) → d.power ≡ 0 → install_from start tail bs d ≡ d
unfolding install_from bwrite
install_from-no_power start tail [] d e = refl
install_from-no_power start tail (b ∷ bs) d e =
    ground (arith, install_from-no_power start (tail + 1) bs d e)

mem-empty : (bs : List ℕ) (b : ℕ) → length bs ≡ 0 → mem b bs ≡ false
mem-empty [] b e = refl
mem-empty (c ∷ cs) b e = absurd (omega arith)

-- What holds of the log and the disk when `end_op` calls `commit`.
pub record Ready (l : Log) (d : Disk) : Type 0 where
  pub clear : d.header ≡ []
  pub homes : All (IsHome l.start l.size) l.lh
  pub fits : length l.lh < l.size
  pub logged : (b : ℕ) → mem b l.lh ≡ false → l.pinned b ≡ none

-- The contents that the disk has after `commit` was cut short: the new ones once the header is out.
abbrev pub committed : Log → Disk → ℕ → Data
committed l d = if ltb (length l.lh) d.power then bread l.pinned d else d.blocks

module _ (l : Log) (d : Disk) (ready : Ready l d) where
  open ready use {clear, homes, fits, logged}

  abbrev d1 : Disk
  d1 = write_log_from l.start l.pinned 0 l.lh d

  home_kept : (b : ℕ) → IsHome l.start l.size b → d1.blocks b ≡ d.blocks b
  home_kept b h = write_log_from-outside l.start l.pinned 0 l.lh d b (omega arith)

  Recoverable-old : Recoverable l.start l.size d.blocks d1
  Recoverable-old =
      let e = write_log_from-header l.start l.pinned 0 l.lh d ∙ clear in
      record { homes = rw e tt; fits = rw e (omega arith); target = λ b h. rw e (home_kept b h) }

  Recoverable-new :
      length l.lh < d.power
      → Recoverable l.start l.size
          (bread l.pinned d)
          (record d1 { header = l.lh; power = d1.power - 1 })
  unfolding bread
  Recoverable-new lt = record {
    homes = homes;
    fits = fits;
    target = λ b h. elim (Option-cases (slot 0 l.lh b)) [
      | inr (j, s) ↦ ground (
        arith,
        s,
        write_log_from-slot l.start l.pinned l.size 0 l.lh d b j h (omega arith) (omega arith) s,
      )
      | inl n ↦ elim (Bool-cases (mem b l.lh)) [
        | inl listed ↦ let (j, s) = slot-some 0 l.lh b listed in cc
        | inr other ↦ ground (arith, n, logged b other, home_kept b h)
      ]
    ];
  }

  committed-lost : d.power ≤ length l.lh → committed l d ≡ d.blocks
  committed-lost h = ground arith

  committed-power : l.size ≤ d.power → committed l d ≡ bread l.pinned d
  committed-power h = ground arith

  committed-empty : length l.lh ≡ 0 → committed l d ≡ d.blocks
  unfolding bread
  committed-empty e = fun_ext (λ b. ground (arith, logged b (mem-empty l.lh b e)))

  -- A crash in the middle of `commit` leaves the old contents or the new, to be recovered.
  commit-Recoverable : Recoverable l.start l.size (committed l d) (commit l d).1
  unfolding commit recover_from_log
  commit-Recoverable = elim (Bool-cases (ltb 0 (length l.lh))) [
    | inl some_blocks ↦ rw some_blocks (elim (write_head-cases l.lh d1) [
      | inl (p, same) ↦
          rw (same, install_from-no_power l.start 0 l.lh d1 p)
            (elim (write_head-cases [] d1) [
              | inl (_, same') ↦
                  rw
                    (
                      same',
                      committed-lost
                          (omega (arith, write_log_from-power l.start l.pinned 0 l.lh d)),
                    )
                    Recoverable-old
              | inr (q, _) ↦ absurd (omega arith)
            ])
      | inr (p, same) ↦
          let lt : length l.lh < d.power =
            omega (arith, write_log_from-power l.start l.pinned 0 l.lh d) in
          rw (same, lt→ltb _ _ lt)
            (recover_from_log-Recoverable l.start l.size (bread l.pinned d) _ (Recoverable-new lt))
    ])
    | inr no_block ↦
        rw (no_block, committed-empty (ground arith))
          (record {
            homes = rw clear tt;
            fits = rw clear (omega arith);
            target = λ b h. rw clear refl;
          })
  ]

  -- Without a crash `commit` brings the new contents home and empties the log.
  commit_complete :
      (b : ℕ)
      → l.size + l.size ≤ d.power
      → IsHome l.start l.size b
      → ((commit l d).1.header ≡ []) × ((commit l d).1.blocks b ≡ bread l.pinned d b)
  unfolding commit recover_from_log
  commit_complete b e h =
      let pw = write_log_from-power l.start l.pinned 0 l.lh d in
      elim (Bool-cases (ltb 0 (length l.lh))) [
        | inl some_blocks ↦ rw some_blocks (elim (write_head-cases l.lh d1) [
          | inl (p, _) ↦ absurd (omega arith)
          | inr (_, same) ↦ rw same (
              recover_from_log_complete l.start l.size (bread l.pinned d) _ b
                (Recoverable-new (omega arith)) (omega arith) h)
        ])
        | inr no_block ↦ rw no_block (
          clear,
          ap (λ f. f b) (sym (committed-empty (ground arith)))
              ∙ ap (λ f. f b) (committed-power (omega arith)),
        )
      ]

reboots-Recoverable :
    (start size : ℕ) (want : ℕ → Data) (crashes : List ℕ) (d : Disk)
    → Recoverable start size want d
    → Recoverable start size want (reboots start crashes d)
reboots-Recoverable start size want [] d r = r
reboots-Recoverable start size want (p ∷ ps) d r =
    reboots-Recoverable start size want ps (recover_from_log start (power_on p d)) (
      recover_from_log-Recoverable start size want (power_on p d)
        (record { homes = r.homes; fits = r.fits; target = r.target }))

committed-at :
    (l : Log) (d : Disk) (b : ℕ)
    → committed l d b ≡ (if ltb (length l.lh) d.power then bread l.pinned d b else d.blocks b)
committed-at l d b = ground arith

bread-unpinned :
    (pinned : ℕ → Option Data) (d : Disk) (b : ℕ) → pinned b ≡ none → bread pinned d b ≡ d.blocks b
unfolding bread
bread-unpinned pinned d b e = ground (arith, e)

length-zero : (bs : List ℕ) → length bs ≡ 0 → bs ≡ []
length-zero [] e = refl
length-zero (c ∷ cs) e = absurd (omega arith)

pinned-commit :
    (l : Log) (d : Disk)
    → Ready l d
    → (b : ℕ) → ((commit l d).0.lh ≡ []) × ((commit l d).0.pinned b ≡ none)
unfolding commit
pinned-commit l d ready b = elim (Bool-cases (ltb 0 (length l.lh))) [
  | inl some_blocks ↦ rw some_blocks (refl, ground (arith, ready.logged b))
  | inr no_block ↦
      let e : length l.lh ≡ 0 = ground arith in
      rw no_block (length-zero l.lh e, ready.logged b (mem-empty l.lh b e))
]

-- A commit is atomic. Let the log be ready, with room for its blocks outside the home blocks, and the
-- machine stop after any number of disk writes of `commit`, and again during any number of recoveries.
-- The first recovery that runs to its end leaves an empty log on disk and every home block with its
-- old contents, if at most as many writes reached the disk as the transaction has blocks, and with the
-- contents that the transaction gave it otherwise.
pub commit_crash_atomic :
    (l : Log) (d : Disk) (crashes : List ℕ) (p b : ℕ)
    → Ready l d
    → l.size ≤ p
    → IsHome l.start l.size b
    → let r = recover_from_log l.start (power_on p (reboots l.start crashes (commit l d).1)) in
      (r.header ≡ [])
      × (r.blocks b ≡ (if ltb (length l.lh) d.power then bread l.pinned d b else d.blocks b))
commit_crash_atomic l d crashes p b ready e h =
    let d' = reboots l.start crashes (commit l d).1 in
    let r =
      reboots-Recoverable l.start l.size (committed l d) crashes (commit l d).1
        (commit-Recoverable l d ready) in
    let (a, c) =
      recover_from_log_complete l.start l.size (committed l d) (power_on p d') b
        (record { homes = r.homes; fits = r.fits; target = r.target }) e h in
    (a, c ∙ committed-at l d b)

-- A commit that no crash interrupts (the machine has power for two writes for each block of the log)
-- leaves an empty log in memory and on disk, every home block on disk with its newest contents, and
-- changes nothing that a read through the cache returns.
pub commit_durable :
    (l : Log) (d : Disk) (b : ℕ)
    → Ready l d
    → l.size + l.size ≤ d.power
    → IsHome l.start l.size b
    → let (l', d') = commit l d in
      (l'.lh ≡ [])
      × (d'.header ≡ [])
      × (d'.blocks b ≡ bread l.pinned d b)
      × (bread l'.pinned d' b ≡ bread l.pinned d b)
commit_durable l d b ready e h =
    let (a, c) = commit_complete l d ready b e h in
    let (x, y) = pinned-commit l d ready b in
    (x, a, c, bread-unpinned (commit l d).0.pinned (commit l d).1 b y ∙ c)
