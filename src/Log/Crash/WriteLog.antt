-- ===== src/Log/Crash/WriteLog.antt =====
-- kernel/log.c: what `write_log` leaves on the disk.
use lab_so.Prelude.{
  ℕ, ◌+◌, ◌-◌, ◌≤◌, ◌<◌, ◌≡◌, refl, ◌≢◌, ◌⊎◌, inl, inr, Option, some, List, [], ◌∷◌, length, arith,
  Option-cases,
}
use lab_so.Log.Defs.{Data, Disk, bread, bwrite, write_log_from}
use lab_so.Log.Install.{IsHome, slot}

module _ (d : Disk) (k : ℕ) (v : Data) where
  bread-bwrite :
      (pinned : ℕ → Option Data) (b : ℕ) → k ≢ b → bread pinned (bwrite k v d) b ≡ bread pinned d b
  unfolding bread bwrite
  bread-bwrite pinned b h = ground arith

  blocks-bwrite : 0 < d.power → (bwrite k v d).blocks k ≡ v
  unfolding bwrite
  blocks-bwrite h = ground arith

  power-bwrite : (bwrite k v d).power ≡ d.power - 1
  unfolding bwrite
  power-bwrite = ground arith

module _ (start : ℕ) (pinned : ℕ → Option Data) where
  pub write_log_from-header :
      (tail : ℕ) (bs : List ℕ) (d : Disk)
      → (write_log_from start pinned tail bs d).header ≡ d.header
  unfolding write_log_from bwrite
  write_log_from-header tail [] d = refl
  write_log_from-header tail (b ∷ bs) d =
      ground (
        arith,
        write_log_from-header (tail + 1) bs (bwrite (start + tail + 1) (bread pinned d b) d),
      )

  pub write_log_from-power :
      (tail : ℕ) (bs : List ℕ) (d : Disk)
      → (write_log_from start pinned tail bs d).power ≡ d.power - length bs
  unfolding write_log_from bwrite
  write_log_from-power tail [] d = omega arith
  write_log_from-power tail (b ∷ bs) d =
      ground
        (arith, write_log_from-power (tail + 1) bs (bwrite (start + tail + 1) (bread pinned d b) d))

  -- Only the slots from `tail` on are written.
  pub write_log_from-outside :
      (tail : ℕ) (bs : List ℕ) (d : Disk) (b : ℕ)
      → (b ≤ start + tail) ⊎ (start + tail + length bs < b)
      → (write_log_from start pinned tail bs d).blocks b ≡ d.blocks b
  unfolding write_log_from bwrite
  write_log_from-outside tail [] d b h = refl
  write_log_from-outside tail (c ∷ cs) d b h = ground (
    arith,
    write_log_from-outside (tail + 1) cs (bwrite (start + tail + 1) (bread pinned d c) d) b,
  )

  -- With enough power each block of the transaction stands in its slot.
  pub write_log_from-slot :
      (size tail : ℕ) (bs : List ℕ) (d : Disk) (b j : ℕ)
      → IsHome start size b
      → tail + length bs < size
      → length bs ≤ d.power
      → slot tail bs b ≡ some j
      → (write_log_from start pinned tail bs d).blocks (start + j + 1) ≡ bread pinned d b
  unfolding write_log_from
  write_log_from-slot size tail [] d b j h lt e s = cc
  write_log_from-slot size tail (c ∷ cs) d b j h lt e s =
      let d' = bwrite (start + tail + 1) (bread pinned d c) d in
      let pw = power-bwrite d (start + tail + 1) (bread pinned d c) in
      elim (Option-cases (slot (tail + 1) cs b)) [
        | inr (i, t) ↦ ground (
          arith,
          t,
          write_log_from-slot size (tail + 1) cs d' b i h (omega arith) (omega arith) t,
          bread-bwrite d (start + tail + 1) (bread pinned d c) pinned b (omega arith),
        )
        | inl n ↦ ground (
          arith,
          n,
          write_log_from-outside (tail + 1) cs d' (start + tail + 1) (inl (omega arith)),
          blocks-bwrite d (start + tail + 1) (bread pinned d c) (omega arith),
        )
      ]
