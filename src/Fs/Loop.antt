-- ===== src/Fs/Loop.antt =====
-- kernel/fs.c: the loop of writei.
use lab_so.Prelude.{
  ℕ, zero, suc, ◌+◌, ◌-◌, ◌*◌, ◌/◌, ◌%◌, ◌≤◌, ◌<◌, ◌≡◌, ◌≢◌, refl, sym, inl, inr, true, false, ◌==◌,
  Option, none, some, [], if◌then◌else◌, leb, min, update, length, Bool-cases, ℕ_discrete,
  Option-cases, arith,
}
use lab_so.Log.{Log}
use lab_so.Fs.Defs.{bsize, Superblock, Blocks}
use lab_so.Fs.Content.{maxfile, Inode}
use lab_so.Fs.Logged.{bmap_logs}
use lab_so.Fs.Room.{Room, needs_less, log_write-Room, log_all-Room, length-bmap_logs}
use lab_so.Fs.Slots.{slot_of, content}
use lab_so.Fs.Grow.{IsFile}
use lab_so.Fs.Bmap.{Found, bmap_lem}
use lab_so.Fs.Writei.{laid_over, piece, write_from}
use lab_so.Fs.Patch.{piece_fits}
use lab_so.Fs.Round.{Written, patch_none, stopped, cut, round-IsFile, continued}

-- The number of blocks that the `left` bytes at `off` lie in.
abbrev pub blocks_of : ℕ → ℕ → ℕ
blocks_of off left = if left == 0 then 0 else (off % bsize + left - 1) / bsize + 1

module _ (sb : Superblock) (fetch : ℕ → ℕ → Option ℕ) (src : ℕ → ℕ) where
  -- The loop panics only without room for six blocks for each block that the bytes lie in, and leaves the room
  -- that it does not take.
  abbrev pub Ends : ℕ → ℕ → ℕ → Inode → Blocks → Log → Option (ℕ × Inode × Blocks × Log) → Type 0
  Ends tot left off ip d l none = ¬ Room (6 * blocks_of off left) l
  Ends tot left off ip d l (some (done, ip', d', l')) =
      ((reach : ℕ) × Written sb fetch src tot left off ip d done reach ip' d')
      × ((k : ℕ) → Room (6 * blocks_of off left + k) l → Room k l')

  fewer_blocks :
      (off left : ℕ)
      → 0 < left
      → 1 + blocks_of (off + piece off left) (left - piece off left) ≤ blocks_of off left
  unfolding piece
  fewer_blocks off left h = elim (Bool-cases (leb left (bsize - off % bsize))) [
    | inl t ↦
        let e : left - min left (bsize - off % bsize) ≡ 0 = ground arith in
        let z : (left == 0) ≡ false = ground arith in rw (e, z) (omega arith)
    | inr t ↦
        let e : min left (bsize - off % bsize) ≡ bsize - off % bsize = ground arith in
        let z : (left == 0) ≡ false = ground arith in
        let y : (left - (bsize - off % bsize) == 0) ≡ false = ground arith in
        let a : (off + (bsize - off % bsize)) % bsize ≡ 0 = omega arith in
        let b : bsize - off % bsize < left = ground arith in rw (e, z, y, a) (omega arith)
  ]

  continues :
      (tot left off : ℕ) (ip : Inode) (d : Blocks) (l : Log) (some_left : 0 < left)
      (inside : off + left ≤ maxfile * bsize) (a : ℕ) (ip1 : Inode) (d1 : Blocks)
      (x : Found sb (slot_of (off / bsize)) ip d a ip1 d1) (nz : a ≢ 0) (l2 : Log)
      (r : Option (ℕ × Inode × Blocks × Log))
      → ((k : ℕ) → Room (6 + k) l → Room k l2)
      → Ends
          (tot + piece off left)
          (left - piece off left)
          (off + piece off left)
          ip1
          (update d1 a (laid_over (off % bsize) (piece off left) tot src (d1 a)))
          l2
          r
      → Ends tot left off ip d l r
  continues tot left off ip d l h i a ip1 d1 x nz l2 none g full =
      let few = fewer_blocks off left h in
      let rest = 6 * blocks_of (off + piece off left) (left - piece off left) in
      λ r. full (g rest (needs_less (6 + rest) (6 * blocks_of off left) l (omega arith) r))
  continues tot left off ip d l h i a ip1 d1 x nz l2 (some (done, ip', d', l')) g ((reach, y), w) =
      let few = fewer_blocks off left h in
      let rest = 6 * blocks_of (off + piece off left) (left - piece off left) in
      (
        (reach, continued sb fetch src tot left off ip d h i a ip1 d1 x nz done reach ip' d' y),
        λ k r. w k (
            g (rest + k)
              (needs_less (6 + (rest + k)) (6 * blocks_of off left + k) l (omega arith) r)),
      )

  write_from_none :
      (fuel tot left off : ℕ) (ip : Inode) (d : Blocks) (l : Log)
      → left ≡ 0
      → write_from sb fuel fetch src tot left off ip d l ≡ some (tot, ip, d, l)
  unfolding write_from
  write_from_none zero tot left off ip d l e = refl
  write_from_none (suc fuel) tot left off ip d l e =
      let t : (left == 0) ≡ true = ground arith in rw t refl

  pub write_from_lem :
      (fuel tot left off : ℕ) (ip : Inode) (d : Blocks) (l : Log)
      → left ≤ fuel
      → off + left ≤ maxfile * bsize
      → IsFile sb ip d
      → Ends tot left off ip d l (write_from sb fuel fetch src tot left off ip d l)
  unfolding write_from
  write_from_lem fuel tot zero off ip d l h i f = rw (write_from_none fuel tot 0 off ip d l refl) (
    (
      tot,
      record {
        file = f;
        bytes = λ k l. sym (patch_none sb fetch src off tot k (λ i. src (tot + i)) (content ip d));
        size = refl;
        least = omega arith;
        reached = omega arith;
        most = omega arith;
        cause = inl (omega arith, refl);
      },
    ),
    λ k r. needs_less k (6 * blocks_of off 0 + k) l (omega arith) r,
  )
  write_from_lem zero tot (suc left) off ip d l h i f = absurd (omega arith)
  write_from_lem (suc fuel) tot (suc left) off ip d l h i f =
      let some_left : 0 < suc left = omega arith in
      let t : (suc left == 0) ≡ false = ground arith in
      let few = fewer_blocks off (suc left) some_left in
      let five = length-bmap_logs sb (off / bsize) ip d in
      let n = length (bmap_logs sb (off / bsize) ip d) in
      let (a, ip1, d1, e, x) = bmap_lem sb (off / bsize) ip d (omega arith) f in
      let p = piece_fits off (suc left) some_left in
      let all = blocks_of off (suc left) in
      let further = blocks_of (off + piece off (suc left)) (suc left - piece off (suc left)) in
      elim (log_all-Room (bmap_logs sb (off / bsize) ip d) l) [
        | inl (q, full) ↦ rw (t, q) (λ r. full (needs_less n (6 * all) l (omega arith) r))
        | inr (l1, q, g) ↦
            let left_over : (k : ℕ) → Room (6 * all + k) l → Room k l1 =
              λ k r. g k (needs_less (n + k) (6 * all + k) l (omega arith) r) in
            elim (ℕ_discrete a 0) [
              | yes z ↦
                  let u : (a == 0) ≡ true = ground arith in
                  rw (t, q, e, u)
                    (
                      (
                        tot,
                        stopped sb fetch src tot (suc left) off ip d some_left i a ip1 d1 x
                            (x.full z),
                      ),
                      left_over,
                    )
              | no z ↦
                  let u : (a == 0) ≡ false = ground arith in
                  elim (Option-cases (fetch tot (piece off (suc left)))) [
                    | inr (b, w) ↦
                        rw (t, q, e, u, w)
                          (
                            (
                              tot + min b (piece off (suc left)),
                              cut sb fetch src tot (suc left) off ip d some_left i a ip1 d1 x z b w,
                            ),
                            left_over,
                          )
                    | inl w ↦ elim (log_write-Room a [] l1) [
                      | inl (v, full) ↦
                          rw (t, q, e, u, w, v)
                            (λ r. full (g 1 (needs_less (n + 1) (6 * all) l (omega arith) r)))
                      | inr (l2, v, g2) ↦
                          let d2 =
                            update d1 a
                              (laid_over (off % bsize) (piece off (suc left)) tot src (d1 a)) in
                          rw (t, q, e, u, w, v)
                            (continues tot (suc left) off ip d l some_left i a ip1 d1 x z l2
                              (write_from sb fuel fetch src (tot + piece off (suc left))
                                (suc left - piece off (suc left)) (off + piece off (suc left)) ip1
                                d2 l2)
                              (λ k r.
                                g2 k (g (suc k) (needs_less (n + suc k) (6 + k) l (omega arith) r)))
                              (write_from_lem fuel (tot + piece off (suc left))
                                (suc left - piece off (suc left)) (off + piece off (suc left)) ip1
                                d2 l2 (omega arith) (omega arith)
                                (round-IsFile sb fetch src tot (suc left) off ip d some_left i a ip1
                                  d1 x z (piece off (suc left)))))
                    ]
                  ]
            ]
      ]
