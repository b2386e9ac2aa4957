-- ===== src/Fs/Write.antt =====
-- kernel/fs.c: writei puts its bytes into the file.
use lab_so.Prelude.{
  ℕ, ◌+◌, ◌-◌, ◌*◌, ◌^◌, ◌≤◌, ◌<◌, ◌≡◌, refl, ap, ◌∙◌, ◌⊎◌, inl, inr, true, false, ◌&&◌, ◌||◌,
  Option, none, some, [], if◌then◌else◌, ltb, leb, Bool-cases, arith,
}
use lab_so.Log.{Log, log_write}
use lab_so.Fs.Defs.{bsize, Superblock, Blocks}
use lab_so.Fs.Content.{maxfile, Inode}
use lab_so.Fs.Room.{Room, needs_less, log_write-Room}
use lab_so.Fs.Slots.{slot, content}
use lab_so.Fs.Grow.{IsFile}
use lab_so.Fs.Give.{Full}
use lab_so.Fs.Writei.{write_from, WriteEnd, refused, panicked, wrote, writei}
use lab_so.Fs.Patch.{patch}
use lab_so.Fs.Round.{Written}
use lab_so.Fs.Loop.{blocks_of, Ends, write_from_lem}

module _ (sb : Superblock) (fetch : ℕ → ℕ → Option ℕ) (src : ℕ → ℕ) where
  resized :
      (n : ℕ) (ip : Inode) (d : Blocks) → IsFile sb ip d → IsFile sb (record ip { size = n }) d
  unfolding slot
  resized n ip d f = record {
    fits = f.fits;
    in_use = f.in_use;
    apart = f.apart;
    single = f.single;
    bitmap = f.bitmap;
    boot = f.boot;
    small = f.small;
    room = f.room;
  }

  content_resized :
      (n : ℕ) (ip : Inode) (d : Blocks) (k : ℕ)
      → content (record ip { size = n }) d k ≡ content ip d k
  unfolding slot
  content_resized n ip d k = refl

  -- What writei does.
  abbrev pub Writes : ℕ → ℕ → Inode → Blocks → Log → WriteEnd → Type 0
  Writes off n ip d l panicked = ¬ Room (6 * blocks_of off n + 1) l
  Writes off n ip d l refused = (ip.size < off) ⊎ (2 ^ 32 ≤ off + n) ⊎ (maxfile * bsize < off + n)
  Writes off n ip d l (wrote done ip' d' l') =
      (off ≤ ip.size)
      × (off + n ≤ maxfile * bsize)
      × IsFile sb ip' d'
      × (ip'.size ≡ (if ltb ip.size (off + done) then off + done else ip.size))
      × ((reach : ℕ) × (done ≤ reach)
          × (reach ≤ n)
          × ((k : ℕ)
              → k < maxfile * bsize
              → content ip' d' k ≡ patch off reach src (content ip d) k)
          × (((done ≡ n) × (reach ≡ done))
              ⊎ ((m : ℕ) × (p : ℕ) × (fetch done m ≡ some p) × (reach ≤ done + p))
              ⊎ (Full sb d' × (reach ≡ done))))

  module _ (iblock off n : ℕ) (ip : Inode) (d : Blocks) (l : Log) (h : off ≤ ip.size)
      (fits : off + n ≤ maxfile * bsize) where
    -- The end of a call whose loop returned.
    closed :
        (done : ℕ) (ip' : Inode) (d' : Blocks) (l' : Log) (reach : ℕ)
        → Written sb fetch src 0 n off ip d done reach ip' d'
        → Writes off n ip d l (
            wrote done
              (if ltb ip'.size (off + done) then record ip' { size = off + done } else ip')
              d'
              l')
    closed done ip' d' l' reach y =
        let from_0 : reach - 0 ≡ reach = omega arith in
        let whole : (j : ℕ)
            → patch off (reach - 0) (λ i. src (0 + i)) (content ip d) j
              ≡ patch off reach src (content ip d) j =
          λ j.
            ap (λ m. patch off m (λ i. src (0 + i)) (content ip d) j) from_0
            ∙ (let z : 0 + (j - off) ≡ j - off = omega arith in
                ap (λ i. if leb off j && ltb j (off + reach) then src i else content ip d j) z) in
        let end_ : reach ≤ n = (let b = y.most in omega arith) in
        let why : ((done ≡ n) × (reach ≡ done))
            ⊎ ((m : ℕ) × (p : ℕ) × (fetch done m ≡ some p) × (reach ≤ done + p))
            ⊎ (Full sb d' × (reach ≡ done)) =
          elim y.cause [ inl (e, q) ↦ inl (omega arith, q) | inr w ↦ inr w ] in
        elim (Bool-cases (ltb ip'.size (off + done))) [
          | inl t ↦
              let u : ltb ip.size (off + done) ≡ true = (let q = y.size in ground arith) in
              rw (t, u)
                (
                  h,
                  fits,
                  resized (off + done) ip' d' y.file,
                  refl,
                  (
                    reach,
                    y.reached,
                    end_,
                    (λ j b. content_resized (off + done) ip' d' j ∙ y.bytes j b ∙ whole j),
                    why,
                  ),
                )
          | inr t ↦
              let u : ltb ip.size (off + done) ≡ false = (let q = y.size in ground arith) in
              rw (t, u)
                (
                  h,
                  fits,
                  y.file,
                  y.size,
                  (reach, y.reached, end_, (λ j b. y.bytes j b ∙ whole j), why),
                )
        ]

    updated :
        (r : Option (ℕ × Inode × Blocks × Log))
        → Ends sb fetch src 0 n off ip d l r
        → Writes off n ip d l (elim r [
          | none ↦ panicked
          | some (tot, ip', d', l1) ↦ elim (log_write iblock [] l1) [
            | none ↦ panicked
            | some l2 ↦
                wrote tot
                  (if ltb ip'.size (off + tot) then record ip' { size = off + tot } else ip')
                  d'
                  l2
          ]
        ])
    updated none full =
        λ r. full (needs_less (6 * blocks_of off n) (6 * blocks_of off n + 1) l (omega arith) r)
    updated (some (done, ip', d', l1)) ((reach, y), w) = elim (log_write-Room iblock [] l1) [
      | inl (e, full) ↦ rw e (λ r. full (w 1 r))
      | inr (l2, e, g) ↦ rw e (closed done ip' d' l2 reach y)
    ]

  -- writei of `n` bytes of `src` at `off`, into a file on the disk. It panics only if no transaction is open, or
  -- the log lacks room for six blocks for each block that the bytes lie in, and one for the inode. It is refused
  -- only if it starts behind the end of the file, or if its end is above 2 ^ 32 or MAXFILE blocks, and else
  -- starts. If it returns, the file is well formed and its size is raised to the end of the bytes that it says
  -- are written. The bytes from `off` on are those of `src`, as many as it says, or more if a fetch failed
  -- midway, which leaves the bytes it got in the file; all others are as they were. It writes less than `n`
  -- bytes only if the fetch of the next fails or if no block of the disk is free.
  pub writei_lem :
      (iblock off n : ℕ) (ip : Inode) (d : Blocks) (l : Log)
      → IsFile sb ip d
      → Writes off n ip d l (writei sb fetch src iblock off n ip d l)
  unfolding writei
  writei_lem iblock off n ip d l f = elim (Bool-cases (ltb ip.size off || leb (2 ^ 32) (off + n))) [
    | inl t ↦ rw t (start_refused t)
    | inr t ↦ elim (Bool-cases (ltb (maxfile * bsize) (off + n))) [
      | inl u ↦ rw (t, u) (inr (inr (ground arith)))
      | inr u ↦
          rw (t, u)
            (updated iblock off n ip d l (ground arith) (ground arith)
              (write_from sb n fetch src 0 n off ip d l)
              (write_from_lem sb fetch src n 0 n off ip d l (omega arith) (ground arith) f))
    ]
  ]
    where
      start_refused :
          (ltb ip.size off || leb (2 ^ 32) (off + n)) ≡ true
          → (ip.size < off) ⊎ (2 ^ 32 ≤ off + n) ⊎ (maxfile * bsize < off + n)
      start_refused t = elim (Bool-cases (ltb ip.size off)) [
        | inl u ↦ inl (ground arith)
        | inr u ↦ inr (inl (ground arith))
      ]
