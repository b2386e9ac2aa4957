-- ===== src/Fs/Room.antt =====
-- kernel/fs.c: the room in the log that balloc and bmap take.
use lab_so.Prelude.{
  ℕ, zero, suc, ◌+◌, ◌-◌, ◌≤◌, ◌≡◌, refl, ◌⊎◌, inl, inr, false, ◌||◌, none, some, List, [], ◌∷◌,
  ◌==◌, ltb, leb, mem, length, length-append, Bool-cases, arith,
}
use lab_so.Prelude.Int.{pos, ltb_ℤ}
use lab_so.Log.{Log, Data, logsize, log_write}
use lab_so.Fs.Defs.{Superblock, Blocks, block_bit, balloc}
use lab_so.Fs.Content.{ndirect, Inode, word, own_block}
use lab_so.Fs.Logged.{
  log_all, balloc_logs_from, balloc_logs, own_logs, listed_logs, indirect_logs, bmap_logs,
}

-- A transaction is open, and `k` more blocks can be logged.
pub record Room (k : ℕ) (l : Log) : Type 0 where
  pub inside : ltb_ℤ l.outstanding (pos 1) ≡ false
  pub listed : length l.lh + k ≤ logsize
  pub stored : length l.lh + k ≤ l.size - 1

pub needs_less : (j k : ℕ) (l : Log) → j ≤ k → Room k l → Room j l
needs_less j k l h r = record {
  inside = r.inside;
  listed = (let a = r.listed in omega arith);
  stored = (let a = r.stored in omega arith);
}

-- log_write panics only without room for a block, and takes the room of one.
pub log_write-Room :
    (b : ℕ) (v : Data) (l : Log)
    → ((log_write b v l ≡ none) × ¬ Room 1 l)
      ⊎ ((l' : Log) × (log_write b v l ≡ some l') × ((k : ℕ) → Room (suc k) l → Room k l'))
unfolding log_write
log_write-Room b v l =
    elim (Bool-cases (leb logsize (length l.lh) || leb (l.size - 1) (length l.lh))) [
      | inl t ↦ rw t (inl (refl, λ r. let a = r.listed in let c = r.stored in ground arith))
      | inr t ↦ elim (Bool-cases (ltb_ℤ l.outstanding (pos 1))) [
        | inl u ↦ rw (t, u) (inl (refl, λ r. let a = r.inside in ground arith))
        | inr u ↦
            rw (t, u)
              (elim (Bool-cases (mem b l.lh)) [
                | inl m ↦ rw m (
                    inr (
                      _,
                      refl,
                      λ k r. record {
                        inside = r.inside;
                        listed = (let a = r.listed in omega arith);
                        stored = (let a = r.stored in omega arith);
                      },
                    ))
                | inr m ↦ rw m (
                    inr (
                      _,
                      refl,
                      λ k r.
                          (let e = length-append l.lh (b ∷ []) in
                            record {
                              inside = r.inside;
                              listed = (let a = r.listed in omega arith);
                              stored = (let a = r.stored in omega arith);
                            }),
                    ))
              ])
      ]
    ]

pub log_all-Room :
    (bs : List ℕ) (l : Log)
    → ((log_all bs l ≡ none) × ¬ Room (length bs) l)
      ⊎ ((l' : Log) × (log_all bs l ≡ some l') × ((k : ℕ) → Room (length bs + k) l → Room k l'))
unfolding log_all
log_all-Room [] l = inr (l, refl, λ k r. needs_less k (0 + k) l (omega arith) r)
log_all-Room (b ∷ bs) l = elim (log_write-Room b [] l) [
  | inl (e, n) ↦
      rw (log_all, e) (inl (refl, λ r. n (needs_less 1 (suc (length bs)) l (omega arith) r)))
  | inr (l1, e, f) ↦
      rw (log_all, e)
        (elim (log_all-Room bs l1) [
          | inl (q, n) ↦ inl (q, λ r. n (f (length bs) r))
          | inr (l2, q, g) ↦ inr (
            l2,
            q,
            λ k r. g k (
                f (length bs + k)
                  (needs_less (suc (length bs + k)) (suc (length bs) + k) l (omega arith) r)),
          )
        ])
]

module _ (sb : Superblock) where
  length-balloc_logs_from : (n b : ℕ) (d : Blocks) → length (balloc_logs_from sb n b d) ≤ 2
  unfolding balloc_logs_from
  length-balloc_logs_from zero b d = omega arith
  length-balloc_logs_from (suc n) b d = elim (Bool-cases (block_bit sb b d == 0)) [
    | inl t ↦ rw t (omega arith)
    | inr t ↦ rw t (length-balloc_logs_from n (b + 1) d)
  ]

  length-balloc_logs : (d : Blocks) → length (balloc_logs sb d) ≤ 2
  unfolding balloc_logs
  length-balloc_logs d = length-balloc_logs_from sb.size 0 d

  length-own_logs : (i : ℕ) (ip : Inode) (d : Blocks) → length (own_logs sb i ip d) ≤ 2
  unfolding own_logs
  length-own_logs i ip d = elim (Bool-cases (ip.addrs i == 0)) [
    | inl t ↦ rw t (length-balloc_logs d)
    | inr t ↦ rw t (omega arith)
  ]

  length-indirect_logs : (j : ℕ) (r : ℕ × Inode × Blocks) → length (indirect_logs sb j r) ≤ 3
  unfolding indirect_logs listed_logs
  length-indirect_logs j (a, ip, d) = elim (Bool-cases (a == 0)) [
    | inl t ↦ rw t (omega arith)
    | inr t ↦ elim (Bool-cases (word d a j == 0)) [
      | inr u ↦ rw (t, u) (omega arith)
      | inl u ↦ elim (Bool-cases ((balloc sb d).0 == 0)) [
        | inl v ↦
            rw (t, u, v)
              (let h = length-balloc_logs d in
                let e = length-append (balloc_logs sb d) [] in omega arith)
        | inr v ↦
            rw (t, u, v)
              (let h = length-balloc_logs d in
                let e = length-append (balloc_logs sb d) (a ∷ []) in omega arith)
      ]
    ]
  ]

  pub length-bmap_logs : (bn : ℕ) (ip : Inode) (d : Blocks) → length (bmap_logs sb bn ip d) ≤ 5
  unfolding bmap_logs
  length-bmap_logs bn ip d = elim (Bool-cases (ltb bn ndirect)) [
    | inl t ↦ rw t (let h = length-own_logs bn ip d in omega arith)
    | inr t ↦
        let r = own_block sb ndirect ip d in
        let h = length-own_logs ndirect ip d in
        let k = length-indirect_logs (bn - ndirect) r in
        let e = length-append (own_logs sb ndirect ip d) (indirect_logs sb (bn - ndirect) r) in
        rw t (omega arith)
  ]
