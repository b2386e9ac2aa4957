-- ===== src/Fs/Tests.antt =====
-- A disk of three blocks, with the bitmap in block 1.
use lab_so.Prelude.{
  ℕ, zero, suc, ◌+◌, ◌*◌, ◌<◌, ◌≡◌, ◌≢◌, refl, inl, inr, true, false, ltb, sym, subst, ap, ◌∙◌,
  Bool-cases, ◌==◌, if◌then◌else◌, none, some, Option, List, [], ◌∷◌, ◌/◌, arith,
}
use lab_so.Prelude.Int.{pos}
use lab_so.Log.{Log, log_write}
use lab_so.Fs.Defs.{Superblock, Blocks, block_bit, mark, bzero, balloc_from, balloc, bfree}
use lab_so.Fs.Content.{Inode, own_block, bmap}
use lab_so.Fs.Logged.{log_all, bmap_logs, own_logs, balloc_logs, balloc_logs_from}
use lab_so.Fs.Slots.{slot, slot_of, slot_low, slot_none}
use lab_so.Fs.Grow.{IsFile}
use lab_so.Fs.Writei.{piece, write_from, WriteEnd, panicked, wrote, writei}
use lab_so.Fs.Write.{Writes, writei_lem}
use lab_so.Fs.Readi.{read_blocks, readi}
use lab_so.Fs.Read.{Returned, readi_lem}
use lab_so.Fs.Bitmap.{MapUsed, Allocated, balloc_lem, Freed, bfree_lem}

abbrev small : Superblock
small = record { size = 3; bmapstart = 1 }

-- Blocks 0 and 1 are in use.
abbrev two_used : Blocks
two_used p i = if p == 1 then (if i == 0 then 3 else 0) else 7

small-MapUsed : MapUsed small two_used
small-MapUsed zero h = (omega arith, refl)
small-MapUsed (suc zero) h = (omega arith, refl)
small-MapUsed (suc (suc zero)) h = (omega arith, refl)
small-MapUsed (suc (suc (suc c))) h = absurd (omega arith)

third : (balloc small two_used).0 ≡ 2
unfolding balloc balloc_from
third = refl

balloc_lem_example : Allocated small 0 3 two_used (balloc small two_used)
balloc_lem_example = balloc_lem small two_used small-MapUsed

-- A block that is free cannot be freed.
free_again : bfree small 2 two_used ≡ none
unfolding bfree
free_again = refl

bfree_lem_example : Freed small 0 two_used (bfree small 0 two_used)
bfree_lem_example = bfree_lem small 0 two_used

-- A disk of four blocks, the last of which is free, and a file of 1022 bytes in block 2.
abbrev disk : Superblock
disk = record { size = 4; bmapstart = 1 }

abbrev three_used : Blocks
three_used p i = if p == 1 then (if i == 0 then 7 else 0) else 90

abbrev short : Inode
short = record { addrs = λ i. if i == 0 then 2 else 0; size = 1022 }

short-slot : (j : ℕ) → slot short three_used j ≡ (if j == 0 then 2 else 0)
short-slot j = elim (Bool-cases (ltb j 13)) [
  | inl t ↦ slot_low short three_used j (ground arith)
  | inr t ↦
      let e : (j == 0) ≡ false = ground arith in
      slot_none short three_used j (ground arith) refl ∙ sym (rw e refl)
]

first_only : (j : ℕ) → slot short three_used j ≢ 0 → j ≡ 0
first_only j n = elim (Bool-cases (j == 0)) [
  | inl t ↦ ground arith
  | inr t ↦ absurd (n (short-slot j ∙ (rw t refl)))
]

short_block : (j : ℕ) → slot short three_used j ≢ 0 → slot short three_used j ≡ 2
short_block j n =
    let t : (j == 0) ≡ true = (let e = first_only j n in ground arith) in short-slot j ∙ (rw t refl)

disk-MapUsed : MapUsed disk three_used
disk-MapUsed zero h = (omega arith, refl)
disk-MapUsed (suc zero) h = (omega arith, refl)
disk-MapUsed (suc (suc zero)) h = (omega arith, refl)
disk-MapUsed (suc (suc (suc zero))) h = (omega arith, refl)
disk-MapUsed (suc (suc (suc (suc c)))) h = absurd (omega arith)

short-IsFile : IsFile disk short three_used
short-IsFile = record {
  fits = λ j h n. subst (λ b. b < 4) (sym (short_block j n)) (omega arith);
  in_use = λ j h n. ap (λ b. block_bit disk b three_used) (short_block j n);
  apart = λ j c h l n e. (let w = short_block j n in omega arith);
  single = λ i j h l n e. first_only i n ∙ sym (first_only j (λ z. n (e ∙ z)));
  bitmap = disk-MapUsed;
  boot = refl;
  small = omega arith;
  room = omega arith;
}

abbrev letters : ℕ → ℕ
letters i = 97 + i

-- The log in a transaction, and outside of one.
abbrev open_log : Log
open_log = record {
  start = 6;
  size = 30;
  outstanding = pos 1;
  committing = false;
  lh = [];
  pinned = λ _. none;
}

abbrev closed_log : Log
closed_log = record open_log { outstanding = pos 0 }

abbrev gets_all : ℕ → ℕ → Option ℕ
gets_all t m = none

-- Four bytes end block 2; the others go to the block that was free. Blocks 2, 1 and 3 are logged, and 5, that
-- of the inode.
abbrev written : WriteEnd → ℕ × List ℕ
written (wrote n ip d l) = (n + 1000 * ip.addrs 1 + 10000 * ip.size, l.lh)
written w = (0, [])

eight_written :
    written (writei disk gets_all letters 5 1020 8 short three_used open_log)
    ≡ (10283008, 2 ∷ 1 ∷ 3 ∷ 5 ∷ [])
unfolding writei write_from piece bmap own_block balloc balloc_from mark bzero log_all log_write
    bmap_logs own_logs balloc_logs balloc_logs_from
eight_written = refl

panics_outside : writei disk gets_all letters 5 1020 8 short three_used closed_log ≡ panicked
unfolding writei write_from piece bmap own_block log_all log_write bmap_logs own_logs
panics_outside = refl

-- A fetch that fails after one byte: no byte is written, but one is changed.
abbrev byte_at : ℕ → WriteEnd → ℕ × ℕ
byte_at k (wrote n ip d l) = (n, d 2 k)
byte_at k w = (0, 0)

cut_short :
    byte_at 1000 (writei disk (λ t m. some 1) letters 5 1000 8 short three_used open_log) ≡ (0, 97)
unfolding writei write_from piece bmap own_block log_all log_write bmap_logs own_logs
cut_short = refl

writei_lem_example :
    Writes disk gets_all letters 1020 8 short three_used open_log
      (writei disk gets_all letters 5 1020 8 short three_used open_log)
writei_lem_example =
    writei_lem disk gets_all letters 5 1020 8 short three_used open_log short-IsFile

-- A read of a hole outside of a transaction panics, if a block is free.
hole_panics :
    readi disk (λ t m. true) 1024 8 (λ i. 0) (record short { size = 2048 }) three_used closed_log
    ≡ none
unfolding readi read_blocks bmap_logs own_logs balloc_logs balloc_logs_from log_all log_write
hole_panics = refl

short_no_holes : (k : ℕ) → k < 1022 → slot short three_used (slot_of (k / 1024)) ≢ 0
short_no_holes k h e =
    let z : k / 1024 ≡ 0 = omega arith in
    let w : slot short three_used (slot_of (k / 1024)) ≡ 2 =
      ap (λ j. slot short three_used (slot_of j)) z ∙ short-slot 0 in
    omega arith

readi_lem_example :
    (r : Option ℕ × (ℕ → ℕ)) × (readi disk
        (λ t m. true)
        1000
        100
        (λ i. 0)
        short
        three_used
        closed_log
      ≡ some (r.0, r.1, short, three_used, closed_log))
    × Returned disk (λ t m. true) 0 22 1000 (λ i. 0) short three_used r
readi_lem_example =
    readi_lem disk (λ t m. true) 1000 100 (λ i. 0) short three_used closed_log (omega arith)
      short_no_holes
