-- ===== src/Bio/Tests.antt =====
-- kernel/bio.c: runs at concrete inputs, and the theorem at one.
use lab_so.Prelude.{ℕ, ◌≡◌, ◌<◌, ◌≢◌, refl, true, none, some, [], ◌∷◌, mem, arith}
use lab_so.Bio.Defs.{
  Cache, binit, link, find_block, find_unused, is_block, change, recycle, more, less, unlink, bget,
  brelse_end,
}
use lab_so.Bio.Copies.{Reach, start, next, get, one_copy}

abbrev fresh : Cache
fresh = binit 3

-- Block 7 of device 1 in the last buffer of the list, 0.
abbrev first : Cache
first = change 0 (recycle 1 7) fresh

bget_first : bget 1 7 fresh ≡ some (0, first)
unfolding bget binit link find_block find_unused is_block
bget_first = refl

bget_again : bget 1 7 first ≡ some (0, change 0 more first)
unfolding bget binit link find_block find_unused is_block change recycle
bget_again = refl

bget_other : bget 1 8 first ≡ some (1, change 1 (recycle 1 8) first)
unfolding bget binit link find_block find_unused is_block change recycle
bget_other = refl

no_buffers : bget 1 8 (change 0 more (binit 1)) ≡ none
unfolding bget binit link find_block find_unused is_block change more
no_buffers = refl

released : (brelse_end 0 first).order ≡ 0 ∷ 2 ∷ 1 ∷ []
unfolding brelse_end binit link unlink change recycle less
released = refl

block_of_first : ((first.buf 0).dev ≡ 1) × ((first.buf 0).dev ≢ 0)
unfolding change recycle
block_of_first = (refl, omega arith)

Reach-first : Reach 3 first
Reach-first = next start (get 1 7 (omega arith) bget_first)

one_copy_example :
    (◌≡◌ {A = ℕ} 0 0) × (mem 0 first.order ≡ true) × ((k : ℕ) → mem k first.order ≡ true → k < 3)
one_copy_example = one_copy Reach-first 0 0 (omega arith) (omega arith) block_of_first.1 refl refl
