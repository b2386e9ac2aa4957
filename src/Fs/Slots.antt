-- ===== src/Fs/Slots.antt =====
-- kernel/fs.c: the block numbers of an inode, as one row of slots, and the bytes of its file.
use lab_so.Prelude.{
  ℕ, ◌+◌, ◌-◌, ◌*◌, ◌/◌, ◌%◌, ◌^◌, ◌≤◌, ◌<◌, ◌≡◌, ◌≢◌, refl, ◌∙◌, true, false, ◌==◌, if◌then◌else◌,
  ltb, arith,
}
use lab_so.Fs.Defs.{bsize, Blocks, put}
use lab_so.Fs.Bitmap.{put_self, put_block, put_other}
use lab_so.Fs.Content.{ndirect, Inode, word, put_word}

-- Slots 0 to 11 are the direct blocks, 12 the indirect block, 13 to 268 its entries.
unfoldable pub slot : Inode → Blocks → ℕ → ℕ
slot ip d j =
    if ltb j 13 then ip.addrs j else if ip.addrs 12 == 0 then 0 else word d (ip.addrs 12) (j - 13)

pub slot_low : (ip : Inode) (d : Blocks) (j : ℕ) → j < 13 → slot ip d j ≡ ip.addrs j
unfolding slot
slot_low ip d j h = let t : ltb j 13 ≡ true = ground arith in rw t refl

pub slot_none : (ip : Inode) (d : Blocks) (j : ℕ) → 13 ≤ j → ip.addrs 12 ≡ 0 → slot ip d j ≡ 0
unfolding slot
slot_none ip d j h e =
    let t : ltb j 13 ≡ false = ground arith in
    let u : (ip.addrs 12 == 0) ≡ true = ground arith in rw (t, u) refl

pub slot_high :
    (ip : Inode) (d : Blocks) (j : ℕ)
    → 13 ≤ j
    → ip.addrs 12 ≢ 0
    → slot ip d j ≡ word d (ip.addrs 12) (j - 13)
unfolding slot
slot_high ip d j h e =
    let t : ltb j 13 ≡ false = ground arith in
    let u : (ip.addrs 12 == 0) ≡ false = ground arith in rw (t, u) refl

-- The slot of block `bn` of the file.
abbrev pub slot_of : ℕ → ℕ
slot_of bn = if ltb bn ndirect then bn else bn + 1

-- The byte `i` of block `a`; a hole has zeros.
abbrev pub byte_in : Blocks → ℕ → ℕ → ℕ
byte_in d a i = if a == 0 then 0 else d a i

-- The byte `k` of the file.
abbrev pub content : Inode → Blocks → ℕ → ℕ
content ip d k = byte_in d (slot ip d (slot_of (k / bsize))) (k % bsize)

-- A word that has been put, and the others.
pub word-put_word_other :
    (p j v : ℕ) (d : Blocks) (k : ℕ) → j ≢ k → word (put_word p j v d) p k ≡ word d p k
word-put_word_other p j v d k n =
    let at : (i : ℕ)
        → 4 * j ≢ i
        → 4 * j + 1 ≢ i
        → 4 * j + 2 ≢ i
        → 4 * j + 3 ≢ i
        → put_word p j v d p i ≡ d p i =
      λ i a b c e.
        put_other p (4 * j + 3) (v / 16777216 % 256)
          (put p (4 * j + 2) (v / 65536 % 256)
            (put p (4 * j + 1) (v / 256 % 256) (put p (4 * j) (v % 256) d)))
          p i e
        ∙ put_other p (4 * j + 2) (v / 65536 % 256)
            (put p (4 * j + 1) (v / 256 % 256) (put p (4 * j) (v % 256) d)) p i c
        ∙ put_other p (4 * j + 1) (v / 256 % 256) (put p (4 * j) (v % 256) d) p i b
        ∙ put_other p (4 * j) (v % 256) d p i a in
    let e0 = at (4 * k) (omega arith) (omega arith) (omega arith) (omega arith) in
    let e1 = at (4 * k + 1) (omega arith) (omega arith) (omega arith) (omega arith) in
    let e2 = at (4 * k + 2) (omega arith) (omega arith) (omega arith) (omega arith) in
    let e3 = at (4 * k + 3) (omega arith) (omega arith) (omega arith) (omega arith) in omega arith

pub word-put_word_self : (p j v : ℕ) (d : Blocks) → v < 2 ^ 32 → word (put_word p j v d) p j ≡ v
word-put_word_self p j v d h =
    let d0 = put p (4 * j) (v % 256) d in
    let d1 = put p (4 * j + 1) (v / 256 % 256) d0 in
    let d2 = put p (4 * j + 2) (v / 65536 % 256) d1 in
    let e3 : put_word p j v d p (4 * j + 3) ≡ v / 16777216 % 256 =
      put_self p (4 * j + 3) (v / 16777216 % 256) d2 p (4 * j + 3) refl refl in
    let e2 : put_word p j v d p (4 * j + 2) ≡ v / 65536 % 256 =
      put_other p (4 * j + 3) (v / 16777216 % 256) d2 p (4 * j + 2) (omega arith)
      ∙ put_self p (4 * j + 2) (v / 65536 % 256) d1 p (4 * j + 2) refl refl in
    let e1 : put_word p j v d p (4 * j + 1) ≡ v / 256 % 256 =
      put_other p (4 * j + 3) (v / 16777216 % 256) d2 p (4 * j + 1) (omega arith)
      ∙ put_other p (4 * j + 2) (v / 65536 % 256) d1 p (4 * j + 1) (omega arith)
      ∙ put_self p (4 * j + 1) (v / 256 % 256) d0 p (4 * j + 1) refl refl in
    let e0 : put_word p j v d p (4 * j) ≡ v % 256 =
      put_other p (4 * j + 3) (v / 16777216 % 256) d2 p (4 * j) (omega arith)
      ∙ put_other p (4 * j + 2) (v / 65536 % 256) d1 p (4 * j) (omega arith)
      ∙ put_other p (4 * j + 1) (v / 256 % 256) d0 p (4 * j) (omega arith)
      ∙ put_self p (4 * j) (v % 256) d p (4 * j) refl refl in
    omega arith

pub put_word_block : (p j v : ℕ) (d : Blocks) (q i : ℕ) → p ≢ q → put_word p j v d q i ≡ d q i
put_word_block p j v d q i n =
    put_block p (4 * j + 3) (v / 16777216 % 256)
      (put p (4 * j + 2) (v / 65536 % 256)
        (put p (4 * j + 1) (v / 256 % 256) (put p (4 * j) (v % 256) d)))
      q i n
    ∙ put_block p (4 * j + 2) (v / 65536 % 256)
        (put p (4 * j + 1) (v / 256 % 256) (put p (4 * j) (v % 256) d)) q i n
    ∙ put_block p (4 * j + 1) (v / 256 % 256) (put p (4 * j) (v % 256) d) q i n
    ∙ put_block p (4 * j) (v % 256) d q i n
