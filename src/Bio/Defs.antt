-- ===== src/Bio/Defs.antt =====
-- kernel/bio.c and kernel/sleeplock.c: the buffers in the array `bcache.buf`, which a position names, and
-- the list through next and prev as the positions from `head.next` to `head.prev`. `none` is a panic.
use lab_so.Prelude.{
  ℕ, zero, suc, ◌+◌, ◌-◌, ◌%◌, ◌^◌, Bool, true, false, ◌&&◌, Option, none, some, List, [], ◌∷◌,
  ◌==◌, if◌then◌else◌, update,
}

-- `struct sleeplock` less its spinlock and its name.
pub record Sleeplock : Type 0 where
  pub locked : Bool
  pub pid : ℕ

unfoldable pub initsleeplock : Sleeplock
initsleeplock = record { locked = false; pid = 0 }

-- One round of the loop of acquiresleep by the process `me`; `none` where it sleeps.
unfoldable pub acquiresleep : ℕ → Sleeplock → Option Sleeplock
acquiresleep me lk = if lk.locked then none else some (record { locked = true; pid = me })

unfoldable pub releasesleep : Sleeplock → Sleeplock
releasesleep lk = record { locked = false; pid = 0 }

unfoldable pub holdingsleep : ℕ → Sleeplock → Bool
holdingsleep me lk = lk.locked && lk.pid == me

-- `struct buf` less its links; `bytes` stands for its data.
pub record Buf : Type 0 where
  pub valid : Bool
  pub dev : ℕ
  pub blockno : ℕ
  pub lock : Sleeplock
  pub refcnt : ℕ
  pub bytes : ℕ

pub record Cache : Type 0 where
  pub buf : ℕ → Buf
  pub order : List ℕ

-- The loop of binit puts each buffer in front.
unfoldable pub link : ℕ → List ℕ
link zero = []
link (suc n) = n ∷ link n

-- The array is static, so its bytes are zero.
unfoldable pub binit : ℕ → Cache
unfolding link initsleeplock
binit nbuf = record {
  buf = λ i. record {
    valid = false;
    dev = 0;
    blockno = 0;
    lock = initsleeplock;
    refcnt = 0;
    bytes = 0;
  };
  order = link nbuf;
}

unfoldable pub is_block : ℕ → ℕ → Buf → Bool
is_block dev blockno b = b.dev == dev && b.blockno == blockno

-- The loop of bget from `head.next` on.
unfoldable pub find_block : ℕ → ℕ → (ℕ → Buf) → List ℕ → Option ℕ
find_block dev blockno buf [] = none
find_block dev blockno buf (i ∷ order) =
    let rest = find_block dev blockno buf order in
    if is_block dev blockno (buf i) then some i else rest

-- The loop of bget from `head.prev` back.
unfoldable pub find_unused : (ℕ → Buf) → List ℕ → Option ℕ
find_unused buf [] = none
find_unused buf (i ∷ order) = elim (find_unused buf order) [
  | some j ↦ some j
  | none ↦ if (buf i).refcnt == 0 then some i else none
]

-- `b->refcnt++` on a uint
unfoldable pub more : Buf → Buf
more b = record b { refcnt = (b.refcnt + 1) % 2 ^ 32 }

-- `b->refcnt--` on a uint
unfoldable pub less : Buf → Buf
less b = record b { refcnt = (b.refcnt + (2 ^ 32 - 1)) % 2 ^ 32 }

unfoldable pub recycle : ℕ → ℕ → Buf → Buf
recycle dev blockno b = record b { dev = dev; blockno = blockno; valid = false; refcnt = 1 }

unfoldable pub change : ℕ → (Buf → Buf) → Cache → Cache
change i f c = record c { buf = update c.buf i (f (c.buf i)) }

-- bget up to acquiresleep: the buffer, and the cache.
unfoldable pub bget : ℕ → ℕ → Cache → Option (ℕ × Cache)
bget dev blockno c = elim (find_block dev blockno c.buf c.order) [
  | some i ↦ some (i, change i more c)
  | none ↦ elim (find_unused c.buf c.order) [
    | some i ↦ some (i, change i (recycle dev blockno) c)
    | none ↦ none
  ]
]

-- The rest of bget, and of bread: a process that does not hold the lock of the buffer sleeps (`none`); one
-- that gets it fills the buffer from `disk dev blockno` if it is not valid.
unfoldable pub fill : (ℕ → ℕ → ℕ) → Buf → Buf
fill disk b = if b.valid then b else record b { bytes = disk b.dev b.blockno; valid = true }

unfoldable pub bread_locked : ℕ → (ℕ → ℕ → ℕ) → ℕ → Cache → Option Cache
unfolding acquiresleep
bread_locked me disk i c = elim (acquiresleep me (c.buf i).lock) [
  | none ↦ none
  | some lk ↦ some (change i (λ b. fill disk (record b { lock = lk })) c)
]

-- The block that goes to the disk.
unfoldable pub bwrite : ℕ → ℕ → Cache → Option (ℕ × ℕ × ℕ)
unfolding holdingsleep
bwrite me i c =
    if holdingsleep me (c.buf i).lock
    then some ((c.buf i).dev, (c.buf i).blockno, (c.buf i).bytes)
    else none

unfoldable pub unlink : ℕ → List ℕ → List ℕ
unlink i [] = []
unlink i (j ∷ order) = let rest = unlink i order in if j == i then order else j ∷ rest

-- brelse after releasesleep
unfoldable pub brelse_end : ℕ → Cache → Cache
brelse_end i c =
    let c' = change i less c in
    if (c'.buf i).refcnt == 0 then record c' { order = i ∷ unlink i c.order } else c'

-- brelse up to the end of releasesleep
unfoldable pub brelse_start : ℕ → ℕ → Cache → Option Cache
unfolding holdingsleep releasesleep
brelse_start me i c =
    if holdingsleep me (c.buf i).lock
    then some (change i (λ b. record b { lock = releasesleep b.lock }) c)
    else none

unfoldable pub bpin : ℕ → Cache → Cache
bpin i c = change i more c

unfoldable pub bunpin : ℕ → Cache → Cache
bunpin i c = change i less c
