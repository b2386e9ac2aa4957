-- ===== src/Bio/Search.antt =====
-- kernel/bio.c: which buffer bget takes.
use lab_so.Prelude.{
  ℕ, ◌+◌, ◌%◌, ◌^◌, ◌≡◌, ◌≢◌, refl, ap, ◌⊎◌, inl, inr, true, false, Option, none, some, List, [],
  ◌∷◌, ◌++◌, All, ◌==◌, if◌then◌else◌, update_self, update_ne, Bool-cases, arith,
}
use lab_so.Bio.Defs.{Buf, Cache, is_block, find_block, find_unused, more, recycle, change, bget}

-- `i` is the first buffer of the list that holds the block.
abbrev pub FirstCopy : ℕ → ℕ → (ℕ → Buf) → List ℕ → ℕ → Type 0
FirstCopy dev blockno buf order i =
    (xs : List ℕ) × (ys : List ℕ) × (order ≡ xs ++ (i ∷ ys))
    × (is_block dev blockno (buf i) ≡ true)
    × All (λ j. is_block dev blockno (buf j) ≡ false) xs

-- `i` is the buffer nearest to the end of the list that nobody uses.
abbrev pub LastUnused : (ℕ → Buf) → List ℕ → ℕ → Type 0
LastUnused buf order i =
    (xs : List ℕ) × (ys : List ℕ) × (order ≡ xs ++ (i ∷ ys))
    × ((buf i).refcnt ≡ 0)
    × All (λ j. (buf j).refcnt ≢ 0) ys

abbrev pub Absent : ℕ → ℕ → (ℕ → Buf) → List ℕ → Type 0
Absent dev blockno buf order = All (λ j. is_block dev blockno (buf j) ≡ false) order

abbrev Found : ℕ → ℕ → (ℕ → Buf) → List ℕ → Option ℕ → Type 0
Found dev blockno buf order none = Absent dev blockno buf order
Found dev blockno buf order (some i) = FirstCopy dev blockno buf order i

find_block_lem :
    (dev blockno : ℕ) (buf : ℕ → Buf) (order : List ℕ)
    → Found dev blockno buf order (find_block dev blockno buf order)
unfolding find_block
find_block_lem dev blockno buf [] = tt
find_block_lem dev blockno buf (i ∷ order) = elim (Bool-cases (is_block dev blockno (buf i))) [
  | inl b ↦ rw b ([], order, refl, b, tt)
  | inr b ↦ rw b (later (find_block dev blockno buf order) (find_block_lem dev blockno buf order) b)
]
  where
    later :
        (r : Option ℕ)
        → Found dev blockno buf order r
        → is_block dev blockno (buf i) ≡ false
        → Found dev blockno buf (i ∷ order) r
    later none f b = (b, f)
    later (some j) (xs, ys, e, k, a) b = (i ∷ xs, ys, ap (λ z. i ∷ z) e, k, (b, a))

abbrev Unused : (ℕ → Buf) → List ℕ → Option ℕ → Type 0
Unused buf order none = All (λ j. (buf j).refcnt ≢ 0) order
Unused buf order (some i) = LastUnused buf order i

find_unused_lem : (buf : ℕ → Buf) (order : List ℕ) → Unused buf order (find_unused buf order)
unfolding find_unused
find_unused_lem buf [] = tt
find_unused_lem buf (i ∷ order) = go (find_unused buf order) (find_unused_lem buf order)
  where
    go :
        (r : Option ℕ)
        → Unused buf order r
        → Unused buf
            (i ∷ order)
            (elim r [ some j ↦ some j | none ↦ if (buf i).refcnt == 0 then some i else none ])
    go none f = elim (Bool-cases ((buf i).refcnt == 0)) [
      | inl b ↦ rw b ([], order, refl, ground arith, f)
      | inr b ↦ rw b (ground arith, f)
    ]
    go (some j) (xs, ys, e, k, a) = (i ∷ xs, ys, ap (λ z. i ∷ z) e, k, a)

-- What bget does to the cache `c`.
abbrev pub Got : ℕ → ℕ → Cache → Option (ℕ × Cache) → Type 0
Got dev blockno c none = Absent dev blockno c.buf c.order × All (λ j. (c.buf j).refcnt ≢ 0) c.order
Got dev blockno c (some (i, c')) =
    ((FirstCopy dev blockno c.buf c.order i
        × (c'.buf i ≡ record (c.buf i) { refcnt = ((c.buf i).refcnt + 1) % 2 ^ 32 }))
      ⊎ (Absent dev blockno c.buf c.order
          × LastUnused c.buf c.order i
          × (c'.buf i
              ≡ record (c.buf i) { dev = dev; blockno = blockno; valid = false; refcnt = 1 })))
    × ((j : ℕ) → i ≢ j → c'.buf j ≡ c.buf j)
    × (c'.order ≡ c.order)

pub bget_lem : (dev blockno : ℕ) (c : Cache) → Got dev blockno c (bget dev blockno c)
unfolding bget change more recycle
bget_lem dev blockno c =
    go (find_block dev blockno c.buf c.order) (find_block_lem dev blockno c.buf c.order)
  where
    again :
        (r : Option ℕ)
        → Absent dev blockno c.buf c.order
        → Unused c.buf c.order r
        → Got dev blockno c
            (elim r [ some i ↦ some (i, change i (recycle dev blockno) c) | none ↦ none ])
    again none a u = (a, u)
    again (some i) a u = (
      inr (a, u, update_self c.buf i (recycle dev blockno (c.buf i))),
      λ j n. update_ne c.buf (recycle dev blockno (c.buf i)) n,
      refl,
    )

    go :
        (r : Option ℕ)
        → Found dev blockno c.buf c.order r
        → Got dev blockno c (elim r [
          | some i ↦ some (i, change i more c)
          | none ↦ elim (find_unused c.buf c.order) [
            | some i ↦ some (i, change i (recycle dev blockno) c)
            | none ↦ none
          ]
        ])
    go none a = again (find_unused c.buf c.order) a (find_unused_lem c.buf c.order)
    go (some i) f = (
      inl (f, update_self c.buf i (more (c.buf i))),
      λ j n. update_ne c.buf (more (c.buf i)) n,
      refl,
    )
