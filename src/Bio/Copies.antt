-- ===== src/Bio/Copies.antt =====
-- kernel/bio.c: the cache through any calls, and that it holds a block once.
use lab_so.Prelude.{
  ℕ, zero, suc, ◌<◌, ◌≡◌, ◌≢◌, refl, sym, ◌∙◌, ap, subst, inl, inr, true, false, Option, none, some,
  List, [], ◌∷◌, All, ◌==◌, ltb, update_eq, update_other, mem, Bool-cases, ℕ_discrete, arith,
}
use lab_so.Bio.Defs.{
  Sleeplock, Buf, Cache, link, releasesleep, binit, is_block, more, less, recycle, change, bget,
  acquiresleep, fill, bread_locked, unlink, brelse_start, brelse_end, bpin, bunpin,
}
use lab_so.Bio.Search.{Got, Absent, bget_lem}

-- The calls, each up to where it lets go of `bcache.lock` or waits for the lock of a buffer. Device 0 is
-- no disk (ROOTDEV is 1).
pub data Step (nbuf : ℕ) (c : Cache) : Cache → Type 0 where
  get :
      (dev blockno : ℕ) {i : ℕ} {c' : Cache}
      → dev ≢ 0
      → bget dev blockno c ≡ some (i, c')
      → Step nbuf c c'
  read :
      (me : ℕ) (disk : ℕ → ℕ → ℕ) (i : ℕ) {c' : Cache}
      → bread_locked me disk i c ≡ some c'
      → Step nbuf c c'
  write : (i bytes : ℕ) → Step nbuf c (change i (λ b. record b { bytes = bytes }) c)
  unlock : (me i : ℕ) {c' : Cache} → brelse_start me i c ≡ some c' → Step nbuf c c'
  unuse : (i : ℕ) → i < nbuf → Step nbuf c (brelse_end i c)
  pin : (i : ℕ) → Step nbuf c (bpin i c)
  unpin : (i : ℕ) → Step nbuf c (bunpin i c)

pub data Reach (nbuf : ℕ) : Cache → Type 0 where
  start : Reach nbuf (binit nbuf)
  next : {c c' : Cache} → Reach nbuf c → Step nbuf c c' → Reach nbuf c'

abbrev SameBlock : Buf → Buf → Type 0
SameBlock a b = (a.dev ≡ b.dev) × (a.blockno ≡ b.blockno)

record Inv (nbuf : ℕ) (c : Cache) : Type 0 where
  listed : (j : ℕ) → mem j c.order ≡ ltb j nbuf
  once : (i j : ℕ) → i < nbuf → j < nbuf → (c.buf i).dev ≢ 0 → SameBlock (c.buf i) (c.buf j) → i ≡ j

All-mem {ℓ} : (P : ℕ → Type ℓ) (xs : List ℕ) (j : ℕ) → All P xs → mem j xs ≡ true → P j
All-mem P [] j a h = cc
All-mem P (x ∷ xs) j a h = elim (ℕ_discrete x j) [
  | yes e ↦ subst P e a.0
  | no n ↦ All-mem P xs j a.1 (ground arith)
]

mem-unlink : (i : ℕ) (xs : List ℕ) (j : ℕ) → i ≢ j → mem j (unlink i xs) ≡ mem j xs
unfolding unlink
mem-unlink i [] j n = refl
mem-unlink i (x ∷ xs) j n = let h = mem-unlink i xs j n in ground arith

mem-link : (n j : ℕ) → mem j (link n) ≡ ltb j n
unfolding link
mem-link zero j = ground arith
mem-link (suc n) j = let h = mem-link n j in ground arith

-- The buffers keep their blocks, the list its members.
Inv-same :
    (nbuf : ℕ) (c c' : Cache)
    → Inv nbuf c
    → ((j : ℕ) → mem j c'.order ≡ mem j c.order)
    → ((j : ℕ) → SameBlock (c'.buf j) (c.buf j))
    → Inv nbuf c'
Inv-same nbuf c c' inv m k = record {
  listed = λ j. m j ∙ inv.listed j;
  once = λ i j a b d s.
      inv.once i j a b (λ e. d ((k i).0 ∙ e))
        (sym (k i).0 ∙ s.0 ∙ (k j).0, sym (k i).1 ∙ s.1 ∙ (k j).1);
}

SameBlock-change :
    (c : Cache) (i : ℕ) (f : Buf → Buf)
    → ((b : Buf) → SameBlock (f b) b)
    → (j : ℕ) → SameBlock ((change i f c).buf j) (c.buf j)
unfolding change
SameBlock-change c i f h j = elim (ℕ_discrete i j) [
  | yes e ↦
      rw (update_eq c.buf i j (f (c.buf i)) e)
        (subst (λ x. SameBlock (f (c.buf i)) (c.buf x)) e (h (c.buf i)))
  | no n ↦ rw (update_other c.buf i j (f (c.buf i)) n) (refl, refl)
]

order-change : (c : Cache) (i : ℕ) (f : Buf → Buf) → (change i f c).order ≡ c.order
unfolding change
order-change c i f = refl

Inv-change :
    (nbuf : ℕ) (c : Cache) (i : ℕ) (f : Buf → Buf)
    → ((b : Buf) → SameBlock (f b) b)
    → Inv nbuf c
    → Inv nbuf (change i f c)
Inv-change nbuf c i f h inv =
    Inv-same nbuf c (change i f c) inv (λ j. ap (mem j) (order-change c i f))
      (SameBlock-change c i f h)

SameBlock-fill : (disk : ℕ → ℕ → ℕ) (b : Buf) → SameBlock (fill disk b) b
unfolding fill
SameBlock-fill disk b = (ground arith, ground arith)

Inv-release : (nbuf : ℕ) (c : Cache) (i : ℕ) → i < nbuf → Inv nbuf c → Inv nbuf (brelse_end i c)
unfolding brelse_end less
Inv-release nbuf c i h inv = elim (Bool-cases (((change i less c).buf i).refcnt == 0)) [
  | inl b ↦ rw b (
      Inv-same nbuf c (record (change i less c) { order = i ∷ unlink i c.order }) inv (λ j. moved j)
        blocks)
  | inr b ↦ rw b (Inv-change nbuf c i less (λ b. (refl, refl)) inv)
]
  where
    blocks : (j : ℕ) → SameBlock ((change i less c).buf j) (c.buf j)
    blocks j = SameBlock-change c i less (λ b. (refl, refl)) j

    moved : (j : ℕ) → mem j (i ∷ unlink i c.order) ≡ mem j c.order
    moved j = elim (ℕ_discrete i j) [
      | yes e ↦ let m = inv.listed j in ground arith
      | no n ↦ let m = mem-unlink i c.order j n in ground arith
    ]

-- The buffer `i` is given a block that none holds.
Inv-fresh :
    (nbuf dev blockno i : ℕ) (c c' : Cache)
    → Inv nbuf c
    → Absent dev blockno c.buf c.order
    → SameBlock (c'.buf i) (recycle dev blockno (c.buf i))
    → ((j : ℕ) → i ≢ j → c'.buf j ≡ c.buf j)
    → c'.order ≡ c.order
    → Inv nbuf c'
unfolding recycle is_block
Inv-fresh nbuf dev blockno i c c' inv a s o q = record {
  listed = λ j. ap (mem j) q ∙ inv.listed j;
  once = λ x y hx hy d k. elim (ℕ_discrete i x) [
    | yes e ↦ elim (ℕ_discrete i y) [
      | yes f ↦ sym e ∙ f
      | no f ↦ absurd (clash y hy (subst (λ z. SameBlock (c'.buf z) (c'.buf y)) (sym e) k) f)
    ]
    | no e ↦ elim (ℕ_discrete i y) [
      | yes f ↦
          absurd
            (clash x hx (subst (λ z. SameBlock (c'.buf z) (c'.buf x)) (sym f) (sym k.0, sym k.1)) e)
      | no f ↦ let k' = rw (o x e, o y f) at k in inv.once x y hx hy (rw (o x e) at d) k'
    ]
  ];
}
  where
    clash : (y : ℕ) → y < nbuf → SameBlock (c'.buf i) (c'.buf y) → i ≢ y → ⊥
    clash y h k n =
        let z =
          All-mem (λ j. is_block dev blockno (c.buf j) ≡ false) c.order y a
            (let l = inv.listed y in ground arith) in
        let k' = rw (o y n) at k in ground (arith, s, k', z)

some-eq : (x y : Cache) → some x ≡ some y → y ≡ x
some-eq x y e = cc

Inv-read :
    (nbuf me : ℕ) (disk : ℕ → ℕ → ℕ) (i : ℕ) (c c' : Cache)
    → bread_locked me disk i c ≡ some c'
    → Inv nbuf c
    → Inv nbuf c'
unfolding bread_locked
Inv-read nbuf me disk i c c' e inv = go (acquiresleep me (c.buf i).lock) e
  where
    go :
        (r : Option Sleeplock)
        → (elim r [
          | none ↦ none
          | some lk ↦ some (change i (λ b. fill disk (record b { lock = lk })) c)
        ])
          ≡ some c'
        → Inv nbuf c'
    go none e = cc
    go (some lk) e = rw (some-eq (change i (λ b. fill disk (record b { lock = lk })) c) c' e) (
        Inv-change nbuf c i (λ b. fill disk (record b { lock = lk }))
          (λ b. SameBlock-fill disk (record b { lock = lk })) inv)

Inv-unlock :
    (nbuf me i : ℕ) (c c' : Cache) → brelse_start me i c ≡ some c' → Inv nbuf c → Inv nbuf c'
unfolding brelse_start
Inv-unlock nbuf me i c c' e inv =
    let d = change i (λ b. record b { lock = releasesleep b.lock }) c in
    let q : c' ≡ d = ground arith in
    rw q
      (Inv-change nbuf c i (λ b. record b { lock = releasesleep b.lock }) (λ b. (refl, refl)) inv)

Inv-get :
    (nbuf dev blockno i : ℕ) (c c' : Cache)
    → Got dev blockno c (some (i, c'))
    → Inv nbuf c
    → Inv nbuf c'
unfolding more recycle
Inv-get nbuf dev blockno i c c' (inl (f, q), o, r) inv =
    Inv-same nbuf c c' inv (λ j. ap (mem j) r)
      (λ j. elim (ℕ_discrete i j) [
        | yes e ↦ subst (λ x. SameBlock (c'.buf x) (c.buf x)) e (rw q (refl, refl))
        | no n ↦ rw (o j n) (refl, refl)
      ])
Inv-get nbuf dev blockno i c c' (inr (a, u, q), o, r) inv =
    Inv-fresh nbuf dev blockno i c c' inv a (rw q (refl, refl)) o r

Step-Inv : {nbuf : ℕ} {c c' : Cache} → Step nbuf c c' → Inv nbuf c → Inv nbuf c'
unfolding more less bpin bunpin
Step-Inv {nbuf} {c} {c'} (get dev blockno {i} d e) inv =
    Inv-get nbuf dev blockno i c c' (subst (Got dev blockno c) e (bget_lem dev blockno c)) inv
Step-Inv {nbuf} {c} {c'} (read me disk i e) inv = Inv-read nbuf me disk i c c' e inv
Step-Inv {nbuf} {c} (write i bytes) inv =
    Inv-change nbuf c i (λ b. record b { bytes = bytes }) (λ b. (refl, refl)) inv
Step-Inv {nbuf} {c} {c'} (unlock me i e) inv = Inv-unlock nbuf me i c c' e inv
Step-Inv {nbuf} {c} (unuse i h) inv = Inv-release nbuf c i h inv
Step-Inv {nbuf} {c} (pin i) inv = Inv-change nbuf c i more (λ b. (refl, refl)) inv
Step-Inv {nbuf} {c} (unpin i) inv = Inv-change nbuf c i less (λ b. (refl, refl)) inv

Reach-Inv : {nbuf : ℕ} {c : Cache} → Reach nbuf c → Inv nbuf c
unfolding binit
Reach-Inv {nbuf} start = record {
  listed = λ j. mem-link nbuf j;
  once = λ i j a b d s. absurd (d refl);
}
Reach-Inv (next r st) = Step-Inv st (Reach-Inv r)

-- In every state that calls of bget, bread, brelse, bpin and bunpin reach from binit, at most one buffer
-- of the array holds a given block of a disk; it is on the list, and the list has only buffers of the
-- array.
pub one_copy :
    {nbuf : ℕ} {c : Cache}
    → Reach nbuf c
    → (i j : ℕ) → i < nbuf
    → j < nbuf
    → (c.buf i).dev ≢ 0
    → (c.buf i).dev ≡ (c.buf j).dev
    → (c.buf i).blockno ≡ (c.buf j).blockno
    → (i ≡ j) × (mem i c.order ≡ true) × ((k : ℕ) → mem k c.order ≡ true → k < nbuf)
one_copy {nbuf} {c} r i j a b d e f =
    let inv = Reach-Inv r in
    (
      inv.once i j a b d (e, f),
      (let l = inv.listed i in ground arith),
      λ k m. (let l = inv.listed k in ground arith),
    )
