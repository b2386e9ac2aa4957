-- ===== src/Pipe/Queue.antt =====
-- kernel/pipe.c: a pipe is a queue of at most PIPESIZE bytes, over the wrap of its two counters.
use lab_so.Prelude.{
  ℕ, zero, suc, ◌+◌, ◌-◌, ◌%◌, ◌^◌, ◌≤◌, ◌<◌, ◌≡◌, refl, sym, ap, ap₂, ◌∙◌, ◌⊎◌, inl, inr, ◌↔◌,
  Bool, true, false, not, ◌&&◌, ◌||◌, Option, none, some, List, [], ◌∷◌, ◌++◌, ◌==◌, if◌then◌else◌,
  get_or, set, replicate, length, length-set, get_or-set_self, get_or-set_ne, append_assoc,
  append-nil, arith, Bool-cases,
}
use lab_so.Pipe.Defs.{
  pipesize, add_uint, Pipe, put_byte, get_byte, Run, returns, fails, sleeps, pipewrite, read_loop,
  Read, reads, read_fails, read_sleeps, piperead,
}

-- The bytes written and not yet read.
abbrev pub held : Pipe → ℕ
held pi = (pi.nwrite + 2 ^ 32 - pi.nread) % 2 ^ 32

abbrev pub window : List ℕ → ℕ → ℕ → List ℕ
window buf r zero = []
window buf r (suc n) = get_or buf (r % pipesize) 0 ∷ window buf (add_uint r 1) n

abbrev pub contents : Pipe → List ℕ
contents pi = window pi.buf pi.nread (held pi)

pub record IsValid (pi : Pipe) : Type 0 where
  pub storage : length pi.buf ≡ pipesize
  pub nread_fits : pi.nread < 2 ^ 32
  pub nwrite_fits : pi.nwrite < 2 ^ 32
  pub bounded : held pi ≤ pipesize

pub length-window : (buf : List ℕ) (r n : ℕ) → length (window buf r n) ≡ n
length-window buf r zero = refl
length-window buf r (suc n) = ap suc (length-window buf (add_uint r 1) n)

-- A write just past a window extends it.
window-set :
    (buf : List ℕ) (x n r i : ℕ)
    → length buf ≡ pipesize
    → n < pipesize
    → r < 2 ^ 32
    → i ≡ (r + n) % 2 ^ 32 % pipesize
    → window (set buf i x) r (suc n) ≡ window buf r n ++ x ∷ []
window-set buf x zero r i l lt fits e =
    let here : r % pipesize ≡ i = omega arith in
    rw here (ap (λ v. v ∷ []) (get_or-set_self buf i x 0 (omega arith)))
window-set buf x (suc n) r i l lt fits e =
    ap₂ ◌∷◌ (get_or-set_ne buf x 0 (omega arith))
      (window-set buf x n (add_uint r 1) i l (omega arith) (omega arith) (omega arith))

pub put_byte_lem :
    (ch : ℕ) (pi : Pipe)
    → IsValid pi
    → held pi < pipesize
    → IsValid (put_byte ch pi) × (contents (put_byte ch pi) ≡ contents pi ++ ch ∷ [])
unfolding put_byte
put_byte_lem ch pi v room =
    let more : held (put_byte ch pi) ≡ suc (held pi) = omega (arith, v.nread_fits, v.nwrite_fits) in
    (
      record {
        storage = length-set pi.buf (pi.nwrite % pipesize) ch ∙ v.storage;
        nread_fits = v.nread_fits;
        nwrite_fits = omega arith;
        bounded = omega (arith, more);
      },
      rw more (
          window-set pi.buf ch (held pi) pi.nread (pi.nwrite % pipesize) v.storage room v.nread_fits
            (omega (arith, v.nread_fits, v.nwrite_fits))),
    )

window-suc :
    (buf : List ℕ) (r n k : ℕ)
    → n ≡ suc k
    → window buf r n ≡ get_or buf (r % pipesize) 0 ∷ window buf (add_uint r 1) k
window-suc buf r n k e = ap (window buf r) e

pub get_byte_lem :
    (pi : Pipe)
    → IsValid pi
    → 0 < held pi
    → IsValid (get_byte pi).1 × (contents pi ≡ (get_byte pi).0 ∷ contents (get_byte pi).1)
unfolding get_byte
get_byte_lem pi v some_held =
    let less : held pi ≡ suc (held (get_byte pi).1) = omega (arith, v.nread_fits, v.nwrite_fits) in
    (
      record {
        storage = v.storage;
        nread_fits = omega arith;
        nwrite_fits = v.nwrite_fits;
        bounded = omega (arith, less, v.bounded);
      },
      window-suc pi.buf pi.nread (held pi) (held (get_byte pi).1) less,
    )

-- The tests of the code: the counters are equal exactly on an empty pipe, and PIPESIZE apart exactly
-- on a full one.
pub full_iff :
    (pi : Pipe)
    → IsValid pi
    → ((pi.nwrite == add_uint pi.nread pipesize) ≡ true) ↔ (held pi ≡ pipesize)
full_iff pi v = (λ h. ground arith, λ h. ground arith)

pub empty_iff : (pi : Pipe) → IsValid pi → ((pi.nread == pi.nwrite) ≡ true) ↔ (held pi ≡ 0)
empty_iff pi v = (λ h. ground arith, λ h. ground arith)

-- The bytes of rounds that write: the process is not killed, and copyin gives the byte.
abbrev pub Bytes : List (Bool × Option ℕ) → List ℕ → Type 0
Bytes [] [] = Unit
Bytes ((false, some ch) ∷ bs) (c ∷ chs) = (ch ≡ c) × Bytes bs chs
Bytes bs chs = ⊥

-- What a run of pipewrite has done, by how it ends: the bytes `chs` are written, and `rest` is left.
abbrev pub Ends : List (Bool × Option ℕ) → Pipe → Run → Pipe → Type 0
Ends rest pi (returns j) pi' =
    (rest ≡ []) ⊎ ((k : Bool) × (more : List (Bool × Option ℕ)) × (rest ≡ (k, none) ∷ more))
Ends rest pi (sleeps left j) pi' = (rest ≡ left) × (length (contents pi') ≡ pipesize)
Ends rest pi fails pi' =
    (k : Bool) × (b : Option ℕ) × (more : List (Bool × Option ℕ)) × (rest ≡ (k, b) ∷ more)
    × ((not pi.readopen || k) ≡ true)

-- The count that it returns or sleeps with.
abbrev pub Counts : ℕ → Run → Type 0
Counts n (returns j) = j ≡ n
Counts n (sleeps left j) = j ≡ n
Counts n fails = Unit

abbrev pub Wrote : List (Bool × Option ℕ) → ℕ → Pipe → Run × Pipe → Type 0
Wrote bs i pi (r, pi') =
    IsValid pi'
    × (done : List (Bool × Option ℕ)) × (chs : List ℕ) × (rest : List (Bool × Option ℕ)) × (bs
        ≡ done ++ rest)
    × Bytes done chs
    × (contents pi' ≡ contents pi ++ chs)
    × Counts (i + length chs) r
    × Ends rest pi r pi'

-- A run that writes nothing.
Wrote-nil :
    (bs : List (Bool × Option ℕ)) (i : ℕ) (pi : Pipe) (r : Run)
    → IsValid pi
    → Counts (i + 0) r
    → Ends bs pi r pi
    → Wrote bs i pi (r, pi)
Wrote-nil bs i pi r v c e = (v, [], [], bs, refl, tt, sym (append-nil (contents pi)), c, e)

Wrote-cons :
    (k : Bool) (ch : ℕ) (bs : List (Bool × Option ℕ)) (i : ℕ) (pi : Pipe) (r : Run × Pipe)
    → IsValid pi
    → held pi < pipesize
    → (not pi.readopen || k) ≡ false
    → Wrote bs (i + 1) (put_byte ch pi) r
    → Wrote ((k, some ch) ∷ bs) i pi r
unfolding put_byte
Wrote-cons k ch bs i pi (r, pi') v room ok (v', done, chs, rest, e, b, c, n, end_) = (
  v',
  (k, some ch) ∷ done,
  ch ∷ chs,
  rest,
  ap (λ l. (k, some ch) ∷ l) e,
  alive k ok,
  c ∙ ap (λ l. l ++ chs) (put_byte_lem ch pi v room).1 ∙ append_assoc (contents pi) (ch ∷ []) chs,
  counted r n,
  ended r end_,
)
  where
    alive : (k : Bool) → (not pi.readopen || k) ≡ false → Bytes ((k, some ch) ∷ done) (ch ∷ chs)
    alive false q = (refl, b)
    alive true q = absurd (ground arith)

    counted : (r : Run) → Counts (i + 1 + length chs) r → Counts (i + suc (length chs)) r
    counted (returns j) q = omega arith
    counted (sleeps left j) q = omega arith
    counted fails q = tt

    ended : (r : Run) → Ends rest (put_byte ch pi) r pi' → Ends rest pi r pi'
    ended (returns j) q = q
    ended (sleeps left j) q = q
    ended fails q = q

-- The two tests of a round that end the run.
round_ends :
    (k : Bool) (b : Option ℕ) (bs : List (Bool × Option ℕ)) (i : ℕ) (pi : Pipe)
    → IsValid pi
    → (((not pi.readopen || k) ≡ false)
        → held pi < pipesize
        → Wrote
            ((k, b) ∷ bs)
            i
            pi
            (elim b [ none ↦ (returns i, pi) | some ch ↦ pipewrite bs (i + 1) (put_byte ch pi) ]))
    → Wrote ((k, b) ∷ bs) i pi (pipewrite ((k, b) ∷ bs) i pi)
unfolding pipewrite
round_ends k b bs i pi v go = elim (Bool-cases (not pi.readopen || k)) [
  | inl bad ↦ rw bad (Wrote-nil ((k, b) ∷ bs) i pi fails v tt (k, b, bs, refl, bad))
  | inr ok ↦ rw ok (elim (Bool-cases (pi.nwrite == add_uint pi.nread pipesize)) [
    | inl full ↦ rw full (
        Wrote-nil ((k, b) ∷ bs) i pi (sleeps ((k, b) ∷ bs) i) v (omega arith)
          (refl, length-window pi.buf pi.nread (held pi) ∙ (full_iff pi v).0 full))
    | inr room ↦ rw room (go ok (ground (arith, v.bounded, (full_iff pi v).1)))
  ])
]

-- On a valid pipe pipewrite appends a prefix of the bytes to the queue, in order, and keeps the pipe
-- valid; in each round of one of these the process was not killed. It returns their number when all are
-- written or copyin fails at the next; it sleeps only when the queue holds PIPESIZE bytes, with the rest
-- still to write; and it fails, whatever it has written, only if the reading end is closed or the process
-- is killed in the round of the next byte.
pub pipewrite_lem :
    (bs : List (Bool × Option ℕ)) (i : ℕ) (pi : Pipe)
    → IsValid pi
    → Wrote bs i pi (pipewrite bs i pi)
unfolding pipewrite
pipewrite_lem [] i pi v = Wrote-nil [] i pi (returns i) v (omega arith) (inl refl)
pipewrite_lem ((k, none) ∷ bs) i pi v =
    round_ends k none bs i pi v
      λ ok room. Wrote-nil ((k, none) ∷ bs) i pi (returns i) v (omega arith) (inr (k, bs, refl))
pipewrite_lem ((k, some ch) ∷ bs) i pi v = round_ends k (some ch) bs i pi v λ ok room.
    Wrote-cons k ch bs i pi (pipewrite bs (i + 1) (put_byte ch pi)) v room ok
      (pipewrite_lem bs (i + 1) (put_byte ch pi) (put_byte_lem ch pi v room).0)

-- Why the copying ends, with `left` the answers of copyout that are not used up, and `lost` what is taken
-- from the pipe but not given out.
abbrev pub Ended : List Bool → List ℕ → Pipe → Type 0
Ended left lost pi' =
    ((lost ≡ []) × ((left ≡ []) ⊎ (contents pi' ≡ [])))
    ⊎ ((c : ℕ) × (lost ≡ c ∷ []) × (more : List Bool) × (left ≡ false ∷ more))

-- The count and the bytes `chs` of a run of the copying loop.
abbrev pub Copied : List Bool → ℕ → Pipe → ℕ × List ℕ × Pipe → Type 0
Copied oks i pi (m, chs, pi') =
    IsValid pi'
    × (left : List Bool) × (lost : List ℕ) × (oks ≡ replicate (length chs) true ++ left)
    × (contents pi ≡ chs ++ (lost ++ contents pi'))
    × (m ≡ i + length chs)
    × Ended left lost pi'

empty-contents : (pi : Pipe) → IsValid pi → (pi.nread == pi.nwrite) ≡ true → contents pi ≡ []
empty-contents pi v e = ap (window pi.buf pi.nread) ((empty_iff pi v).0 e)

Copied-cons :
    (oks : List Bool) (i : ℕ) (pi : Pipe) (r : ℕ × List ℕ × Pipe)
    → contents pi ≡ (get_byte pi).0 ∷ contents (get_byte pi).1
    → Copied oks (i + 1) (get_byte pi).1 r
    → Copied (true ∷ oks) i pi (r.0, (get_byte pi).0 ∷ r.1, r.2)
Copied-cons oks i pi (m, chs, pi') e (v, left, lost, o, c, n, w) =
    (v, left, lost, ap (λ l. true ∷ l) o, e ∙ ap (λ l. (get_byte pi).0 ∷ l) c, omega arith, w)

read_loop_lem :
    (oks : List Bool) (i : ℕ) (pi : Pipe) → IsValid pi → Copied oks i pi (read_loop oks i pi)
unfolding read_loop
read_loop_lem [] i pi v = (v, [], [], refl, refl, omega arith, inl (refl, inl refl))
read_loop_lem (ok ∷ oks) i pi v = elim (Bool-cases (pi.nread == pi.nwrite)) [
  | inl none_held ↦
      rw none_held
        (v, ok ∷ oks, [], refl, refl, omega arith, inl (refl, inr (empty-contents pi v none_held)))
  | inr more ↦
      let some_held : 0 < held pi = ground (arith, (empty_iff pi v).1) in
      let (v', c) = get_byte_lem pi v some_held in
      rw more (taken ok v' c (λ w. read_loop_lem oks (i + 1) (get_byte pi).1 w))
]
  where
    taken :
        (ok : Bool)
        → IsValid (get_byte pi).1
        → contents pi ≡ (get_byte pi).0 ∷ contents (get_byte pi).1
        → (IsValid (get_byte pi).1
            → Copied oks (i + 1) (get_byte pi).1 (read_loop oks (i + 1) (get_byte pi).1))
        → Copied (ok ∷ oks) i pi (elim ok [
          | false ↦ (i, [], (get_byte pi).1)
          | true ↦
              let r = read_loop oks (i + 1) (get_byte pi).1 in (r.0, (get_byte pi).0 ∷ r.1, r.2)
        ])
    taken false v' c later = (
      v',
      false ∷ oks,
      (get_byte pi).0 ∷ [],
      refl,
      c,
      omega arith,
      inr ((get_byte pi).0, refl, oks, refl),
    )
    taken true v' c later =
        Copied-cons oks i pi (read_loop oks (i + 1) (get_byte pi).1) c (later v')

-- A run of piperead, where `oks` is what copyout gives for each byte wanted.
abbrev pub Got : Bool → List Bool → Pipe → Read × Pipe → Type 0
Got killed oks pi (reads m chs, pi') = Copied oks 0 pi (m, chs, pi')
Got killed oks pi (read_sleeps, pi') =
    IsValid pi' × (contents pi ≡ []) × (pi' ≡ pi) × (pi.writeopen ≡ true) × (killed ≡ false)
Got killed oks pi (read_fails, pi') =
    IsValid pi' × (contents pi ≡ []) × (pi' ≡ pi) × (pi.writeopen ≡ true) × (killed ≡ true)

blocked :
    (killed : Bool) (oks : List Bool) (pi : Pipe)
    → IsValid pi
    → contents pi ≡ []
    → pi.writeopen ≡ true
    → Got killed oks pi (if killed then read_fails else read_sleeps, pi)
blocked true oks pi v c w = (v, c, refl, w, refl)
blocked false oks pi v c w = (v, c, refl, w, refl)

-- On a valid pipe piperead takes bytes from the front of the queue, in order, gives out those that copyout
-- takes and returns their number, and keeps the pipe valid. It stops when all that are wanted are read,
-- when the queue is empty, or at the first byte that copyout refuses, which is lost: it is neither given
-- out nor in the queue any more. It sleeps or fails only on an empty pipe whose writing end is open, and
-- then changes nothing: it fails exactly if the process is killed.
pub piperead_lem :
    (killed : Bool) (oks : List Bool) (pi : Pipe)
    → IsValid pi
    → Got killed oks pi (piperead killed oks pi)
unfolding piperead
piperead_lem killed oks pi v = elim (Bool-cases (pi.nread == pi.nwrite && pi.writeopen)) [
  | inl waits ↦
      rw waits (blocked killed oks pi v (empty-contents pi v (ground arith)) (ground arith))
  | inr goes ↦ rw goes (read_loop_lem oks 0 pi v)
]
