-- ===== src/Pipe/Defs.antt =====
-- kernel/pipe.c (so24lab3g02): the ring of a pipe, and the loops that read and write it. The lock is
-- held but for the calls of sleep, so a loop is a run up to its next sleep.
use lab_so.Prelude.{
  ℕ, ◌+◌, ◌%◌, ◌^◌, Bool, true, false, not, ◌&&◌, ◌||◌, Option, none, some, List, [], ◌∷◌, ◌==◌,
  if◌then◌else◌, get_or, set,
}

abbrev pub pipesize : ℕ
pipesize = 512

-- `uint` addition.
abbrev pub add_uint : ℕ → ℕ → ℕ
add_uint a b = (a + b) % 2 ^ 32

-- `struct pipe` less its lock.
pub record Pipe : Type 0 where
  pub buf : List ℕ
  pub nread : ℕ
  pub nwrite : ℕ
  pub readopen : Bool
  pub writeopen : Bool

-- The pipe that `pipealloc` makes; the bytes of the page are those that `kalloc` left.
unfoldable pub pipealloc : List ℕ → Pipe
pipealloc page = record { buf = page; nread = 0; nwrite = 0; readopen = true; writeopen = true }

-- The channel whose sleepers are woken: `&pi->nread` or `&pi->nwrite`.
pub data Channel : Type 0 where
  readers writers : Channel

-- The pipe, the wakeup, and whether the page is freed.
unfoldable pub pipeclose : Bool → Pipe → Pipe × Channel × Bool
pipeclose writable pi =
    let pi' : Pipe =
      if writable then record pi { writeopen = false } else record pi { readopen = false } in
    (pi', if writable then readers else writers, not pi'.readopen && not pi'.writeopen)

-- `pi->data[pi->nwrite++ % PIPESIZE] = ch`
unfoldable pub put_byte : ℕ → Pipe → Pipe
put_byte ch pi = record pi {
  buf = set pi.buf (pi.nwrite % pipesize) ch;
  nwrite = add_uint pi.nwrite 1;
}

-- `ch = pi->data[pi->nread++ % PIPESIZE]`
unfoldable pub get_byte : Pipe → ℕ × Pipe
get_byte pi = (get_or pi.buf (pi.nread % pipesize) 0, record pi { nread = add_uint pi.nread 1 })

-- How a run of a loop ends: the call returns a count, or -1, or sleeps with the bytes still to do.
pub data Run : Type 0 where
  returns : ℕ → Run
  fails : Run
  sleeps : List (Bool × Option ℕ) → ℕ → Run

-- The loop of `pipewrite` from `i` on. The list has for each byte left what `killed` says in its round,
-- which another CPU can change at any time, and what `copyin` gives for it, `none` being -1. A sleep is
-- preceded by a wakeup of the readers.
unfoldable pub pipewrite : List (Bool × Option ℕ) → ℕ → Pipe → Run × Pipe
unfolding put_byte
pipewrite [] i pi = (returns i, pi)
pipewrite ((killed, b) ∷ bs) i pi =
    if not pi.readopen || killed
    then (fails, pi)
    else if pi.nwrite == add_uint pi.nread pipesize
    then (sleeps ((killed, b) ∷ bs) i, pi)
    else elim b [ none ↦ (returns i, pi) | some ch ↦ pipewrite bs (i + 1) (put_byte ch pi) ]

-- The copying loop of `piperead`. The list says for each byte wanted whether `copyout` takes it; the
-- bytes that it took come with the count. A byte that it refuses is lost.
unfoldable pub read_loop : List Bool → ℕ → Pipe → ℕ × List ℕ × Pipe
unfolding get_byte
read_loop [] i pi = (i, [], pi)
read_loop (ok ∷ oks) i pi =
    if pi.nread == pi.nwrite
    then (i, [], pi)
    else (let (ch, pi') = get_byte pi in
        elim ok [
          | false ↦ (i, [], pi')
          | true ↦ (let (n, chs, pi'') = read_loop oks (i + 1) pi' in (n, ch ∷ chs, pi''))
        ])

-- How a run of `piperead` ends.
pub data Read : Type 0 where
  reads : ℕ → List ℕ → Read
  read_fails : Read
  read_sleeps : Read

unfoldable pub piperead : Bool → List Bool → Pipe → Read × Pipe
unfolding read_loop
piperead killed oks pi =
    if pi.nread == pi.nwrite && pi.writeopen
    then (if killed then read_fails else read_sleeps, pi)
    else (let (n, chs, pi') = read_loop oks 0 pi in (reads n chs, pi'))
