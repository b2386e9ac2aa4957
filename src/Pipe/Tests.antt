-- ===== src/Pipe/Tests.antt =====
-- kernel/pipe.c: runs at concrete inputs, and the theorems at such inputs.
use lab_so.Prelude.{
  ℕ, Bool, List, Option, ◌-◌, ◌^◌, ◌≡◌, refl, true, false, some, [], ◌∷◌, replicate,
  length-replicate, arith,
}
use lab_so.Pipe.Defs.{
  Pipe, pipesize, readers, pipeclose, pipewrite, fails, reads, read_sleeps, piperead,
}
use lab_so.Pipe.Queue.{IsValid, Wrote, Got, pipewrite_lem, piperead_lem}

-- The counters are about to wrap.
abbrev old : Pipe
old = record {
  buf = replicate pipesize 0;
  nread = 2 ^ 32 - 1;
  nwrite = 2 ^ 32 - 1;
  readopen = true;
  writeopen = true;
}

old-IsValid : IsValid old
old-IsValid = record {
  storage = length-replicate {A = ℕ} pipesize 0;
  nread_fits = omega arith;
  nwrite_fits = omega arith;
  bounded = omega arith;
}

abbrev three_bytes : List (Bool × Option ℕ)
three_bytes = (false, some 7) ∷ (false, some 8) ∷ (false, some 9) ∷ []

abbrev three : Pipe
three = (pipewrite three_bytes 0 old).1

write_read : (piperead false (replicate 2 true) three).0 ≡ reads 2 (7 ∷ 8 ∷ [])
unfolding piperead pipewrite
write_read = refl

read_empty : (piperead false (replicate 2 true) old).0 ≡ read_sleeps
unfolding piperead
read_empty = refl

last_close :
    pipeclose true (record old { readopen = false })
    ≡ (record old { readopen = false; writeopen = false }, readers, true)
unfolding pipeclose
last_close = refl

-- The process is killed when a byte has been written.
killed_later : (pipewrite ((false, some 7) ∷ (true, some 8) ∷ []) 0 old).0 ≡ fails
unfolding pipewrite
killed_later = refl

pipewrite_lem_example :
    Wrote
      ((false, some 7) ∷ (true, some 8) ∷ [])
      0
      old
      (pipewrite ((false, some 7) ∷ (true, some 8) ∷ []) 0 old)
pipewrite_lem_example = pipewrite_lem ((false, some 7) ∷ (true, some 8) ∷ []) 0 old old-IsValid

-- copyout refuses the second byte.
piperead_lem_example :
    Got false (true ∷ false ∷ true ∷ []) three (piperead false (true ∷ false ∷ true ∷ []) three)
piperead_lem_example =
    piperead_lem false (true ∷ false ∷ true ∷ []) three
      (pipewrite_lem three_bytes 0 old old-IsValid).0
