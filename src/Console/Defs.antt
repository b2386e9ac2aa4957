-- ===== src/Console/Defs.antt =====
-- kernel/console.c: the input buffer, the interrupt handler, and read.
use lab_so.Prelude.{
  ℕ, zero, suc, ◌+◌, ◌-◌, ◌%◌, Bool, true, false, not, ◌&&◌, ◌||◌, List, [], ◌∷◌, ◌==◌,
  if◌then◌else◌, ltb, update,
}

-- INPUT_BUF_SIZE
abbrev pub input_buf_size : ℕ
input_buf_size = 128

-- `uint` addition and subtraction.
abbrev pub add_uint : ℕ → ℕ → ℕ
add_uint a b = (a + b) % 4294967296

abbrev pub sub_uint : ℕ → ℕ → ℕ
sub_uint a b = (a + 4294967296 - b) % 4294967296

-- `cons` less its lock.
pub record Cons : Type 0 where
  pub buf : ℕ → ℕ
  pub r : ℕ
  pub w : ℕ
  pub e : ℕ

-- `consputc(BACKSPACE)`
abbrev pub backspace : ℕ
backspace = 256

-- The loop of `C('U')`. The fuel is the number of bytes from w to e, so it ends with the first test.
unfoldable pub kill_line : ℕ → Cons → Cons × List ℕ
kill_line zero cons = (cons, [])
kill_line (suc fuel) cons =
    let (cons', echo) = kill_line fuel (record cons { e = sub_uint cons.e 1 }) in
    if not (cons.e == cons.w) && not (cons.buf (sub_uint cons.e 1 % input_buf_size) == 10)
    then (cons', backspace ∷ echo)
    else (cons, [])

-- `cons.buf[cons.e++ % INPUT_BUF_SIZE] = c`, where the int becomes a char
unfoldable pub keep : ℕ → Cons → Cons
keep c cons = record cons {
  buf = update cons.buf (cons.e % input_buf_size) (c % 256);
  e = add_uint cons.e 1;
}

-- `if(c == '\n' || …) { cons.w = cons.e; … }`, and whether the readers are woken.
unfoldable pub finish_line : ℕ → Cons → Cons × Bool
finish_line c cons =
    if c == 10 || c == 4 || sub_uint cons.e cons.r == input_buf_size
    then (record cons { w = cons.e }, true)
    else (cons, false)

-- The handler: the buffer, what is echoed, and whether the readers are woken. procdump changes none of it.
unfoldable pub consoleintr : ℕ → Cons → Cons × List ℕ × Bool
unfolding kill_line keep finish_line
consoleintr c cons =
    if c == 16
    then (cons, [], false)
    else if c == 21
    then (let (cons', echo) = kill_line (sub_uint cons.e cons.w) cons in (cons', echo, false))
    else if c == 8 || c == 127
    then (if not (cons.e == cons.w)
        then (record cons { e = sub_uint cons.e 1 }, backspace ∷ [], false)
        else (cons, [], false))
    else if not (c == 0) && ltb (sub_uint cons.e cons.r) input_buf_size
    then (let c' = if c == 13 then 10 else c in
        let (cons', woken) = finish_line c' (keep c' cons) in (cons', c' ∷ [], woken))
    else (cons, [], false)

-- How a run of consoleread ends: it returns the bytes it copied, or -1, or sleeps having copied some and
-- with some left to read.
pub data Run : Type 0 where
  returns : List ℕ → Run
  fails : Run
  sleeps : List ℕ → ℕ → Run

-- One byte more has been copied before.
unfoldable pub after : ℕ → Run → Run
after c (returns s) = returns (c ∷ s)
after c fails = fails
after c (sleeps s n) = sleeps (c ∷ s) n

-- The loop of consoleread with `n` bytes left of `target`. `copies n` says whether either_copyout takes a
-- byte with `n` left.
unfoldable pub read_from : Bool → (ℕ → Bool) → ℕ → ℕ → Cons → Run × Cons
unfolding after
read_from killed copies target zero cons = (returns [], cons)
read_from killed copies target (suc n) cons =
    let cons' = record cons { r = add_uint cons.r 1 } in
    let c = cons.buf (cons.r % input_buf_size) in
    let (run, cons'') = read_from killed copies target n cons' in
    if cons.r == cons.w
    then (if killed then fails else sleeps [] (suc n), cons)
    else if c == 4
    then (returns [], if ltb (suc n) target then record cons' { r = sub_uint cons'.r 1 } else cons')
    else if not (copies (suc n))
    then (returns [], cons')
    else if c == 10
    then (returns (c ∷ []), cons')
    else (after c run, cons'')

unfoldable pub consoleread : Bool → (ℕ → Bool) → ℕ → Cons → Run × Cons
unfolding read_from
consoleread killed copies n cons = read_from killed copies n n cons
