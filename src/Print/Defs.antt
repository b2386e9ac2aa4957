-- ===== src/Print/Defs.antt =====
-- user/printf.c: printint; user/ulib.c: atoi. Text is the list of its bytes: what putc writes, or a
-- string up to its NUL.
use lab_so.Prelude.{
  ℕ, zero, suc, ◌+◌, ◌-◌, ◌*◌, ◌/◌, ◌%◌, Bool, true, false, ◌&&◌, List, [], ◌∷◌, Option, none, some,
  ◌==◌, if◌then◌else◌, ltb, leb,
}

-- `digits[k]`
abbrev pub digit : ℕ → ℕ
digit k = if ltb k 10 then 48 + k else 55 + k

-- The do loop, with `room` bytes of `buf` left; `none` is a store past its end. The byte stored last is at
-- the head, so that `buf` is in the order in which it is written.
unfoldable pub digits_from : ℕ → ℕ → ℕ → List ℕ → Option (ℕ × List ℕ)
digits_from zero x base buf = none
digits_from (suc room) x base buf =
    let rest = digits_from room (x / base) base (digit (x % base) ∷ buf) in
    if x / base == 0 then some (room, digit (x % base) ∷ buf) else rest

-- `if(neg) buf[i++] = '-'`
unfoldable pub put_sign : Bool → Option (ℕ × List ℕ) → Option (List ℕ)
put_sign neg none = none
put_sign false (some (room, buf)) = some buf
put_sign true (some (zero, buf)) = none
put_sign true (some (suc room, buf)) = some (45 ∷ buf)

-- What is written; `xx` is the 32 bits of the int, and `buf` has 16 bytes.
unfoldable pub printint : ℕ → ℕ → Bool → Option (List ℕ)
unfolding digits_from put_sign
printint xx base sgn =
    let neg = sgn && leb 2147483648 xx in
    let x = if neg then (4294967296 - xx) % 4294967296 else xx in
    put_sign neg (digits_from 16 x base [])

-- The loop of atoi, with the sum in 32 bits.
unfoldable pub atoi_from : ℕ → List ℕ → ℕ
atoi_from n [] = n
atoi_from n (c ∷ s) =
    let rest = atoi_from ((n * 10 + c - 48) % 4294967296) s in
    if leb 48 c && leb c 57 then rest else n

unfoldable pub atoi : List ℕ → ℕ
unfolding atoi_from
atoi s = atoi_from 0 s
