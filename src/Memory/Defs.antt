-- ===== src/Memory/Defs.antt =====
-- kernel/string.c: memory as a function from addresses to bytes. A range does not wrap around the end of
-- the addresses.
use lab_so.Prelude.{ℕ, zero, suc, ◌+◌, ◌%◌, not, ◌&&◌, ◌==◌, if◌then◌else◌, ltb, update}
use lab_so.Prelude.Int.{ℤ, pos, ◌-ℤ◌}

abbrev pub Mem : Type 0
Mem = ℕ → ℕ

-- The loop of memset from address `d` on.
unfoldable pub memset_from : ℕ → ℕ → ℕ → Mem → Mem
memset_from d c zero m = m
memset_from d c (suc n) m = memset_from (d + 1) c n (update m d (c % 256))

unfoldable pub memset : ℕ → ℕ → ℕ → Mem → Mem
memset dst c n m = memset_from dst c n m

unfoldable pub memcmp : ℕ → ℕ → ℕ → Mem → ℤ
memcmp s1 s2 zero m = pos 0
memcmp s1 s2 (suc n) m =
    let rest = memcmp (s1 + 1) (s2 + 1) n m in
    if not (m s1 == m s2) then pos (m s1) -ℤ pos (m s2) else rest

-- `*d++ = *s++`
unfoldable pub copy_up : ℕ → ℕ → ℕ → Mem → Mem
copy_up d s zero m = m
copy_up d s (suc n) m = copy_up (d + 1) (s + 1) n (update m d (m s))

-- `*--d = *--s`, with `n` bytes still below
unfoldable pub copy_down : ℕ → ℕ → ℕ → Mem → Mem
copy_down d s zero m = m
copy_down d s (suc n) m = copy_down d s n (update m (d + n) (m (s + n)))

unfoldable pub memmove : ℕ → ℕ → ℕ → Mem → Mem
memmove dst src n m =
    if n == 0
    then m
    else if ltb src dst && ltb dst (src + n)
    then copy_down dst src n m
    else copy_up dst src n m

unfoldable pub memcpy : ℕ → ℕ → ℕ → Mem → Mem
memcpy dst src n m = memmove dst src n m

unfoldable pub strncmp : ℕ → ℕ → ℕ → Mem → ℤ
strncmp p q zero m = pos 0
strncmp p q (suc n) m =
    let rest = strncmp (p + 1) (q + 1) n m in
    if not (m p == 0) && m p == m q then rest else pos (m p) -ℤ pos (m q)

-- The second loop of strncpy.
unfoldable pub pad : ℕ → ℕ → Mem → Mem
pad s zero m = m
pad s (suc n) m = pad (s + 1) n (update m s 0)

-- The first loop of strncpy, with the second after the NUL.
unfoldable pub strncpy : ℕ → ℕ → ℕ → Mem → Mem
strncpy s t zero m = m
strncpy s t (suc n) m =
    let m' = update m s (m t) in
    let rest = strncpy (s + 1) (t + 1) n m' in if m t == 0 then pad (s + 1) n m' else rest

-- The loop of safestrcpy, with room for `n` bytes and the NUL, and the NUL.
unfoldable pub safestrcpy_from : ℕ → ℕ → ℕ → Mem → Mem
safestrcpy_from s t zero m = update m s 0
safestrcpy_from s t (suc n) m =
    let m' = update m s (m t) in
    let rest = safestrcpy_from (s + 1) (t + 1) n m' in
    if m t == 0 then update m' (s + 1) 0 else rest

-- `n` is an int; for one below 1 nothing is written.
unfoldable pub safestrcpy : ℕ → ℕ → ℕ → Mem → Mem
safestrcpy s t zero m = m
safestrcpy s t (suc n) m = safestrcpy_from s t n m
