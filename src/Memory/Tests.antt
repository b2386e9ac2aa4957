-- ===== src/Memory/Tests.antt =====
-- kernel/string.c: runs at concrete inputs, and the theorems at such inputs.
use lab_so.Prelude.{ℕ, ◌≡◌, inl, refl, update, arith}
use lab_so.Prelude.Int.{pos}
use lab_so.Memory.Defs.{
  Mem, memset, memset_from, memcmp, memmove, copy_down, strncmp, strncpy, pad, safestrcpy,
}
use lab_so.Memory.Copy.{moved, memmove_lem}
use lab_so.Memory.Text.{Copied, safestrcpy_lem}

-- "ab" at 0 and "ac" at 10
abbrev words : Mem
words = update (update (update (update (λ _. 0) 0 97) 1 98) 10 97) 11 99

overlap_down : memmove 1 0 2 words 2 ≡ 98
unfolding memmove copy_down
overlap_down = refl

same_letter : strncmp 0 10 1 words ≡ pos 0
unfolding strncmp
same_letter = refl

same_byte : memcmp 0 10 1 words ≡ pos 0
unfolding memcmp
same_byte = refl

padded : strncpy 20 0 4 words 23 ≡ 0
unfolding strncpy pad
padded = refl

filled : memset 20 300 4 words 23 ≡ 44
unfolding memset memset_from
filled = refl

memmove_lem_example : memmove 1 0 2 words 2 ≡ moved 1 0 2 words 2
memmove_lem_example = memmove_lem 1 0 2 words 2

safestrcpy_lem_example : (k : ℕ) × Copied 20 0 4 words (safestrcpy 20 0 5 words) k
safestrcpy_lem_example = safestrcpy_lem 20 0 4 words (inl (omega arith))
