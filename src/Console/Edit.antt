-- ===== src/Console/Edit.antt =====
-- kernel/console.c: consoleintr edits a line and makes it ready to be read.
use lab_so.Prelude.{
  ℕ, zero, suc, ◌+◌, ◌%◌, ◌<◌, ◌≡◌, refl, sym, ap, ◌∙◌, inl, inr, true, false, not, ◌&&◌, ◌||◌, [],
  ◌∷◌, ◌++◌, ◌==◌, if◌then◌else◌, ltb, Bool-cases, length, arith,
}
use lab_so.Console.Defs.{
  input_buf_size, add_uint, sub_uint, Cons, backspace, keep, finish_line, consoleintr,
}
use lab_so.Console.Ring.{window, length-window, ready, line}
use lab_so.Console.Moves.{
  IsValid, drop_last, typed, edited, Matches, killed_line, erased, put_in, committed,
}

-- The handler on a byte that is none of the control bytes, with room for it.
handler_put :
    (c : ℕ) (cons : Cons)
    → IsValid cons
    → c < 256
    → length (ready cons) + length (line cons) < input_buf_size
    → Matches
        ((finish_line c (keep c cons)).0, c ∷ [], (finish_line c (keep c cons)).1)
        (if c == 10 || c == 4 || suc (length (ready cons) + length (line cons)) == input_buf_size
          then (ready cons ++ (line cons ++ c ∷ []), [], c ∷ [], true)
          else (ready cons, line cons ++ c ∷ [], c ∷ [], false))
unfolding finish_line keep
handler_put c cons v byte room =
    let same : c % 256 ≡ c = omega arith in
    let a = length-window cons.buf cons.r (sub_uint cons.w cons.r) in
    let b = length-window cons.buf cons.w (sub_uint cons.e cons.w) in
    let fits : sub_uint cons.w cons.r + sub_uint cons.e cons.w < input_buf_size = omega arith in
    let full : sub_uint (add_uint cons.e 1) cons.r
        ≡ suc (length (ready cons) + length (line cons)) =
      omega (arith, v.r_fits, v.w_fits, v.e_fits) in
    rw (same, full)
      (elim (Bool-cases
        (c == 10 || c == 4 || suc (length (ready cons) + length (line cons)) == input_buf_size)) [
          | inl t ↦ rw t (committed cons.buf cons.r cons.w cons.e v c fits)
          | inr t ↦ rw t (put_in cons.buf cons.r cons.w cons.e v c fits (ground arith))
        ])

handler_erase :
    (cons : Cons)
    → IsValid cons
    → Matches
        (if not (cons.e == cons.w)
          then (record cons { e = sub_uint cons.e 1 }, backspace ∷ [], false)
          else (cons, [], false))
        (
          ready cons,
          drop_last (line cons),
          (if length (line cons) == 0 then [] else backspace ∷ []),
          false,
        )
handler_erase cons v = go (sub_uint cons.e cons.w) refl
  where
    go :
        (n : ℕ)
        → sub_uint cons.e cons.w ≡ n
        → Matches
            (if not (cons.e == cons.w)
              then (record cons { e = sub_uint cons.e 1 }, backspace ∷ [], false)
              else (cons, [], false))
            (
              ready cons,
              drop_last (line cons),
              (if length (line cons) == 0 then [] else backspace ∷ []),
              false,
            )
    go zero q =
        let t : (cons.e == cons.w) ≡ true =
          (let x = v.e_fits in let y = v.w_fits in ground arith) in
        let l : line cons ≡ [] = ap (window cons.buf cons.w) q in
        rw t (
          v,
          refl,
          l ∙ sym (ap drop_last l),
          sym (ap (λ s. if length s == 0 then [] else backspace ∷ []) l),
          refl,
        )
    go (suc n) q =
        let t : (cons.e == cons.w) ≡ false =
          (let x = v.e_fits in let y = v.w_fits in ground arith) in
        rw t (erased cons.buf cons.r cons.w cons.e v n q)

-- The handler of a byte from the UART, on a valid buffer: the buffer stays valid, and what is ready, the line, the echo
-- and the wakeup are those of the edit on lists. A newline, a ^D and a full buffer make the line ready, ^U
-- erases all of it, ^H and DEL its last byte; a byte that finds the buffer full is dropped.
pub consoleintr_lem :
    (c : ℕ) (cons : Cons)
    → IsValid cons
    → c < 256
    → Matches (consoleintr c cons) (edited c (ready cons) (line cons))
unfolding consoleintr
consoleintr_lem c cons v byte =
    let count : sub_uint cons.e cons.r ≡ length (ready cons) + length (line cons) =
      (let a = length-window cons.buf cons.r (sub_uint cons.w cons.r) in
        let b = length-window cons.buf cons.w (sub_uint cons.e cons.w) in
        omega (arith, v.r_fits, v.w_fits, v.e_fits, v.bounded)) in
    elim (Bool-cases (c == 16)) [
      | inl t ↦ rw t (v, refl, refl, refl, refl)
      | inr t ↦ elim (Bool-cases (c == 21)) [
        | inl u ↦ rw (t, u) (killed_line cons.buf cons.r cons.w cons.e v)
        | inr u ↦ elim (Bool-cases (c == 8 || c == 127)) [
          | inl x ↦ rw (t, u, x) (handler_erase cons v)
          | inr x ↦
              elim (Bool-cases
                (not (c == 0) && ltb (length (ready cons) + length (line cons)) input_buf_size)) [
                  | inl y ↦
                      rw (t, u, x, count, y)
                        (handler_put (typed c) cons v (ground arith) (ground arith))
                  | inr y ↦ rw (t, u, x, count, y) (v, refl, refl, refl, refl)
                ]
        ]
      ]
    ]
