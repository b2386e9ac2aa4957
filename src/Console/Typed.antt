-- ===== src/Console/Typed.antt =====
-- kernel/console.c: what is typed is what consoleread gives.
use lab_so.Prelude.{
  ℕ, zero, suc, ◌+◌, ◌<◌, ◌≡◌, ◌≢◌, refl, sym, ap, ◌∙◌, Bool, true, false, List, [], ◌∷◌, ◌++◌,
  ◌==◌, length, length-append, All, append_assoc, append-nil, arith,
}
use lab_so.Console.Defs.{input_buf_size, Cons, consoleintr, returns, after, consoleread}
use lab_so.Console.Ring.{ready, line}
use lab_so.Console.Moves.{IsValid, edited}
use lab_so.Console.Edit.{consoleintr_lem}
use lab_so.Console.Read.{taken, consoleread_lem}

-- The handler on one byte after the other.
abbrev pub types : List ℕ → Cons → Cons
types [] cons = cons
types (c ∷ s) cons = types s (consoleintr c cons).0

-- A byte, and none of those that the handler or the reader treats in its own way.
abbrev pub Plain : ℕ → Type 0
Plain c =
    (c ≢ 0) × (c ≢ 4) × (c ≢ 8) × (c ≢ 10) × (c ≢ 13) × (c ≢ 16) × (c ≢ 21) × (c ≢ 127) × (c < 256)

edited-Plain :
    (c : ℕ) (q l : List ℕ)
    → Plain c
    → length q + length l + 1 < input_buf_size
    → edited c q l ≡ (q, l ++ c ∷ [], c ∷ [], false)
edited-Plain c q l (p0, p4, p8, p10, p13, p16, p21, p127, byte) h = ground arith

edited_newline :
    (q l : List ℕ)
    → length q + length l < input_buf_size
    → edited 10 q l ≡ (q ++ (l ++ 10 ∷ []), [], 10 ∷ [], true)
edited_newline q l h = ground arith

types_newline :
    (s : List ℕ) (cons : Cons)
    → IsValid cons
    → All Plain s
    → length (ready cons) + length (line cons) + length s < input_buf_size
    → IsValid (types (s ++ 10 ∷ []) cons)
      × (ready (types (s ++ 10 ∷ []) cons) ≡ ready cons ++ (line cons ++ s ++ 10 ∷ []))
types_newline [] cons v a h =
    let m = consoleintr_lem 10 cons v (omega arith) in
    let e = edited_newline (ready cons) (line cons) (omega arith) in
    (
      m.0,
      m.1 ∙ ap (λ x. x.0) e ∙ ap (λ x. ready cons ++ (x ++ 10 ∷ [])) (sym (append-nil (line cons))),
    )
types_newline (c ∷ s) cons v (p, a) h =
    let m = consoleintr_lem c cons v p.8 in
    let e = edited-Plain c (ready cons) (line cons) p (omega arith) in
    let q = m.1 ∙ ap (λ x. x.0) e in
    let l = m.2 ∙ ap (λ x. x.1) e in
    let r = types_newline s (consoleintr c cons).0 m.0 a (
      let x = ap length q in
      let y = ap length l in let z = length-append (line cons) (c ∷ []) in omega arith) in
    (
      r.0,
      r.1
          ∙ ap (λ x. x ++ ((line (consoleintr c cons).0) ++ s ++ 10 ∷ [])) q
          ∙ ap (λ x. ready cons ++ (x ++ s ++ 10 ∷ [])) l
          ∙ ap (λ x. ready cons ++ (x ++ 10 ∷ [])) (append_assoc (line cons) (c ∷ []) s),
    )

taken-Plain :
    (killed : Bool) (target n : ℕ) (s : List ℕ)
    → All Plain s
    → length s < n
    → taken killed (λ _. true) target n (s ++ 10 ∷ []) ≡ (returns (s ++ 10 ∷ []), [])
unfolding after
taken-Plain killed target zero s a h = absurd (omega arith)
taken-Plain killed target (suc n) [] a h = refl
taken-Plain killed target (suc n) (c ∷ s) ((p0, p4, p8, p10, p13, p16, p21, p127, byte), a) h =
    let f : (c == 4) ≡ false = ground arith in
    let g : (c == 10) ≡ false = ground arith in
    rw (f, g) (ap (λ x. (after c x.0, x.1)) (taken-Plain killed target n s a (omega arith)))

-- A line of plain bytes, typed with its newline on a console with nothing to read, comes back whole from a
-- consoleread with room for it, if every byte can be copied out.
pub consoleread-types :
    (killed : Bool) (n : ℕ) (s : List ℕ) (cons : Cons)
    → IsValid cons
    → ready cons ≡ []
    → line cons ≡ []
    → All Plain s
    → length s < input_buf_size
    → length s < n
    → (consoleread killed (λ _. true) n (types (s ++ 10 ∷ []) cons)).0 ≡ returns (s ++ 10 ∷ [])
consoleread-types killed n s cons v q l a h k =
    let t = types_newline s cons v a (let x = ap length q in let y = ap length l in omega arith) in
    let r = consoleread_lem killed (λ _. true) n (types (s ++ 10 ∷ []) cons) t.0 in
    let b : ready (types (s ++ 10 ∷ []) cons) ≡ s ++ 10 ∷ [] =
      t.1 ∙ ap (λ x. x ++ (line cons ++ s ++ 10 ∷ [])) q ∙ ap (λ x. x ++ s ++ 10 ∷ []) l in
    r.2
    ∙ ap (λ x. (taken killed (λ _. true) n n x).0) b
    ∙ ap (λ x. x.0) (taken-Plain killed n n s a k)
