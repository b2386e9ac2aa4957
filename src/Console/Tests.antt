-- ===== src/Console/Tests.antt =====
-- A console on concrete bytes.
use lab_so.Prelude.{ℕ, ◌≡◌, ◌≤◌, refl, true, false, [], ◌∷◌, arith}
use lab_so.Console.Defs.{Cons, kill_line, keep, finish_line, consoleintr, returns, consoleread}
use lab_so.Console.Ring.{ready, line}
use lab_so.Console.Moves.{IsValid, Matches, edited}
use lab_so.Console.Edit.{consoleintr_lem}
use lab_so.Console.Read.{taken, Takes, consoleread_lem}
use lab_so.Console.Typed.{types, Plain, consoleread-types}

-- Nothing to read, with the indices about to wrap.
abbrev fresh : Cons
fresh = record { buf = λ _. 0; r = 4294967295; w = 4294967295; e = 4294967295 }

fresh-IsValid : IsValid fresh
fresh-IsValid = record {
  r_fits = omega arith;
  w_fits = omega arith;
  e_fits = omega arith;
  bounded = omega arith;
  one_line = tt;
}

-- "ab" is typed, b is erased, and "c" and a newline follow.
corrected : ready (types (97 ∷ 98 ∷ 127 ∷ 99 ∷ 10 ∷ []) fresh) ≡ 97 ∷ 99 ∷ 10 ∷ []
unfolding consoleintr keep finish_line
corrected = refl

-- ^U erases what was typed.
erased : line (types (97 ∷ 98 ∷ 21 ∷ []) fresh) ≡ []
unfolding consoleintr keep finish_line kill_line
erased = refl

abbrev half : Cons
half = record { buf = λ _. 97; r = 0; w = 3; e = 5 }

half-IsValid : IsValid half
half-IsValid = record {
  r_fits = omega arith;
  w_fits = omega arith;
  e_fits = omega arith;
  bounded = omega arith;
  one_line = ((λ e. omega arith), ((λ e. omega arith), tt));
}

consoleintr_lem_example : Matches (consoleintr 21 half) (edited 21 (ready half) (line half))
consoleintr_lem_example = consoleintr_lem 21 half half-IsValid (omega arith)

consoleread_lem_example :
    Takes half (consoleread false (λ _. true) 4 half) (taken false (λ _. true) 4 4 (ready half))
consoleread_lem_example = consoleread_lem false (λ _. true) 4 half half-IsValid

letter-Plain : (c : ℕ) → 97 ≤ c → c ≤ 122 → Plain c
letter-Plain c h k = (
  (λ e. omega arith),
  (λ e. omega arith),
  (λ e. omega arith),
  (λ e. omega arith),
  (λ e. omega arith),
  (λ e. omega arith),
  (λ e. omega arith),
  (λ e. omega arith),
  omega arith,
)

consoleread-types_example :
    (consoleread false (λ _. true) 8 (types (104 ∷ 105 ∷ 10 ∷ []) fresh)).0
    ≡ returns (104 ∷ 105 ∷ 10 ∷ [])
consoleread-types_example =
    consoleread-types false 8 (104 ∷ 105 ∷ []) fresh fresh-IsValid refl refl
      (
        letter-Plain 104 (omega arith) (omega arith),
        (letter-Plain 105 (omega arith) (omega arith), tt),
      )
      (omega arith) (omega arith)
