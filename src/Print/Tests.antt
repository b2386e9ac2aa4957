-- ===== src/Print/Tests.antt =====
-- Numbers printed and read at concrete inputs.
use lab_so.Prelude.{ℕ, ◌≡◌, ◌≤◌, refl, inr, true, false, List, [], ◌∷◌, ◌++◌, some, length, arith}
use lab_so.Print.Defs.{digits_from, put_sign, printint, atoi}
use lab_so.Print.RoundTrip.{printint_ends, atoi-printint}

-- "-12"
minus_twelve : printint 4294967284 10 true ≡ some (45 ∷ 49 ∷ 50 ∷ [])
unfolding printint digits_from put_sign
minus_twelve = refl

printint_ends_example : (s : List ℕ) × (printint 4294967284 16 false ≡ some s) × (length s ≤ 11)
printint_ends_example = printint_ends 4294967284 16 false (inr refl) (omega arith)

atoi-printint_example :
    (s : List ℕ) × (printint 4095 10 true ≡ some s) × (atoi (s ++ 32 ∷ []) ≡ 4095)
atoi-printint_example = atoi-printint 4095 true (32 ∷ []) (omega arith) refl
