-- ===== src/Print/RoundTrip.antt =====
-- user/printf.c and user/ulib.c: printint, and atoi of what it prints.
use lab_so.Prelude.{
  ℕ, zero, suc, ◌+◌, ◌-◌, ◌/◌, ◌%◌, ◌≤◌, ◌<◌, ◌≡◌, refl, ap, ◌∙◌, ◌⊎◌, inl, inr, Bool, true, false,
  ◌&&◌, List, [], ◌∷◌, ◌++◌, some, if◌then◌else◌, leb, length, arith,
}
use lab_so.Print.Defs.{digits_from, put_sign, printint, atoi_from, atoi}
use lab_so.Print.Digits.{digits_from_ends, atoi_from-digits_from}

-- No digit follows.
abbrev pub Ends : List ℕ → Type 0
Ends [] = Unit
Ends (c ∷ s) = (leb 48 c && leb c 57) ≡ false

atoi_from-Ends : (n : ℕ) (s : List ℕ) → Ends s → atoi_from n s ≡ n
unfolding atoi_from
atoi_from-Ends n [] h = refl
atoi_from-Ends n (c ∷ s) h = rw h refl

magnitude :
    (xx base : ℕ)
    → (base ≡ 10) ⊎ (base ≡ 16)
    → xx < 4294967296
    → (left : ℕ) × (s : List ℕ) × (digits_from 16 xx base [] ≡ some (left, s))
      × (6 ≤ left)
      × (length s + left ≡ 16)
magnitude xx base b l =
    let (left, s, e, f, g) = digits_from_ends base smaller 9 15 xx [] (omega arith) (omega arith) in
    (left, s, e, omega arith, omega arith)
  where
    smaller : (y : ℕ) → y / base ≤ y / 10
    smaller y = elim b [ inl e ↦ rw e (omega arith) | inr e ↦ rw e (omega arith) ]

put_sign_lem :
    (neg : Bool) (left : ℕ) (s : List ℕ)
    → 1 ≤ left
    → length s ≤ 10
    → (t : List ℕ) × (put_sign neg (some (left, s)) ≡ some t) × (length t ≤ 11)
unfolding put_sign
put_sign_lem false left s h l = (s, refl, omega arith)
put_sign_lem true (suc left) s h l = (45 ∷ s, refl, omega arith)
put_sign_lem true zero s h l = absurd (omega arith)

-- printint in base 10 or 16 ends and stays within its buffer, whatever the int is: it writes at most 11
-- bytes.
pub printint_ends :
    (xx base : ℕ) (sgn : Bool)
    → (base ≡ 10) ⊎ (base ≡ 16)
    → xx < 4294967296
    → (s : List ℕ) × (printint xx base sgn ≡ some s) × (length s ≤ 11)
unfolding printint
printint_ends xx base sgn b l = go (sgn && leb 2147483648 xx)
  where
    go :
        (neg : Bool)
        → (s : List ℕ) × (put_sign neg
              (digits_from 16 (if neg then (4294967296 - xx) % 4294967296 else xx) base [])
            ≡ some s)
          × (length s ≤ 11)
    go false =
        let (left, s, e, m, n) = magnitude xx base b l in
        let r = put_sign_lem false left s (omega arith) (omega arith) in
        (r.0, ap (put_sign false) e ∙ r.1, r.2)
    go true =
        let (left, s, e, m, n) = magnitude ((4294967296 - xx) % 4294967296) base b (omega arith) in
        let r = put_sign_lem true left s (omega arith) (omega arith) in
        (r.0, ap (put_sign true) e ∙ r.1, r.2)

put_sign_full : (left : ℕ) (s : List ℕ) → 1 ≤ left → put_sign true (some (left, s)) ≡ some (45 ∷ s)
unfolding put_sign
put_sign_full (suc left) s h = refl
put_sign_full zero s h = absurd (omega arith)

-- What atoi makes of the digits of `x` behind the sign.
atoi-put_sign :
    (neg : Bool) (x : ℕ) (rest : List ℕ)
    → x < 4294967296
    → Ends rest
    → (s : List ℕ) × (put_sign neg (digits_from 16 x 10 []) ≡ some s)
      × (atoi (s ++ rest) ≡ (if neg then 0 else x))
unfolding atoi put_sign atoi_from
atoi-put_sign false x rest l h =
    let (left, s, d, m, n) = magnitude x 10 (inl refl) l in
    (
      s,
      ap (put_sign false) d,
      atoi_from-digits_from 16 x left [] s rest l d ∙ atoi_from-Ends x rest h,
    )
atoi-put_sign true x rest l h =
    let (left, s, d, m, n) = magnitude x 10 (inl refl) l in
    (45 ∷ s, ap (put_sign true) d ∙ put_sign_full left s (omega arith), refl)

-- atoi reads what printint writes in base 10, whatever stands behind it that is no digit: the int as it is
-- if it is printed as unsigned or is not negative. A negative one, printed with its sign, is read as 0.
pub atoi-printint :
    (xx : ℕ) (sgn : Bool) (rest : List ℕ)
    → xx < 4294967296
    → Ends rest
    → (s : List ℕ) × (printint xx 10 sgn ≡ some s)
      × (atoi (s ++ rest) ≡ (if sgn && leb 2147483648 xx then 0 else xx))
unfolding printint
atoi-printint xx sgn rest l h = go (sgn && leb 2147483648 xx)
  where
    go :
        (neg : Bool)
        → (s : List ℕ) × (put_sign neg
              (digits_from 16 (if neg then (4294967296 - xx) % 4294967296 else xx) 10 [])
            ≡ some s)
          × (atoi (s ++ rest) ≡ (if neg then 0 else xx))
    go false = atoi-put_sign false xx rest l h
    go true = atoi-put_sign true ((4294967296 - xx) % 4294967296) rest (omega arith) h
