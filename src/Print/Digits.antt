-- ===== src/Print/Digits.antt =====
-- user/printf.c: the loop of printint ends within its buffer, and atoi reads its digits.
use lab_so.Prelude.{
  ℕ, zero, suc, ◌+◌, ◌-◌, ◌*◌, ◌/◌, ◌%◌, ◌^◌, ◌≤◌, ◌<◌, ◌≡◌, ◌≢◌, refl, sym, ap, ◌∙◌, inl, inr,
  true, false, ◌&&◌, List, ◌∷◌, ◌++◌, Option, some, ◌==◌, leb, Bool-cases, length, arith,
}
use lab_so.Print.Defs.{digit, digits_from, atoi_from}

digits_from_last :
    (room x base : ℕ) (buf : List ℕ)
    → (x / base == 0) ≡ true
    → digits_from (suc room) x base buf ≡ some (room, digit (x % base) ∷ buf)
unfolding digits_from
digits_from_last room x base buf t = rw t refl

digits_from_more :
    (room x base : ℕ) (buf : List ℕ)
    → (x / base == 0) ≡ false
    → digits_from (suc room) x base buf ≡ digits_from room (x / base) base (digit (x % base) ∷ buf)
unfolding digits_from
digits_from_more room x base buf t = rw t refl

-- A loop on a number below `10 ^ (n + 1)` takes at most `n + 1` rounds.
pub digits_from_ends :
    (base : ℕ)
    → ((y : ℕ) → y / base ≤ y / 10)
    → (n r x : ℕ) (buf : List ℕ) → n ≤ r
    → x < 10 ^ suc n
    → (left : ℕ) × (s : List ℕ) × (digits_from (suc r) x base buf ≡ some (left, s))
      × (r ≤ left + n)
      × (length s + left ≡ length buf + suc r)
digits_from_ends base h zero r x buf b l =
    let z : x / base ≡ 0 = omega (arith, h x) in
    let t : (x / base == 0) ≡ true = ground arith in
    (r, digit (x % base) ∷ buf, digits_from_last r x base buf t, omega arith, omega arith)
digits_from_ends base h (suc n) zero x buf b l = absurd (omega arith)
digits_from_ends base h (suc n) (suc r) x buf b l = elim (Bool-cases (x / base == 0)) [
  | inl t ↦ (
    suc r,
    digit (x % base) ∷ buf,
    digits_from_last (suc r) x base buf t,
    omega arith,
    omega arith,
  )
  | inr t ↦
      let (left, s, e, f, g) =
        digits_from_ends base h n r (x / base) (digit (x % base) ∷ buf) (omega arith)
          (omega (arith, h x)) in
      (left, s, digits_from_more (suc r) x base buf t ∙ e, omega arith, omega arith)
]

-- One digit.
atoi_from-digit :
    (n d : ℕ) (s : List ℕ)
    → d < 10
    → n * 10 + d < 4294967296
    → atoi_from n (digit d ∷ s) ≡ atoi_from (n * 10 + d) s
unfolding atoi_from
atoi_from-digit n d s h l =
    let e : digit d ≡ 48 + d = ground arith in
    let t : (leb 48 (48 + d) && leb (48 + d) 57) ≡ true = ground arith in
    let v : (n * 10 + (48 + d) - 48) % 4294967296 ≡ n * 10 + d = omega arith in
    rw (e, t) (ap (λ m. atoi_from m s) v)

some-inj :
    (a b : ℕ) (s t : List ℕ) → ◌≡◌ {A = Option (ℕ × List ℕ)} (some (a, s)) (some (b, t)) → s ≡ t
some-inj a b s t e = cc

none_full : (x left : ℕ) (buf s : List ℕ) → digits_from zero x 10 buf ≢ some (left, s)
unfolding digits_from
none_full x left buf s e = cc

pub atoi_from-digits_from :
    (room x left : ℕ) (buf s rest : List ℕ)
    → x < 4294967296
    → digits_from room x 10 buf ≡ some (left, s)
    → atoi_from 0 (s ++ rest) ≡ atoi_from x (buf ++ rest)
atoi_from-digits_from zero x left buf s rest l e = absurd (none_full x left buf s e)
atoi_from-digits_from (suc room) x left buf s rest l e = elim (Bool-cases (x / 10 == 0)) [
  | inl t ↦
      let q : digit (x % 10) ∷ buf ≡ s =
        some-inj room left (digit (x % 10) ∷ buf) s (sym (digits_from_last room x 10 buf t) ∙ e) in
      let z : 0 * 10 + x % 10 ≡ x = ground arith in
      ap (λ v. atoi_from 0 (v ++ rest)) (sym q)
      ∙ atoi_from-digit 0 (x % 10) (buf ++ rest) (omega arith) (omega arith)
      ∙ ap (λ v. atoi_from v (buf ++ rest)) z
  | inr t ↦
      let z : x / 10 * 10 + x % 10 ≡ x = omega arith in
      atoi_from-digits_from room (x / 10) left (digit (x % 10) ∷ buf) s rest (omega arith)
        (sym (digits_from_more room x 10 buf t) ∙ e)
      ∙ atoi_from-digit (x / 10) (x % 10) (buf ++ rest) (omega arith) (omega arith)
      ∙ ap (λ v. atoi_from v (buf ++ rest)) z
]
