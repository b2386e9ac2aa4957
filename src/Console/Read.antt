-- ===== src/Console/Read.antt =====
-- kernel/console.c: consoleread takes a line of those that are ready, and gives what was typed.
use lab_so.Prelude.{
  ℕ, zero, suc, ◌%◌, ◌≡◌, ◌≢◌, refl, sym, subst, ap, ◌∙◌, inl, inr, Bool, true, false, not, List,
  [], ◌∷◌, ◌==◌, if◌then◌else◌, ltb, Bool-cases, arith,
}
use lab_so.Console.Defs.{
  input_buf_size, add_uint, sub_uint, Cons, Run, returns, fails, sleeps, after, read_from,
  consoleread,
}
use lab_so.Console.Ring.{window, ready, line}
use lab_so.Console.Moves.{IsValid}

-- consoleread on the list of the bytes that are ready: what it copies, and what stays.
abbrev pub taken : Bool → (ℕ → Bool) → ℕ → ℕ → List ℕ → Run × List ℕ
taken killed copies target zero q = (returns [], q)
taken killed copies target (suc n) [] = (if killed then fails else sleeps [] (suc n), [])
taken killed copies target (suc n) (c ∷ q) =
    if c == 4
    then (returns [], if ltb (suc n) target then c ∷ q else q)
    else if not (copies (suc n))
    then (returns [], q)
    else if c == 10
    then (returns (c ∷ []), q)
    else (after c (taken killed copies target n q).0, (taken killed copies target n q).1)

abbrev pub Takes : Cons → Run × Cons → Run × List ℕ → Type 0
Takes cons (run, cons') (run', q) =
    IsValid cons' × (line cons' ≡ line cons) × (run ≡ run') × (ready cons' ≡ q)

abbrev next : Cons → Cons
next cons = record cons { r = add_uint cons.r 1 }

abbrev head : Cons → ℕ
head cons = cons.buf (cons.r % input_buf_size)

module _ (cons : Cons) (v : IsValid cons) (h : cons.r ≢ cons.w) where
  next-IsValid : IsValid (next cons)
  next-IsValid = record {
    r_fits = omega arith;
    w_fits = v.w_fits;
    e_fits = v.e_fits;
    bounded = omega (arith, v.r_fits, v.w_fits, v.bounded);
    one_line = v.one_line;
  }

  ready-next : ready cons ≡ head cons ∷ ready (next cons)
  ready-next =
      let z : sub_uint cons.w cons.r ≡ suc (sub_uint cons.w (add_uint cons.r 1)) =
        omega (arith, v.r_fits, v.w_fits) in
      ap (window cons.buf cons.r) z

  put_back : record (next cons) { r = sub_uint (add_uint cons.r 1) 1 } ≡ cons
  put_back =
      let z : sub_uint (add_uint cons.r 1) 1 ≡ cons.r = omega (arith, v.r_fits) in
      ap (λ i. record cons { r = i }) z

Takes-trans :
    (cons : Cons) (a a' : Run × Cons) (b b' : Run × List ℕ)
    → a' ≡ a
    → b' ≡ b
    → Takes cons a b
    → Takes cons a' b'
Takes-trans cons a a' b b' e f t =
    subst (λ x. Takes cons x b') (sym e) (subst (Takes cons a) (sym f) t)

-- A round with a byte to read.
round : (ℕ → Bool) → ℕ → ℕ → Cons → Run × Cons → Run × Cons
round copies target n cons (run, cons'') =
    if head cons == 4
    then (
      returns [],
      if ltb (suc n) target
          then record (next cons) { r = sub_uint (add_uint cons.r 1) 1 }
          else next cons,
    )
    else if not (copies (suc n))
    then (returns [], next cons)
    else if head cons == 10
    then (returns (head cons ∷ []), next cons)
    else (after (head cons) run, cons'')

read_from_empty :
    (killed : Bool) (copies : ℕ → Bool) (target n : ℕ) (cons : Cons)
    → (cons.r == cons.w) ≡ true
    → read_from killed copies target (suc n) cons
      ≡ (if killed then fails else sleeps [] (suc n), cons)
unfolding read_from
read_from_empty killed copies target n cons t = rw t refl

read_from-round :
    (killed : Bool) (copies : ℕ → Bool) (target n : ℕ) (cons : Cons)
    → (cons.r == cons.w) ≡ false
    → read_from killed copies target (suc n) cons
      ≡ round copies target n cons (read_from killed copies target n (next cons))
unfolding read_from round
read_from-round killed copies target n cons t = rw t refl

round_lem :
    (killed : Bool) (copies : ℕ → Bool) (target n : ℕ) (cons : Cons)
    → IsValid cons
    → cons.r ≢ cons.w
    → Takes
        (next cons)
        (read_from killed copies target n (next cons))
        (taken killed copies target n (ready (next cons)))
    → Takes cons
        (round copies target n cons (read_from killed copies target n (next cons)))
        (taken killed copies target (suc n) (head cons ∷ ready (next cons)))
unfolding round
round_lem killed copies target n cons v h ih =
    let back = put_back cons v h in
    let same = ready-next cons v h in
    elim (Bool-cases (head cons == 4)) [
      | inl t ↦ elim (Bool-cases (ltb (suc n) target)) [
        | inl u ↦ rw (t, u) (subst IsValid (sym back) v, ap line back, refl, ap ready back ∙ same)
        | inr u ↦ rw (t, u) (next-IsValid cons v h, refl, refl, refl)
      ]
      | inr t ↦ elim (Bool-cases (not (copies (suc n)))) [
        | inl u ↦ rw (t, u) (next-IsValid cons v h, refl, refl, refl)
        | inr u ↦ elim (Bool-cases (head cons == 10)) [
          | inl x ↦ rw (t, u, x) (next-IsValid cons v h, refl, refl, refl)
          | inr x ↦ rw (t, u, x) (ih.0, ih.1, ap (after (head cons)) ih.2, ih.3)
        ]
      ]
    ]

read_from_lem :
    (killed : Bool) (copies : ℕ → Bool) (target n : ℕ) (cons : Cons)
    → IsValid cons
    → Takes cons (read_from killed copies target n cons) (taken killed copies target n (ready cons))
unfolding read_from
read_from_lem killed copies target zero cons v = (v, refl, refl, refl)
read_from_lem killed copies target (suc n) cons v = elim (Bool-cases (cons.r == cons.w)) [
  | inl t ↦
      let z : sub_uint cons.w cons.r ≡ 0 = (let a = v.r_fits in let b = v.w_fits in ground arith) in
      let e : ready cons ≡ [] = ap (window cons.buf cons.r) z in
      Takes-trans cons (if killed then fails else sleeps [] (suc n), cons)
        (read_from killed copies target (suc n) cons) (taken killed copies target (suc n) [])
        (taken killed copies target (suc n) (ready cons))
        (read_from_empty killed copies target n cons t) (ap (taken killed copies target (suc n)) e)
        (v, refl, refl, e)
  | inr t ↦
      let h : cons.r ≢ cons.w = ground arith in
      Takes-trans cons (round copies target n cons (read_from killed copies target n (next cons)))
        (read_from killed copies target (suc n) cons)
        (taken killed copies target (suc n) (head cons ∷ ready (next cons)))
        (taken killed copies target (suc n) (ready cons))
        (read_from-round killed copies target n cons t)
        (ap (taken killed copies target (suc n)) (ready-next cons v h))
        (round_lem killed copies target n cons v h
          (read_from_lem killed copies target n (next cons) (next-IsValid cons v h)))
]

-- A run of consoleread on a valid buffer, up to its end or its next sleep, is the one on the list of the
-- bytes that are ready, which copies at most `n` of them and stops behind a newline or at a ^D; the buffer
-- stays valid and the line that is typed stays as it is.
pub consoleread_lem :
    (killed : Bool) (copies : ℕ → Bool) (n : ℕ) (cons : Cons)
    → IsValid cons
    → Takes cons (consoleread killed copies n cons) (taken killed copies n n (ready cons))
unfolding consoleread
consoleread_lem killed copies n cons v = read_from_lem killed copies n n cons v
