-- ===== src/Console/Moves.antt =====
-- kernel/console.c: the moves of consoleintr on the ring, and the same on lists.
use lab_so.Prelude.{
  ℕ, zero, suc, ◌+◌, ◌%◌, ◌≤◌, ◌<◌, ◌≡◌, ◌≢◌, refl, sym, subst, ap, ap₂, ◌∙◌, Bool, true, false,
  not, ◌&&◌, ◌||◌, List, [], ◌∷◌, ◌++◌, ◌==◌, if◌then◌else◌, ltb, length, replicate, All,
  All-append, update, arith,
}
use lab_so.Console.Defs.{input_buf_size, add_uint, sub_uint, Cons, backspace, kill_line}
use lab_so.Console.Ring.{
  window, length-window, window_append, window_other, window_put, ready, line,
}

pub record IsValid (cons : Cons) : Type 0 where
  pub r_fits : cons.r < 4294967296
  pub w_fits : cons.w < 4294967296
  pub e_fits : cons.e < 4294967296
  pub bounded : sub_uint cons.w cons.r + sub_uint cons.e cons.w ≤ input_buf_size
  pub one_line : All (λ c. c ≢ 10) (line cons)

abbrev pub drop_last : List ℕ → List ℕ
drop_last [] = []
drop_last (c ∷ []) = []
drop_last (c ∷ d ∷ s) = c ∷ drop_last (d ∷ s)

abbrev pub typed : ℕ → ℕ
typed c = if c == 13 then 10 else c

-- The same on lists: what is ready, the line, the echo, and whether the readers are woken.
abbrev pub edited : ℕ → List ℕ → List ℕ → List ℕ × List ℕ × List ℕ × Bool
edited c q l =
    if c == 16
    then (q, l, [], false)
    else if c == 21
    then (q, [], replicate (length l) backspace, false)
    else if c == 8 || c == 127
    then (q, drop_last l, (if length l == 0 then [] else backspace ∷ []), false)
    else if not (c == 0) && ltb (length q + length l) input_buf_size
    then (if typed c == 10 || typed c == 4 || suc (length q + length l) == input_buf_size
        then (q ++ (l ++ typed c ∷ []), [], typed c ∷ [], true)
        else (q, l ++ typed c ∷ [], typed c ∷ [], false))
    else (q, l, [], false)

abbrev pub Matches : Cons × List ℕ × Bool → List ℕ × List ℕ × List ℕ × Bool → Type 0
Matches (cons, echo, woken) (q, l, s, b) =
    IsValid cons × (ready cons ≡ q) × (line cons ≡ l) × (echo ≡ s) × (woken ≡ b)

abbrev at : (ℕ → ℕ) → ℕ → ℕ → ℕ → Cons
at buf r w e = record { buf = buf; r = r; w = w; e = e }

-- The last byte of the line.
line_last :
    (buf : ℕ → ℕ) (w e n : ℕ)
    → w < 4294967296
    → e < 4294967296
    → sub_uint e w ≡ suc n
    → window buf w (suc n) ≡ window buf w n ++ buf (sub_uint e 1 % input_buf_size) ∷ []
line_last buf w e n h k q =
    window_append buf w (sub_uint e 1) n 1 (suc n) h (omega arith) (omega arith)

All-left : (P : ℕ → Type 0) (s t : List ℕ) → All P (s ++ t) → All P s × All P t
All-left P [] t a = (tt, a)
All-left P (c ∷ s) t (x, a) = let (b, d) = All-left P s t a in ((x, b), d)

kill_line_step :
    (n : ℕ) (buf : ℕ → ℕ) (r w e : ℕ)
    → e ≢ w
    → buf (sub_uint e 1 % input_buf_size) ≢ 10
    → kill_line (suc n) (at buf r w e) ≡ (
      (kill_line n (at buf r w (sub_uint e 1))).0,
      backspace ∷ (kill_line n (at buf r w (sub_uint e 1))).1,
    )
unfolding kill_line
kill_line_step n buf r w e h k =
    let f : (e == w) ≡ false = ground arith in
    let g : (buf (sub_uint e 1 % input_buf_size) == 10) ≡ false = ground arith in rw (f, g) refl

kill_line_lem :
    (n : ℕ) (buf : ℕ → ℕ) (r w e : ℕ)
    → w < 4294967296
    → e < 4294967296
    → sub_uint e w ≡ n
    → All (λ c. c ≢ 10) (window buf w n)
    → kill_line n (at buf r w e) ≡ (at buf r w w, replicate n backspace)
unfolding kill_line
kill_line_lem zero buf r w e h k q a = let z : e ≡ w = omega arith in ap (λ i. (at buf r w i, [])) z
kill_line_lem (suc n) buf r w e h k q a =
    let (b, (d, _)) =
      All-left (λ c. c ≢ 10) (window buf w n) (buf (sub_uint e 1 % input_buf_size) ∷ [])
        (subst (All (λ c. c ≢ 10)) (line_last buf w e n h k q) a) in
    let z = kill_line_lem n buf r w (sub_uint e 1) h (omega arith) (omega arith) b in
    kill_line_step n buf r w e (omega arith) d ∙ ap (λ p. (p.0, backspace ∷ p.1)) z

drop_last_append : (s : List ℕ) (c : ℕ) → drop_last (s ++ c ∷ []) ≡ s
drop_last_append [] c = refl
drop_last_append (b ∷ []) c = refl
drop_last_append (b ∷ d ∷ s) c = ap (λ t. b ∷ t) (drop_last_append (d ∷ s) c)

module _ (buf : ℕ → ℕ) (r w e : ℕ) (v : IsValid (at buf r w e)) where
  -- A line with no bytes.
  cut_IsValid : IsValid (at buf r w w)
  cut_IsValid = record {
    r_fits = v.r_fits;
    w_fits = v.w_fits;
    e_fits = v.w_fits;
    bounded = omega (arith, v.r_fits, v.w_fits, v.e_fits, v.bounded);
    one_line = subst (λ n. All (λ c. c ≢ 10) (window buf w n)) z tt;
  }
    where
      z : 0 ≡ sub_uint w w
      z = omega (arith, v.w_fits)

  cut_empty : line (at buf r w w) ≡ []
  cut_empty = let z : sub_uint w w ≡ 0 = omega (arith, v.w_fits) in ap (window buf w) z

  pub killed_line :
      Matches
        (
          (kill_line (sub_uint e w) (at buf r w e)).0,
          (kill_line (sub_uint e w) (at buf r w e)).1,
          false,
        )
        (ready (at buf r w e), [], replicate (length (line (at buf r w e))) backspace, false)
  killed_line =
      let k = kill_line_lem (sub_uint e w) buf r w e v.w_fits v.e_fits refl v.one_line in
      (
        subst IsValid (ap (λ p. p.0) (sym k)) cut_IsValid,
        ap (λ p. ready p.0) k,
        ap (λ p. line p.0) k ∙ cut_empty,
        ap (λ p. p.1) k
            ∙ ap (λ n. replicate n backspace) (sym (length-window buf w (sub_uint e w))),
        refl,
      )

  module _ (n : ℕ) (q : sub_uint e w ≡ suc n) where
    shorter : sub_uint (sub_uint e 1) w ≡ n
    shorter = omega (arith, v.w_fits, v.e_fits)

    parts : line (at buf r w e) ≡ window buf w n ++ buf (sub_uint e 1 % input_buf_size) ∷ []
    parts = ap (window buf w) q ∙ line_last buf w e n v.w_fits v.e_fits q

    pub erased :
        Matches
          (at buf r w (sub_uint e 1), backspace ∷ [], false)
          (
            ready (at buf r w e),
            drop_last (line (at buf r w e)),
            (if length (line (at buf r w e)) == 0 then [] else backspace ∷ []),
            false,
          )
    erased = (
      record {
        r_fits = v.r_fits;
        w_fits = v.w_fits;
        e_fits = omega arith;
        bounded = omega (arith, shorter, v.bounded);
        one_line =
            subst (λ m. All (λ c. c ≢ 10) (window buf w m)) (sym shorter)
              (All-left (λ c. c ≢ 10) (window buf w n) (buf (sub_uint e 1 % input_buf_size) ∷ [])
                (subst (All (λ c. c ≢ 10)) parts v.one_line)).0;
      },
      refl,
      ap (window buf w) shorter
          ∙ sym (drop_last_append (window buf w n) (buf (sub_uint e 1 % input_buf_size)))
          ∙ ap drop_last (sym parts),
      (let z : (length (line (at buf r w e)) == 0) ≡ false =
            (let y = length-window buf w (sub_uint e w) in ground arith) in
          rw z refl),
      refl,
    )

  module _ (c : ℕ) (room : sub_uint w r + sub_uint e w < input_buf_size) where
    abbrev kept : ℕ → ℕ
    kept = update buf (e % input_buf_size) c

    longer : sub_uint (add_uint e 1) w ≡ suc (sub_uint e w)
    longer = omega (arith, v.w_fits, v.e_fits)

    same_ready : window kept r (sub_uint w r) ≡ ready (at buf r w e)
    same_ready =
        window_other buf c (sub_uint w r) r (e % input_buf_size) (sub_uint e w) v.r_fits
          (omega (arith, v.r_fits, v.w_fits, v.e_fits)) room

    longer_line : window kept w (suc (sub_uint e w)) ≡ line (at buf r w e) ++ c ∷ []
    longer_line =
        window_put buf c (sub_uint e w) w (e % input_buf_size) v.w_fits
          (omega (arith, v.w_fits, v.e_fits)) (omega arith)

    pub put_in :
        c ≢ 10
        → Matches
            (at kept r w (add_uint e 1), c ∷ [], false)
            (ready (at buf r w e), line (at buf r w e) ++ c ∷ [], c ∷ [], false)
    put_in h = (
      record {
        r_fits = v.r_fits;
        w_fits = v.w_fits;
        e_fits = omega arith;
        bounded = omega (arith, longer);
        one_line =
            subst (All (λ c. c ≢ 10)) (sym (ap (window kept w) longer ∙ longer_line))
              (All-append (λ c. c ≢ 10) (line (at buf r w e)) (c ∷ []) v.one_line (h, tt));
      },
      same_ready,
      ap (window kept w) longer ∙ longer_line,
      refl,
      refl,
    )

    pub committed :
        Matches
          (at kept r (add_uint e 1) (add_uint e 1), c ∷ [], true)
          (ready (at buf r w e) ++ (line (at buf r w e) ++ c ∷ []), [], c ∷ [], true)
    committed = (
      record {
        r_fits = v.r_fits;
        w_fits = omega arith;
        e_fits = omega arith;
        bounded = omega (arith, v.r_fits, v.w_fits, v.e_fits);
        one_line = subst (λ n. All (λ c. c ≢ 10) (window kept (add_uint e 1) n)) (sym z) tt;
      },
      window_append kept r w (sub_uint w r) (suc (sub_uint e w)) (sub_uint (add_uint e 1) r)
            v.r_fits (omega (arith, v.r_fits, v.w_fits))
            (omega (arith, v.r_fits, v.w_fits, v.e_fits))
          ∙ ap₂ ◌++◌ same_ready longer_line,
      ap (window kept (add_uint e 1)) z,
      refl,
      refl,
    )
      where
        z : sub_uint (add_uint e 1) (add_uint e 1) ≡ 0
        z = omega arith
