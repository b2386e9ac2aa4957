-- ===== src/Grep/Language.antt =====
-- user/grep.c: what a regular expression means, and that match decides it.
use lab_so.Prelude.{
  ℕ, ◌≡◌, refl, ap, ◌⊎◌, inl, inr, ◌↔◌, Bool, true, List, [], ◌∷◌, ◌++◌, append_assoc, All, ◌==◌,
  if◌then◌else◌, Bool-cases, arith,
}
use lab_so.Grep.Defs.{
  caret, dollar, asterisk, dot, is_empty, matchstar, match_one, matchhere, match_from, match,
}

-- The syntax of an expression: a character, any number of a character, the end of the text.
pub data Token : Type 0 where
  one many : ℕ → Token
  at_end : Token

-- An expression less a '^' before it. A '*' stands for itself in front, a '$' before the end.
abbrev pub tokens : List ℕ → List Token
tokens [] = []
tokens (c ∷ []) = if c == dollar then at_end ∷ [] else one c ∷ []
tokens (c ∷ d ∷ re) =
    let after = tokens re in
    let rest = tokens (d ∷ re) in if d == asterisk then many c ∷ after else one c ∷ rest

-- The character `c` of an expression stands for `t`.
abbrev pub Fits : ℕ → ℕ → Type 0
Fits c t = (c ≡ dot) ⊎ (c ≡ t)

-- The word `w` is one that the expression stands for, where the text goes on with `after`.
abbrev pub Accepts : List Token → List ℕ → List ℕ → Type 0
Accepts [] w after = w ≡ []
Accepts (one c ∷ ts) w after = (t : ℕ) × (v : List ℕ) × (w ≡ t ∷ v) × Fits c t × Accepts ts v after
Accepts (many c ∷ ts) w after =
    (u : List ℕ) × (v : List ℕ) × (w ≡ u ++ v) × All (Fits c) u × Accepts ts v after
Accepts (at_end ∷ ts) w after = (after ≡ []) × Accepts ts w after

-- The text begins with a word of the expression.
abbrev pub Begins : List Token → List ℕ → Type 0
Begins ts text = (w : List ℕ) × (after : List ℕ) × (text ≡ w ++ after) × Accepts ts w after

-- The text has a word of the expression, at its front if a '^' is before the expression.
abbrev pub Matches : List ℕ → List ℕ → Type 0
Matches [] text = (before : List ℕ) × (rest : List ℕ) × (text ≡ before ++ rest) × Begins [] rest
Matches (c ∷ re) text =
    if c == caret
    then Begins (tokens re) text
    else (before : List ℕ) × (rest : List ℕ) × (text ≡ before ++ rest)
      × Begins (tokens (c ∷ re)) rest

module _ (ts : List Token) (here : List ℕ → Bool)
    (sound : (x : List ℕ) → here x ≡ true → Begins ts x) where
  match_one_sound :
      (c : ℕ) (text : List ℕ) → match_one c here text ≡ true → Begins (one c ∷ ts) text
  unfolding match_one
  match_one_sound c [] h = cc
  match_one_sound c (t ∷ text) h =
      let f : Fits c t = ground arith in
      let (w, after, e, a) = sound text (ground arith) in
      (t ∷ w, after, ap (λ x. t ∷ x) e, (t, w, refl, f, a))

  matchstar_sound :
      (c : ℕ) (text : List ℕ) → matchstar c here text ≡ true → Begins (many c ∷ ts) text
  unfolding matchstar
  matchstar_sound c [] h = let (w, after, e, a) = sound [] h in (w, after, e, ([], w, refl, tt, a))
  matchstar_sound c (t ∷ text) h = elim (Bool-cases (here (t ∷ text))) [
    | inl b ↦ let (w, after, e, a) = sound (t ∷ text) b in (w, after, e, ([], w, refl, tt, a))
    | inr b ↦
        let f : Fits c t = ground arith in
        let (w, after, e, (u, v, p, q, a)) = matchstar_sound c text (ground arith) in
        (t ∷ w, after, ap (λ x. t ∷ x) e, (t ∷ u, v, ap (λ x. t ∷ x) p, (f, q), a))
  ]

  match_from_sound :
      (text : List ℕ)
      → match_from here text ≡ true
      → (before : List ℕ) × (rest : List ℕ) × (text ≡ before ++ rest) × Begins ts rest
  unfolding match_from
  match_from_sound [] h = ([], [], refl, sound [] h)
  match_from_sound (t ∷ text) h = elim (Bool-cases (here (t ∷ text))) [
    | inl b ↦ ([], t ∷ text, refl, sound (t ∷ text) b)
    | inr b ↦
        let (before, rest, e, a) = match_from_sound text (ground arith) in
        (t ∷ before, rest, ap (λ x. t ∷ x) e, a)
  ]

matchhere_sound : (re text : List ℕ) → matchhere re text ≡ true → Begins (tokens re) text
unfolding matchhere is_empty
matchhere_sound [] text h = ([], text, refl, refl)
matchhere_sound (c ∷ []) text h = elim (Bool-cases (c == dollar)) [
  | inl b ↦ rw b (ends text (ground arith))
  | inr b ↦ rw b (match_one_sound [] (matchhere []) (matchhere_sound []) c text (ground arith))
]
  where
    ends : (text : List ℕ) → is_empty text ≡ true → Begins (at_end ∷ []) text
    ends [] h = ([], [], refl, (refl, refl))
    ends (t ∷ text) h = cc
matchhere_sound (c ∷ d ∷ re) text h = elim (Bool-cases (d == asterisk)) [
  | inl b ↦
      rw b (matchstar_sound (tokens re) (matchhere re) (matchhere_sound re) c text (ground arith))
  | inr b ↦ rw b (
      match_one_sound (tokens (d ∷ re)) (matchhere (d ∷ re)) (matchhere_sound (d ∷ re)) c text
        (ground arith))
]

module _ (ts : List Token) (here : List ℕ → Bool)
    (complete : (w after : List ℕ) → Accepts ts w after → here (w ++ after) ≡ true) where
  match_one_complete :
      (c : ℕ) (w after : List ℕ)
      → Accepts (one c ∷ ts) w after
      → match_one c here (w ++ after) ≡ true
  unfolding match_one
  match_one_complete c w after (t, v, e, f, a) = rw e (let h = complete v after a in ground arith)

  matchstar_complete :
      (c : ℕ) (u v after : List ℕ)
      → All (Fits c) u
      → Accepts ts v after
      → matchstar c here (u ++ (v ++ after)) ≡ true
  unfolding matchstar
  matchstar_complete c [] v after f a = at_once (v ++ after) (complete v after a)
    where
      at_once : (text : List ℕ) → here text ≡ true → matchstar c here text ≡ true
      at_once [] h = h
      at_once (t ∷ text) h = ground arith
  matchstar_complete c (t ∷ u) v after f a =
      one_more (u ++ (v ++ after)) f.0 (matchstar_complete c u v after f.1 a)
    where
      one_more :
          (text : List ℕ)
          → Fits c t
          → matchstar c here text ≡ true
          → matchstar c here (t ∷ text) ≡ true
      one_more text fits h = ground arith

  match_from_complete :
      (before w after : List ℕ)
      → Accepts ts w after
      → match_from here (before ++ (w ++ after)) ≡ true
  unfolding match_from
  match_from_complete [] w after a = at_once (w ++ after) (complete w after a)
    where
      at_once : (text : List ℕ) → here text ≡ true → match_from here text ≡ true
      at_once [] h = h
      at_once (t ∷ text) h = ground arith
  match_from_complete (t ∷ before) w after a =
      later (before ++ (w ++ after)) (match_from_complete before w after a)
    where
      later : (text : List ℕ) → match_from here text ≡ true → match_from here (t ∷ text) ≡ true
      later text h = ground arith

matchhere_complete :
    (re w after : List ℕ) → Accepts (tokens re) w after → matchhere re (w ++ after) ≡ true
unfolding matchhere is_empty
matchhere_complete [] w after a = refl
matchhere_complete (c ∷ []) w after a = elim (Bool-cases (c == dollar)) [
  | inl b ↦ let a' = rw b at a in ends w after a'.0 a'.1 b
  | inr b ↦
      let a' = rw b at a in
      rw b (match_one_complete [] (matchhere []) (matchhere_complete []) c w after a')
]
  where
    ends :
        (w after : List ℕ)
        → after ≡ []
        → w ≡ []
        → (c == dollar) ≡ true
        → matchhere (c ∷ []) (w ++ after) ≡ true
    ends w after e f b = rw (e, f, b) refl
matchhere_complete (c ∷ d ∷ re) w after a = elim (Bool-cases (d == asterisk)) [
  | inl b ↦
      let (u, v, e, f, a') = rw b at a in
      let m =
        matchstar_complete (tokens re) (matchhere re) (matchhere_complete re) c u v after f a' in
      rw (b, e, append_assoc u v after) m
  | inr b ↦
      let a' = rw b at a in
      rw b (
        match_one_complete (tokens (d ∷ re)) (matchhere (d ∷ re)) (matchhere_complete (d ∷ re)) c w
          after a')
]

-- match answers 1 exactly where the text has a word of the language of the expression: anywhere in the
-- text, or at its front if the expression begins with '^'; `.` stands for any character, `c*` for any
-- number of what `c` stands for, and a last `$` for the end of the text.
pub match_lem : (re text : List ℕ) → (match re text ≡ true) ↔ Matches re text
unfolding match
match_lem [] text = (
  match_from_sound [] (matchhere []) (matchhere_sound []) text,
  λ m.
      let (before, rest, e, (w, after, f, a)) = m in
      rw (e, f) (match_from_complete [] (matchhere []) (matchhere_complete []) before w after a),
)
match_lem (c ∷ re) text = elim (Bool-cases (c == caret)) [
  | inl b ↦ rw b (
    matchhere_sound re text,
    λ m. let (w, after, f, a) = m in rw f (matchhere_complete re w after a),
  )
  | inr b ↦ rw b (
    match_from_sound (tokens (c ∷ re)) (matchhere (c ∷ re)) (matchhere_sound (c ∷ re)) text,
    λ m.
        let (before, rest, e, (w, after, f, a)) = m in
        rw (e, f)
          (match_from_complete (tokens (c ∷ re)) (matchhere (c ∷ re)) (matchhere_complete (c ∷ re))
            before w after a),
  )
]
