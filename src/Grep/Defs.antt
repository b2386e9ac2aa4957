-- ===== src/Grep/Defs.antt =====
-- user/grep.c: match, matchhere and matchstar. A string is the list of its characters up to the NUL, so
-- reading the NUL is reading `[]`.
use lab_so.Prelude.{ℕ, Bool, true, false, ◌||◌, List, [], ◌∷◌, ◌==◌, if◌then◌else◌}

-- '^', '$', '*' and '.'
abbrev pub caret : ℕ
caret = 94

abbrev pub dollar : ℕ
dollar = 36

abbrev pub asterisk : ℕ
asterisk = 42

abbrev pub dot : ℕ
dot = 46

unfoldable pub is_empty : List ℕ → Bool
is_empty [] = true
is_empty (t ∷ text) = false

-- `here` is `matchhere(re, _)` for the rest `re` of the expression.
unfoldable pub matchstar : ℕ → (List ℕ → Bool) → List ℕ → Bool
matchstar c here [] = here []
matchstar c here (t ∷ text) =
    let rest = matchstar c here text in
    if here (t ∷ text) then true else if t == c || c == dot then rest else false

-- The test of one character, and `matchhere(re+1, text+1)`.
unfoldable pub match_one : ℕ → (List ℕ → Bool) → List ℕ → Bool
match_one c here [] = false
match_one c here (t ∷ text) = if c == dot || c == t then here text else false

unfoldable pub matchhere : List ℕ → List ℕ → Bool
matchhere [] text = true
matchhere (c ∷ []) text = if c == dollar then is_empty text else match_one c (matchhere []) text
matchhere (c ∷ d ∷ re) text =
    if d == asterisk then matchstar c (matchhere re) text else match_one c (matchhere (d ∷ re)) text

-- The loop of `match`.
unfoldable pub match_from : (List ℕ → Bool) → List ℕ → Bool
match_from here [] = here []
match_from here (t ∷ text) =
    let rest = match_from here text in if here (t ∷ text) then true else rest

unfoldable pub match : List ℕ → List ℕ → Bool
match [] text = match_from (matchhere []) text
match (c ∷ re) text = if c == caret then matchhere re text else match_from (matchhere (c ∷ re)) text
