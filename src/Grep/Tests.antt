-- ===== src/Grep/Tests.antt =====
-- user/grep.c: runs at concrete inputs, and the theorem at one.
use lab_so.Prelude.{ℕ, ◌≡◌, refl, ◌↔◌, true, false, List, [], ◌∷◌}
use lab_so.Grep.Defs.{match_one, matchstar, matchhere, match, is_empty}
use lab_so.Grep.Language.{Matches, match_lem}

-- "^a*b$" and "aab"
abbrev pattern_ab : List ℕ
pattern_ab = 94 ∷ 97 ∷ 42 ∷ 98 ∷ 36 ∷ []

abbrev text_aab : List ℕ
text_aab = 97 ∷ 97 ∷ 98 ∷ []

match_aab : match pattern_ab text_aab ≡ true
unfolding match matchhere matchstar match_one is_empty
match_aab = refl

match_aaab : match pattern_ab (97 ∷ text_aab) ≡ true
unfolding match matchhere matchstar match_one is_empty
match_aaab = refl

no_match_ba : match pattern_ab (98 ∷ 97 ∷ []) ≡ false
unfolding match matchhere matchstar match_one is_empty
no_match_ba = refl

match_lem_example : (match pattern_ab text_aab ≡ true) ↔ Matches pattern_ab text_aab
match_lem_example = match_lem pattern_ab text_aab
