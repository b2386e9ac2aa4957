-- ===== src/Shell/Text.antt =====
-- LAB1/command.c: what the two `to_string` functions print.
use lab_so.Prelude.{
  ℕ, ◌+◌, ◌-◌, ◌≡◌, refl, ◌∙◌, sym, ap, ap₂, Bool, true, false, List, [], ◌∷◌, ◌++◌, map, ◌==◌,
  if◌then◌else◌, length, get_or, ltb, lt→ltb, arith, append-nil, append_assoc, length-append,
}
use lab_so.Shell.Command.{
  Str, codes, strmerge, Scommand, scommand_new, args_from, with_redir, scommand_to_string, Pipeline,
  commands_from, pipeline_to_string,
}

-- The texts one after the other, with `sep` between two.
abbrev pub join : Str → List Str → Str
join sep [] = []
join sep (x ∷ []) = x
join sep (x ∷ y ∷ ys) = x ++ (sep ++ join sep (y ∷ ys))

-- Each text with `sep` before it.
abbrev tails : Str → List Str → Str
tails sep [] = []
tails sep (x ∷ xs) = sep ++ (x ++ tails sep xs)

join-tails : (sep x : Str) (xs : List Str) → join sep (x ∷ xs) ≡ x ++ tails sep xs
join-tails sep x [] = sym (append-nil x)
join-tails sep x (y ∷ ys) = rw (join-tails sep y ys)

get_or-append :
    {A : Type 0} (xs : List A) (y : A) (ys : List A) (d : A)
    → get_or (xs ++ y ∷ ys) (length xs) d ≡ y
get_or-append [] y ys d = refl
get_or-append (x ∷ xs) y ys d = get_or-append xs y ys d

args_from_lem :
    (whole done rest : List Str) (n : ℕ) (result : Str)
    → whole ≡ done ++ rest
    → n ≡ length done
    → args_from whole (length rest) n result ≡ result ++ tails (codes " ") rest
unfolding args_from strmerge
args_from_lem whole done [] n result w e = sym (append-nil result)
args_from_lem whole done (x ∷ xs) n result w e =
    let got : get_or whole n [] ≡ x = rw (w, e) (get_or-append done x xs []) in
    let ih =
      args_from_lem whole (done ++ x ∷ []) xs (n + 1) ((result ++ codes " ") ++ x)
        (w ∙ sym (append_assoc done (x ∷ []) xs))
        (omega (arith, length-append {0} done (x ∷ []))) in
    ap (λ v. args_from whole (length xs) (n + 1) ((result ++ codes " ") ++ v)) got
    ∙ ih
    ∙ (append_assoc (result ++ codes " ") x (tails (codes " ") xs)
        ∙ append_assoc result (codes " ") (x ++ tails (codes " ") xs))

args :
    (xs : List Str)
    → args_from xs (length xs - 1) 1 (if ltb 0 (length xs) then get_or xs 0 [] else [])
      ≡ join (codes " ") xs
unfolding args_from
args [] = refl
args (x ∷ xs) =
    let e : length (x ∷ xs) - 1 ≡ length xs = omega arith in
    rw (lt→ltb 0 (length (x ∷ xs)) (omega arith), e, join-tails (codes " ") x xs)
      (args_from_lem (x ∷ xs) (x ∷ []) xs 1 x refl refl)

-- scommand_to_string gives the arguments with one space between two, then the output redirection
-- after " > ", if there is one, then the input redirection after " < ", if there is one.
scommand_to_string_lem :
    (self : Scommand)
    → scommand_to_string self
      ≡ with_redir
          (codes " < ")
          self.inp
          (with_redir (codes " > ") self.out (join (codes " ") self.command))
unfolding scommand_to_string
scommand_to_string_lem self = rw (args self.command)

abbrev pub texts : List Scommand → List Str
texts = map scommand_to_string

commands_from_lem :
    (whole done rest : List Scommand) (i : ℕ) (result : Str)
    → whole ≡ done ++ rest
    → i ≡ length done
    → commands_from whole (length rest) i result ≡ result ++ join (codes " | ") (texts rest)
unfolding commands_from strmerge
commands_from_lem whole done [] i result w e = sym (append-nil result)
commands_from_lem whole done (x ∷ []) i result w e =
    let got : get_or whole i scommand_new ≡ x = rw (w, e) (get_or-append done x [] scommand_new) in
    let last : (i == length whole - 1) ≡ true =
      ground (arith, ap length w, length-append {0} done (x ∷ [])) in
    rw last (ap (λ v. result ++ scommand_to_string v) got)
commands_from_lem whole done (x ∷ y ∷ ys) i result w e =
    let got : get_or whole i scommand_new ≡ x =
      rw (w, e) (get_or-append done x (y ∷ ys) scommand_new) in
    let more : (i == length whole - 1) ≡ false =
      ground (arith, ap length w, length-append {0} done (x ∷ y ∷ ys)) in
    let ih =
      commands_from_lem whole (done ++ x ∷ []) (y ∷ ys) (i + 1)
        ((result ++ scommand_to_string x) ++ codes " | ")
        (w ∙ sym (append_assoc done (x ∷ []) (y ∷ ys)))
        (omega (arith, length-append {0} done (x ∷ []))) in
    ap
      (λ b. commands_from whole (length (y ∷ ys)) (i + 1) (
        if b
        then result ++ scommand_to_string (get_or whole i scommand_new)
        else (result ++ scommand_to_string (get_or whole i scommand_new)) ++ codes " | "))
      more
    ∙ ap
        (λ v.
          commands_from whole (length (y ∷ ys)) (i + 1)
            ((result ++ scommand_to_string v) ++ codes " | "))
        got
    ∙ ih
    ∙ (append_assoc (result ++ scommand_to_string x) (codes " | ")
          (join (codes " | ") (texts (y ∷ ys)))
        ∙ append_assoc result (scommand_to_string x)
            (codes " | " ++ join (codes " | ") (texts (y ∷ ys))))

commands :
    (xs : List Scommand)
    → commands_from xs (length xs - 1) 1 (
        if length xs == 0
        then []
        else strmerge (scommand_to_string (get_or xs 0 scommand_new)) (codes " | "))
      ≡ (if length xs == 1
          then join (codes " | ") (texts xs) ++ codes " | "
          else join (codes " | ") (texts xs))
unfolding strmerge commands_from
commands [] = refl
commands (x ∷ []) = refl
commands (x ∷ y ∷ ys) =
    let some_left : (length (x ∷ y ∷ ys) == 0) ≡ false = ground arith in
    let several : (length (x ∷ y ∷ ys) == 1) ≡ false = ground arith in
    let rounds : length (x ∷ y ∷ ys) - 1 ≡ length (y ∷ ys) = omega arith in
    ap₂
      (λ b r.
        commands_from (x ∷ y ∷ ys) r 1
          (if b then [] else strmerge (scommand_to_string x) (codes " | ")))
      some_left rounds
    ∙ commands_from_lem (x ∷ y ∷ ys) (x ∷ []) (y ∷ ys) 1 (scommand_to_string x ++ codes " | ") refl
        refl
    ∙ append_assoc (scommand_to_string x) (codes " | ") (join (codes " | ") (texts (y ∷ ys)))
    ∙ ap
        (λ b.
          if b
          then join (codes " | ") (texts (x ∷ y ∷ ys)) ++ codes " | "
          else join (codes " | ") (texts (x ∷ y ∷ ys)))
        (sym several)

abbrev pub background : Bool → Str
background true = []
background false = codes " & "

ends : (w : Bool) (s : Str) → (if w then s else strmerge s (codes " & ")) ≡ s ++ background w
unfolding strmerge
ends true s = sym (append-nil s)
ends false s = refl

-- pipeline_to_string gives nothing for an empty pipeline, and for two commands or more their texts with
-- " | " between two; a single command is followed by " | ". If the pipeline does not wait, " & " comes
-- last.
pub pipeline_to_string_lem :
    (self : Pipeline)
    → pipeline_to_string self
      ≡ (if length self.scommands == 1
          then join (codes " | ") (texts self.scommands) ++ codes " | "
          else join (codes " | ") (texts self.scommands))
        ++ background self.wait
unfolding pipeline_to_string
pipeline_to_string_lem self = rw (commands self.scommands) (ends self.wait _)
