-- ===== src/Shell/Builtin.antt =====
-- LAB1/builtin.c: the internal commands cd, help and exit.
use lab_so.Prelude.{
  ℕ, ◌+◌, ◌≡◌, refl, ◌↔◌, ◌⊎◌, inl, inr, Bool, true, false, Option, none, some, List, [], ◌∷◌, ◌==◌,
  if◌then◌else◌, arith, Bool-cases, ap, ◌∙◌,
}
use lab_so.Shell.Command.{
  Str, codes, Scommand, scommand_front, scommand_length, scommand_pop_front, Pipeline, head,
  pipeline_length, pipeline_front,
}

-- `strcmp(a, b) == 0`
unfoldable pub str_eq : Str → Str → Bool
str_eq [] [] = true
str_eq [] (y ∷ ys) = false
str_eq (x ∷ xs) [] = false
str_eq (x ∷ xs) (y ∷ ys) = if x == y then str_eq xs ys else false

pub str_eq_refl : (a : Str) → str_eq a a ≡ true
unfolding str_eq
str_eq_refl [] = refl
str_eq_refl (x ∷ xs) = ground (arith, str_eq_refl xs)

pub str_eq→eq : (a b : Str) → str_eq a b ≡ true → a ≡ b
unfolding str_eq
str_eq→eq [] [] h = refl
str_eq→eq [] (y ∷ ys) h = cc
str_eq→eq (x ∷ xs) [] h = cc
str_eq→eq (x ∷ xs) (y ∷ ys) h = ground (arith, str_eq→eq xs ys)

abbrev pub intern_command : List Str
intern_command = codes "cd" ∷ codes "help" ∷ codes "exit" ∷ []

-- The loop of `builtin_is_internal`, which stops once `result` is true.
unfoldable pub internal_from : List Str → Str → Bool → Bool
internal_from [] command result = result
internal_from (x ∷ xs) command result =
    let rest = internal_from xs command (str_eq command x) in if result then result else rest

-- `none` is the failed assert of `scommand_front` on an empty command.
unfoldable pub builtin_is_internal : Scommand → Option Bool
unfolding internal_from scommand_front
builtin_is_internal cmd = elim (scommand_front cmd) [
  | none ↦ none
  | some command ↦ some (internal_from intern_command command false)
]

unfoldable pub builtin_alone : Pipeline → Option Bool
unfolding pipeline_length pipeline_front
builtin_alone p =
    if pipeline_length p == 1
    then elim (pipeline_front p) [ none ↦ none | some sc ↦ builtin_is_internal sc ]
    else some false

-- What `builtin_run` does to the world, in order.
pub data Event : Type 0 where
  say_no_route : Event
  chdir : Str → Event
  say_bad_route : Event
  say_help : Event
  exit_success : Event

-- The loop that sets `ind_command`, from index `i` on.
unfoldable pub index_from : List Str → Str → ℕ → ℕ
index_from [] command i = 0
index_from (x ∷ xs) command i = if str_eq command x then i else index_from xs command (i + 1)

-- `chdir_ok` says for each path whether the system call returns 0. `none` is a failed assert.
module _ (chdir_ok : Str → Bool) where
  unfoldable pub run_cd : Scommand → Option (Scommand × List Event)
  unfolding scommand_length scommand_pop_front scommand_front
  run_cd cmd =
      if scommand_length cmd == 1
      then some (cmd, say_no_route ∷ [])
      else elim (scommand_pop_front cmd) [
        | none ↦ none
        | some rest ↦ elim (scommand_front rest) [
          | none ↦ none
          | some route ↦
              some (rest, chdir route ∷ (if chdir_ok route then [] else say_bad_route ∷ []))
        ]
      ]

  unfoldable pub run_index : ℕ → Scommand → Option (Scommand × List Event)
  unfolding run_cd
  run_index i cmd =
      if i == 0
      then run_cd cmd
      else if i == 1
      then some (cmd, say_help ∷ [])
      else if i == 2
      then some (cmd, exit_success ∷ [])
      else some (cmd, [])

  unfoldable pub builtin_run : Scommand → Option (Scommand × List Event)
  unfolding builtin_is_internal run_index index_from
  builtin_run cmd = elim (builtin_is_internal cmd) [
    | none ↦ none
    | some false ↦ none
    | some true ↦ elim (scommand_front cmd) [
      | none ↦ none
      | some command ↦ run_index (index_from intern_command command 0) cmd
    ]
  ]

Named : Str → Type 0
Named c = (c ≡ codes "cd") ⊎ (c ≡ codes "help") ⊎ (c ≡ codes "exit")

internal→Named : (c : Str) → internal_from intern_command c false ≡ true → Named c
unfolding internal_from Named
internal→Named c h = elim (Bool-cases (str_eq c (codes "cd"))) [
  | inl e ↦ inl (str_eq→eq _ _ e)
  | inr n ↦ elim (Bool-cases (str_eq c (codes "help"))) [
    | inl e ↦ inr (inl (str_eq→eq _ _ e))
    | inr m ↦ elim (Bool-cases (str_eq c (codes "exit"))) [
      | inl e ↦ inr (inr (str_eq→eq _ _ e))
      | inr k ↦ ground (arith, n, m, k)
    ]
  ]
]

Named→internal : (c : Str) → Named c → internal_from intern_command c false ≡ true
unfolding internal_from str_eq Named
Named→internal c (inl e) = rw e
Named→internal c (inr (inl e)) = rw e
Named→internal c (inr (inr e)) = rw e

internal_words :
    (cmd : Scommand) (words : List Str)
    → cmd.command ≡ words
    → builtin_is_internal cmd
      ≡ elim (head words) [ none ↦ none | some c ↦ some (internal_from intern_command c false) ]
unfolding builtin_is_internal
internal_words cmd words e = rw e

-- builtin_is_internal is true exactly on a command whose first word is cd, help or exit.
builtin_is_internal_iff :
    (cmd : Scommand)
    → (builtin_is_internal cmd ≡ some true) ↔ (
        (c : Str) × (head cmd.command ≡ some c)
        × ((c ≡ codes "cd") ⊎ (c ≡ codes "help") ⊎ (c ≡ codes "exit")))
unfolding Named
builtin_is_internal_iff cmd = by_words cmd.command refl
  where
    by_words :
        (words : List Str)
        → cmd.command ≡ words
        → (builtin_is_internal cmd ≡ some true) ↔ (
            (c : Str) × (head words ≡ some c)
            × ((c ≡ codes "cd") ⊎ (c ≡ codes "help") ⊎ (c ≡ codes "exit")))
    by_words [] e = (λ h. cc (internal_words cmd [] e), λ r. cc)
    by_words (w ∷ ws) e = (
      λ h. (w, refl, internal→Named w (cc (internal_words cmd (w ∷ ws) e))),
      λ r.
          let (c, q, n) = r in
          let same : w ≡ c = cc in
          internal_words cmd (w ∷ ws) e ∙ ap some (Named→internal w (rw same n)),
    )

-- What an internal command does, by its words. The help text that it prints promises more: `cd ~` is to
-- change to the home directory, and `exit <n>` to end the shell with the code `n`; here `~` is a path like
-- any other, and the words behind exit are not looked at.
abbrev cd_result : (Str → Bool) → Scommand → List Str → Option (Scommand × List Event)
cd_result chdir_ok cmd [] = some (cmd, say_no_route ∷ [])
cd_result chdir_ok cmd (route ∷ rest) = some (
  record cmd { command = route ∷ rest },
  chdir route ∷ (if chdir_ok route then [] else say_bad_route ∷ []),
)

abbrev pub by_its_words : (Str → Bool) → Scommand → List Str → Option (Scommand × List Event)
by_its_words chdir_ok cmd [] = none
by_its_words chdir_ok cmd (name ∷ args) =
    if str_eq name (codes "cd")
    then cd_result chdir_ok cmd args
    else if str_eq name (codes "help")
    then some (cmd, say_help ∷ [])
    else if str_eq name (codes "exit")
    then some (cmd, exit_success ∷ [])
    else none

run_words :
    (chdir_ok : Str → Bool) (words : List Str) (out inp : Option Str)
    → let cmd : Scommand = record { command = words; out = out; inp = inp } in
      builtin_run chdir_ok cmd ≡ by_its_words chdir_ok cmd words
unfolding builtin_run
run_words chdir_ok [] out inp = refl
run_words chdir_ok (w ∷ []) out inp = ground arith
run_words chdir_ok (w ∷ x ∷ xs) out inp = ground arith

-- builtin_run: a command that is not internal, or is empty, fails the assert; cd alone prints that the
-- path is missing; cd with a path drops the first word and changes to the next one, with a message
-- exactly if that fails, also for the path "~"; help prints the help; exit ends the shell with success,
-- whatever words follow it, a number too.
pub builtin_run_lem :
    (chdir_ok : Str → Bool) (cmd : Scommand)
    → builtin_run chdir_ok cmd ≡ by_its_words chdir_ok cmd cmd.command
builtin_run_lem chdir_ok cmd = run_words chdir_ok cmd.command cmd.out cmd.inp

alone :
    (scs : List Scommand) (w : Bool)
    → (builtin_alone (record { scommands = scs; wait = w }) ≡ some true)
      ↔ ((cmd : Scommand) × (scs ≡ cmd ∷ []) × (builtin_is_internal cmd ≡ some true))
unfolding builtin_alone
alone [] w = (λ h. cc, λ r. cc)
alone (x ∷ []) w = (λ h. (x, refl, h), λ r. let (c, e, i) = r in let same : x ≡ c = cc in rw same i)
alone (x ∷ y ∷ ys) w = (λ h. ground arith, λ r. cc)

-- A pipeline is run by the shell itself exactly if it has one command and that is internal.
builtin_alone_iff :
    (p : Pipeline)
    → (builtin_alone p ≡ some true)
      ↔ ((cmd : Scommand) × (p.scommands ≡ cmd ∷ []) × (builtin_is_internal cmd ≡ some true))
builtin_alone_iff p = alone p.scommands p.wait
