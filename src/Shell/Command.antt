-- ===== src/Shell/Command.antt =====
-- LAB1/command.c: simple commands and pipelines. A GQueue of GLib is the list of its elements; a
-- failed `assert` ends the program and is `none`. Memory is not modelled: a freed string is dropped.
use Prim.Native.Char.{code}
use Prim.Native.String.{String}
use lab_so.Prelude.{
  ℕ, zero, suc, ◌+◌, ◌-◌, Bool, true, Option, none, some, List, [], ◌∷◌, ◌++◌, ◌==◌, if◌then◌else◌,
  length, get_or, ltb,
}

-- A C string: its bytes before the NUL.
abbrev pub Str : Type 0
Str = List ℕ

abbrev pub codes : String → Str
codes String.[] = []
codes (String.◌∷◌ c s) = code c ∷ codes s

-- strextra.c `strmerge`.
unfoldable pub strmerge : Str → Str → Str
strmerge s1 s2 = s1 ++ s2

pub record Scommand : Type 0 where
  pub command : List Str
  pub out : Option Str
  pub inp : Option Str

unfoldable pub scommand_new : Scommand
scommand_new = record { command = []; out = none; inp = none }

unfoldable pub scommand_push_back : Scommand → Str → Scommand
scommand_push_back self argument = record self { command = self.command ++ argument ∷ [] }

abbrev pop_head : Scommand → List Str → Option Scommand
pop_head self [] = none
pop_head self (x ∷ xs) = some (record self { command = xs })

unfoldable pub scommand_pop_front : Scommand → Option Scommand
scommand_pop_front self = pop_head self self.command

unfoldable pub scommand_set_redir_in : Scommand → Str → Scommand
scommand_set_redir_in self filename = record self { inp = some filename }

unfoldable pub scommand_set_redir_out : Scommand → Str → Scommand
scommand_set_redir_out self filename = record self { out = some filename }

unfoldable pub scommand_length : Scommand → ℕ
scommand_length self = length self.command

unfoldable pub scommand_is_empty : Scommand → Bool
scommand_is_empty self = length self.command == 0

abbrev pub head : {A : Type 0} → List A → Option A
head [] = none
head (x ∷ xs) = some x

unfoldable pub scommand_front : Scommand → Option Str
scommand_front self = head self.command

-- The loop over the arguments, from number `n` on, with `rounds` of them left.
unfoldable pub args_from : List Str → ℕ → ℕ → Str → Str
args_from command zero n result = result
args_from command (suc rounds) n result =
    args_from command rounds (n + 1) (strmerge (strmerge result (codes " ")) (get_or command n []))

abbrev pub with_redir : Str → Option Str → Str → Str
with_redir symbol none result = result
with_redir symbol (some file) result = strmerge (strmerge result symbol) file

unfoldable pub scommand_to_string : Scommand → Str
scommand_to_string self =
    let first = if ltb 0 (length self.command) then get_or self.command 0 [] else [] in
    let args = args_from self.command (length self.command - 1) 1 first in
    with_redir (codes " < ") self.inp (with_redir (codes " > ") self.out args)

pub record Pipeline : Type 0 where
  pub scommands : List Scommand
  pub wait : Bool

unfoldable pub pipeline_new : Pipeline
pipeline_new = record { scommands = []; wait = true }

unfoldable pub pipeline_push_back : Pipeline → Scommand → Pipeline
pipeline_push_back self sc = record self { scommands = self.scommands ++ sc ∷ [] }

abbrev pop_scommand : Pipeline → List Scommand → Option Pipeline
pop_scommand self [] = none
pop_scommand self (x ∷ xs) = some (record self { scommands = xs })

unfoldable pub pipeline_pop_front : Pipeline → Option Pipeline
pipeline_pop_front self = pop_scommand self self.scommands

unfoldable pub pipeline_set_wait : Pipeline → Bool → Pipeline
pipeline_set_wait self w = record self { wait = w }

unfoldable pub pipeline_is_empty : Pipeline → Bool
pipeline_is_empty self = length self.scommands == 0

unfoldable pub pipeline_length : Pipeline → ℕ
pipeline_length self = length self.scommands

unfoldable pub pipeline_front : Pipeline → Option Scommand
pipeline_front self = head self.scommands

-- The loop of `pipeline_to_string` from command `i` on, with `rounds` commands left.
unfoldable pub commands_from : List Scommand → ℕ → ℕ → Str → Str
commands_from scommands zero i result = result
commands_from scommands (suc rounds) i result =
    let temp = strmerge result (scommand_to_string (get_or scommands i scommand_new)) in
    commands_from scommands rounds (i + 1)
      (if i == length scommands - 1 then temp else strmerge temp (codes " | "))

unfoldable pub pipeline_to_string : Pipeline → Str
pipeline_to_string self =
    let first =
      if length self.scommands == 0
      then []
      else strmerge (scommand_to_string (get_or self.scommands 0 scommand_new)) (codes " | ") in
    let result = commands_from self.scommands (length self.scommands - 1) 1 first in
    if self.wait then result else strmerge result (codes " & ")
