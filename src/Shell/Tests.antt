-- ===== src/Shell/Tests.antt =====
-- LAB1: runs of the shell at concrete inputs, and the theorems at such inputs.
use lab_so.Prelude.{
  ℕ, ◌≡◌, refl, Bool, true, false, Option, none, some, List, [], ◌∷◌, ◌++◌, ◌==◌, if◌then◌else◌,
  length,
}
use lab_so.Shell.Command.{
  Str, codes, strmerge, Scommand, args_from, scommand_to_string, Pipeline, commands_from,
  pipeline_to_string,
}
use lab_so.Shell.Text.{join, texts, background, pipeline_to_string_lem}
use lab_so.Shell.Builtin.{str_eq, chdir, say_bad_route, builtin_run, by_its_words, builtin_run_lem}
use lab_so.Shell.Parsing.{Kind, normal, Parser, parse_pipeline}
use lab_so.Shell.Parsing.RoundTrip.{Token, ends, arg, bar, amp, newline, Reads}
use lab_so.Shell.Execute.{terminal, Table, execute_pipeline, several, launched, upto}
use lab_so.Shell.Execute.Wiring.{fates_from, execute_pipeline-several}

-- ls -l > f < g
abbrev ls : Scommand
ls = record {
  command = codes "ls" ∷ codes "-l" ∷ [];
  out = some (codes "f");
  inp = some (codes "g");
}

abbrev wc : Scommand
wc = record { command = codes "wc" ∷ []; out = none; inp = none }

abbrev cd : Scommand
cd = record { command = codes "cd" ∷ codes "/x" ∷ []; out = none; inp = none }

abbrev ls_wc : Pipeline
ls_wc = record { scommands = ls ∷ wc ∷ []; wait = false }

ls_text : scommand_to_string ls ≡ codes "ls -l > f < g"
unfolding scommand_to_string args_from strmerge
ls_text = refl

ls_wc_text : pipeline_to_string ls_wc ≡ codes "ls -l > f < g | wc & "
unfolding pipeline_to_string commands_from scommand_to_string args_from strmerge
ls_wc_text = refl

-- A single command is followed by the separator.
wc_text : pipeline_to_string (record { scommands = wc ∷ []; wait = true }) ≡ codes "wc | "
unfolding pipeline_to_string commands_from scommand_to_string args_from strmerge
wc_text = refl

pipeline_to_string_lem_example :
    pipeline_to_string ls_wc
    ≡ (if length ls_wc.scommands == 1
        then join (codes " | ") (texts ls_wc.scommands) ++ codes " | "
        else join (codes " | ") (texts ls_wc.scommands))
      ++ background ls_wc.wait
pipeline_to_string_lem_example = pipeline_to_string_lem ls_wc

abbrev never : Str → Bool
never s = false

builtin_run_lem_example : builtin_run never cd ≡ by_its_words never cd cd.command
builtin_run_lem_example = builtin_run_lem never cd

cd_runs :
    builtin_run never cd
    ≡ some (record cd { command = codes "/x" ∷ [] }, chdir (codes "/x") ∷ say_bad_route ∷ [])
unfolding builtin_run str_eq
cd_runs = refl

-- A parser over a list of tokens, as parser.h documents it.
abbrev drop_newline : List Token → Bool × List Token
drop_newline (newline ∷ ts) = (false, ts)
drop_newline ts = (true, [])

abbrev token_arg : List Token → Option Str × Kind × List Token
token_arg (arg k s ∷ ts) = (some s, k, ts)
token_arg ts = (none, normal, ts)

abbrev token_pipe : List Token → Bool × List Token
token_pipe (bar ∷ ts) = (true, ts)
token_pipe ts = (false, ts)

abbrev token_amp : List Token → Bool × List Token
token_amp (amp ∷ ts) = (true, ts)
token_amp ts = (false, ts)

abbrev no_tokens : List Token → Bool
no_tokens [] = true
no_tokens (t ∷ ts) = false

abbrev tokens : Parser
tokens = record {
  P = List Token;
  next_argument = token_arg;
  at_eof = no_tokens;
  skip_blanks = λ ts. ts;
  op_pipe = token_pipe;
  op_background = token_amp;
  garbage = drop_newline;
}

token_reading : Reads tokens
token_reading = record {
  view = λ ts. ts;
  not_eof = λ p t ts e. rw e refl;
  next_arg = λ p k s ts e. (ts, rw e refl, refl);
  next_end = λ p t ts e f. (t ∷ ts, rw e (at_end t ts f), refl);
  skip = λ p. refl;
  pipe_bar = λ p ts e. (ts, rw e refl, refl);
  pipe_other = λ p t ts e f. (t ∷ ts, rw e (no_bar t ts f), refl);
  background_amp = λ p ts e. (ts, rw e refl, refl);
  background_newline = λ p ts e. (newline ∷ ts, rw e refl, refl);
  garbage_newline = λ p ts e. (ts, rw e refl, refl);
}
  where
    at_end :
        (t : Token) (ts : List Token) → ends t ≡ true → token_arg (t ∷ ts) ≡ (none, normal, t ∷ ts)
    at_end (arg k s) ts f = cc
    at_end bar ts f = refl
    at_end amp ts f = refl
    at_end newline ts f = refl

    no_bar : (t : Token) (ts : List Token) → (t ≡ bar → ⊥) → token_pipe (t ∷ ts) ≡ (false, t ∷ ts)
    no_bar bar ts f = absurd (f refl)
    no_bar (arg k s) ts f = refl
    no_bar amp ts f = refl
    no_bar newline ts f = refl

-- The assert of parse_pipeline fails at the end of the file.
parse_closed : parse_pipeline tokens 9 [] ≡ none
unfolding parse_pipeline
parse_closed = refl

abbrev console : Table
console = record { stdin = terminal; stdout = terminal; opened = [] }

abbrev all_ok : ℕ → Bool
all_ok k = true

execute_pipeline-several_example :
    execute_pipeline never all_ok all_ok ls_wc console
    ≡ some (
        several launched console
          (fates_from console 0 ls_wc.scommands)
          (if false then upto 2 else []))
execute_pipeline-several_example =
    execute_pipeline-several never all_ok all_ok ls wc [] false console refl (λ k. (refl, refl))
