-- ===== src/Shell/Parsing.antt =====
-- LAB1/parsing.c: from the tokens of a line to a pipeline. The parser that reads the tokens
-- (LAB1/parser.h) comes as object code, so it is a parameter here.
pub mod RoundTrip
use lab_so.Prelude.{
  ℕ, zero, suc, ◌+◌, Bool, true, false, not, ◌&&◌, Option, none, some, ◌==◌, if◌then◌else◌,
}
use lab_so.Shell.Command.{
  Str, Scommand, scommand_new, scommand_push_back, scommand_set_redir_in, scommand_set_redir_out,
  scommand_length, Pipeline, pipeline_new, pipeline_push_back, pipeline_set_wait, pipeline_length,
  pipeline_front,
}

-- `arg_kind_t`: ARG_NORMAL, ARG_INPUT, ARG_OUTPUT.
pub data Kind : Type 0 where
  normal input output : Kind

-- The functions of parser.h that parsing.c calls.
pub record Parser : Type 1 where
  pub P : Type 0
  pub next_argument : P → Option Str × Kind × P
  pub at_eof : P → Bool
  pub skip_blanks : P → P
  pub op_pipe : P → Bool × P
  pub op_background : P → Bool × P
  pub garbage : P → Bool × P

-- One argument put into the command, by its kind.
unfoldable pub add_argument : Kind → Str → Scommand → Scommand
unfolding scommand_push_back scommand_set_redir_in scommand_set_redir_out
add_argument normal par scom = scommand_push_back scom par
add_argument input par scom = scommand_set_redir_in scom par
add_argument output par scom = scommand_set_redir_out scom par

-- A missing argument ends the command if it is not the file of a redirection (`none` is NULL).
unfoldable pub no_argument : Kind → Scommand → Option Scommand
no_argument normal scom = some scom
no_argument input scom = none
no_argument output scom = none

module _ (r : Parser) where
  open r use {P, next_argument, at_eof, skip_blanks, op_pipe, op_background, garbage}

  -- The loop of `parse_scommand`. The outer `none` is the end of the fuel, the inner one is NULL.
  unfoldable pub scommand_loop : ℕ → P → Scommand → Option (Option Scommand × P)
  scommand_loop zero p scom = none
  scommand_loop (suc fuel) p scom = elim (at_eof p) [
    | true ↦ some (some scom, p)
    | false ↦
        let (par, kind, p') = next_argument p in
        elim par [
          | none ↦ some (no_argument kind scom, p')
          | some arg ↦ scommand_loop fuel p' (add_argument kind arg scom)
        ]
  ]

  unfoldable pub parse_scommand : ℕ → P → Option (Option Scommand × P)
  unfolding scommand_loop scommand_new
  parse_scommand fuel p = scommand_loop fuel p scommand_new

  -- The loop of `parse_pipeline` over the commands.
  unfoldable pub pipeline_loop : ℕ → ℕ → P → Pipeline → Option (Option Pipeline × P)
  unfolding parse_scommand pipeline_push_back
  pipeline_loop zero f p result = none
  pipeline_loop (suc fuel) f p result = elim (parse_scommand f p) [
    | none ↦ none
    | some (cmd, p') ↦ elim cmd [
      | none ↦ some (none, p')
      | some sc ↦
          let (another_pipe, p'') = op_pipe (skip_blanks p') in
          elim another_pipe [
            | true ↦ pipeline_loop fuel f p'' (pipeline_push_back result sc)
            | false ↦ some (some (pipeline_push_back result sc), p'')
          ]
    ]
  ]

  -- `pipeline_length(result) == 1 && scommand_length(pipeline_front(result)) == 0`
  unfoldable pub is_blank : Pipeline → Bool
  unfolding pipeline_length pipeline_front scommand_length
  is_blank result =
      pipeline_length result == 1
      && (elim (pipeline_front result) [ none ↦ false | some sc ↦ scommand_length sc == 0 ])

  -- What follows the loop: the background operator, the end of the line, and the last tests.
  unfoldable pub finish : Option Pipeline → P → Option Pipeline × P
  unfolding is_blank pipeline_set_wait
  finish none p = (none, p)
  finish (some result) p =
      let (wait, p') = op_background p in
      let (gar, p'') = garbage p' in
      let result' = pipeline_set_wait result (not wait) in
      (if is_blank result' then none else if gar then none else some result', p'')

  -- `parse_pipeline`; the outer `none` is the failed assert at the end of the file, or the end of the fuel.
  unfoldable pub parse_pipeline : ℕ → P → Option (Option Pipeline × P)
  unfolding pipeline_loop finish pipeline_new
  parse_pipeline fuel p = if at_eof p then none else elim (pipeline_loop fuel fuel p pipeline_new) [
    | none ↦ none
    | some (result, p') ↦ some (finish result p')
  ]
