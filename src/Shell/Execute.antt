-- ===== src/Shell/Execute.antt =====
-- LAB1/execute.c: the processes and pipes of a pipeline.
-- The system calls are a parameter only through their results: `forks` says for each call of fork
-- whether it succeeds, `pipes` the same for pipe. A descriptor table has the standard input and output
-- and the pipe ends that are open besides; fork copies it.
pub mod Wiring
use lab_so.Prelude.{
  ℕ, zero, suc, ◌+◌, ◌-◌, Bool, true, false, not, ◌&&◌, Option, none, some, List, [], ◌∷◌, ◌++◌,
  ◌==◌, if◌then◌else◌, length,
}
use lab_so.Shell.Builtin.{Event, builtin_alone, builtin_run}
use lab_so.Shell.Command.{
  Str, Scommand, scommand_to_string, scommand_front, scommand_pop_front, Pipeline, pipeline_length,
  pipeline_front, pipeline_pop_front, pipeline_is_empty,
}

-- `rd i` and `wr i` are `pipefd[i][0]` and `pipefd[i][1]`; `file f` is an opened redirection.
pub data End : Type 0 where
  terminal : End
  rd wr : ℕ → End
  file_in file_out : Str → End

pub record Table : Type 0 where
  pub stdin : End
  pub stdout : End
  pub opened : List End

abbrev pub same_end : End → End → Bool
same_end (rd i) (rd j) = i == j
same_end (wr i) (wr j) = i == j
same_end _ _ = false

abbrev pub remove : End → List End → List End
remove e [] = []
remove e (x ∷ xs) = if same_end e x then remove e xs else x ∷ remove e xs

-- `close` of an end that is not a standard one.
unfoldable pub close : End → Table → Table
close e t = record t { opened = remove e t.opened }

unfoldable pub dup_in : End → Table → Table
dup_in e t = record t { stdin = e }

unfoldable pub dup_out : End → Table → Table
dup_out e t = record t { stdout = e }

unfoldable pub open_pipe : ℕ → Table → Table
open_pipe i t = record t { opened = rd i ∷ wr i ∷ t.opened }

-- The wiring of child `i` of `n`, between its fork and `execute_scommand`.
unfoldable pub wire_out : ℕ → ℕ → Table → Table
unfolding close dup_out
wire_out n i t = if i == n - 1 then t else close (wr i) (dup_out (wr i) (close (rd i) t))

unfoldable pub wire_in : ℕ → Table → Table
unfolding close dup_in
wire_in i t = if i == 0 then t else close (rd (i - 1)) (dup_in (rd (i - 1)) (close (wr (i - 1)) t))

unfoldable pub wire_child : ℕ → ℕ → Table → Table
unfolding wire_out wire_in
wire_child n i t = wire_in i (wire_out n i t)

-- The parent closes the pipe before the child.
unfoldable pub close_before : ℕ → Table → Table
unfolding close
close_before i t = if i == 0 then t else close (wr (i - 1)) (close (rd (i - 1)) t)

-- `execute_scommand` up to `execvp`: the arguments, and the table after the redirections,
-- whose files open.
unfoldable pub redirect : Scommand → Table → Table
unfolding dup_in dup_out
redirect sc t =
    let t' : Table = elim sc.inp [ none ↦ t | some f ↦ dup_in (file_in f) t ] in
    elim sc.out [ none ↦ t' | some f ↦ dup_out (file_out f) t' ]

-- The loop that moves the words of `sc` to `argv`: the words, and what is left of the command.
unfoldable pub take_args : ℕ → Scommand → List Str → Option (List Str × Scommand)
unfolding scommand_front scommand_pop_front
take_args zero sc argv = some (argv, sc)
take_args (suc n) sc argv = elim (scommand_front sc) [
  | none ↦ none
  | some w ↦ elim (scommand_pop_front sc) [
    | none ↦ none
    | some sc' ↦ take_args n sc' (argv ++ w ∷ [])
  ]
]

-- What a process does in the end: it executes words under a table, or leaves with a message.
pub data Fate : Type 0 where
  exec : List Str → Table → Fate
  fails : Fate

unfoldable pub execute_scommand : Scommand → Table → Option Fate
unfolding take_args redirect
execute_scommand sc t = elim (take_args (length sc.command) sc []) [
  | none ↦ none
  | some (argv, sc') ↦ some (exec argv (redirect sc' t))
]

-- Child `i` of `n`, with the commands that are left.
unfoldable pub child : ℕ → ℕ → Pipeline → Table → Option Fate
unfolding pipeline_front
child n i p t = elim (pipeline_front p) [
  | none ↦ none
  | some sc ↦ elim (scommand_to_string sc) [
    | [] ↦ some fails
    | c ∷ cs ↦ execute_scommand sc (wire_child n i t)
  ]
]

-- How the parent leaves the loop: through all rounds, out of `exit(EXIT_FAILURE)`, or at a failed fork.
pub data Outcome : Type 0 where
  launched : Outcome
  pipe_failed : Outcome
  fork_failed : Outcome

-- The parent's loop from `i` on, with `rounds` children to start: the outcome, the parent's table and
-- what each child does. `none` is a failed assert.
module _ (pipes forks : ℕ → Bool) (n : ℕ) where
  unfoldable pub launch :
      ℕ → ℕ → Pipeline → Table → List Fate → Option (Outcome × Table × List Fate)
  unfolding pipeline_pop_front
  launch zero i p t fates = some (launched, t, fates)
  launch (suc rounds) i p t fates =
      let last = i == n - 1 in
      let t' = if last then t else open_pipe i t in
      if not last && not (pipes i)
      then some (pipe_failed, t, fates)
      else if not (forks i)
      then some (fork_failed, t', fates)
      else elim (child n i p t') [
        | none ↦ none
        | some fate ↦ elim (pipeline_pop_front p) [
          | none ↦ none
          | some p' ↦ launch rounds (i + 1) p' (close_before i t') (fates ++ fate ∷ [])
        ]
      ]

-- What a call of `execute_pipeline` comes to. With one external command: the fate of its child, `none`
-- for a failed fork, and whether the shell calls waitpid. With several: how the loop was left, the
-- shell's table, the children's fates, and the children it waits for.
pub data Ran : Type 0 where
  nothing : Ran
  internal : Scommand → List Event → Ran
  single : Option Fate → Bool → Ran
  several : Outcome → Table → List Fate → List ℕ → Ran

abbrev pub upto : ℕ → List ℕ
upto zero = []
upto (suc n) = upto n ++ n ∷ []

-- The children that are waited for after the loop: all, in order, if the pipeline waits.
abbrev pub waited : Outcome → Bool → ℕ → List ℕ
waited launched true n = upto n
waited _ _ n = []

module _ (chdir_ok : Str → Bool) (pipes forks : ℕ → Bool) where
  unfoldable pub run_external : Pipeline → Table → Option Ran
  unfolding pipeline_length pipeline_front
  run_external p t =
      if pipeline_length p == 1
      then (if forks 0
          then elim (pipeline_front p) [
            | none ↦ none
            | some sc ↦ elim (execute_scommand sc t) [
              | none ↦ none
              | some fate ↦ some (single (some fate) p.wait)
            ]
          ]
          else some (single none p.wait))
      else elim (launch pipes forks (pipeline_length p) (pipeline_length p) 0 p t []) [
        | none ↦ none
        | some (o, t', fates) ↦ some (several o t' fates (waited o p.wait (pipeline_length p)))
      ]

  unfoldable pub execute_pipeline : Pipeline → Table → Option Ran
  unfolding pipeline_is_empty pipeline_front
  execute_pipeline p t = if pipeline_is_empty p then some nothing else elim (builtin_alone p) [
    | none ↦ none
    | some false ↦ run_external p t
    | some true ↦ elim (pipeline_front p) [
      | none ↦ none
      | some sc ↦ elim (builtin_run chdir_ok sc) [
        | none ↦ none
        | some (sc', events) ↦ some (internal sc' events)
      ]
    ]
  ]
