-- ===== src/Shell/Execute/Wiring.antt =====
-- LAB1/execute.c: which descriptors the children and the shell end up with.
use lab_so.Prelude.{
  ℕ, ◌+◌, ◌-◌, ◌<◌, ◌≡◌, refl, ap, ◌∙◌, Bool, true, false, ◌||◌, Option, none, some, List, [], ◌∷◌,
  ◌++◌, ◌==◌, if◌then◌else◌, length, append_assoc, append-nil, arith,
}
use lab_so.Shell.Command.{Str, Scommand, scommand_to_string}
use lab_so.Shell.Builtin.{builtin_alone}
use lab_so.Shell.Execute.{
  rd, wr, file_in, file_out, Table, open_pipe, wire_child, close_before, redirect, take_args, Fate,
  exec, fails, execute_scommand, child, launched, launch, upto, waited, several, run_external,
  execute_pipeline,
}

take_args_lem :
    (ws : List Str) (argv : List Str) (out inp : Option Str)
    → take_args (length ws) (record { command = ws; out = out; inp = inp }) argv
      ≡ some (argv ++ ws, record { command = []; out = out; inp = inp })
unfolding take_args
take_args_lem [] argv out inp = rw append-nil
take_args_lem (w ∷ ws) argv out inp =
    take_args_lem ws (argv ++ w ∷ []) out inp
    ∙ ap (λ v. some (v, record { command = []; out = out; inp = inp }))
        (append_assoc argv (w ∷ []) ws)

-- The file of a redirection takes the place of the end it redirects.
abbrev pub redirected : Option Str → Option Str → Table → Table
redirected inp out t = record {
  stdin = elim inp [ none ↦ t.stdin | some f ↦ file_in f ];
  stdout = elim out [ none ↦ t.stdout | some f ↦ file_out f ];
  opened = t.opened;
}

redirect_lem :
    (ws : List Str) (out inp : Option Str) (t : Table)
    → redirect (record { command = ws; out = out; inp = inp }) t ≡ redirected inp out t
unfolding redirect
redirect_lem ws none none t = refl
redirect_lem ws none (some f) t = refl
redirect_lem ws (some g) none t = refl
redirect_lem ws (some g) (some f) t = refl

-- A child executes all the words of its command, and its redirections come last.
execute_scommand_lem :
    (sc : Scommand) (t : Table)
    → execute_scommand sc t ≡ some (exec sc.command (redirected sc.inp sc.out t))
unfolding execute_scommand
execute_scommand_lem sc t =
    ground (arith, take_args_lem sc.command [] sc.out sc.inp, redirect_lem [] sc.out sc.inp t)

-- The table of child `i` before its redirections: its input is the pipe of the child before it, its
-- output the pipe of its own, and no other end of a pipe is open.
abbrev pub wired : Table → ℕ → Bool → Table
wired t i last = record {
  stdin = if i == 0 then t.stdin else rd (i - 1);
  stdout = if last then t.stdout else wr i;
  opened = [];
}

abbrev pub fate_of : Table → ℕ → Bool → Scommand → Fate
fate_of t i last sc = elim (scommand_to_string sc) [
  | [] ↦ fails
  | c ∷ cs ↦ exec sc.command (redirected sc.inp sc.out (wired t i last))
]

abbrev pub fates_from : Table → ℕ → List Scommand → List Fate
fates_from t i [] = []
fates_from t i (sc ∷ []) = fate_of t i true sc ∷ []
fates_from t i (sc ∷ sd ∷ scs) = fate_of t i false sc ∷ fates_from t (i + 1) (sd ∷ scs)

-- The shell's table when `i` children of `n` are started.
abbrev at : Table → ℕ → ℕ → Table
at t n i = record t { opened = if i == 0 || i == n then [] else rd (i - 1) ∷ wr (i - 1) ∷ [] }

wire_child_last :
    (t : Table) (n i : ℕ) → 1 < n → i + 1 ≡ n → wire_child n i (at t n i) ≡ wired t i true
unfolding wire_child
wire_child_last t n i h e = ground arith

wire_child_more :
    (t : Table) (n i : ℕ) → i + 1 < n → wire_child n i (open_pipe i (at t n i)) ≡ wired t i false
unfolding wire_child open_pipe
wire_child_more t n i h = ground arith

close_before_last :
    (t : Table) (n i : ℕ) → 1 < n → i + 1 ≡ n → close_before i (at t n i) ≡ at t n (i + 1)
unfolding close_before
close_before_last t n i h e = ground arith

close_before_more :
    (t : Table) (n i : ℕ) → i + 1 < n → close_before i (open_pipe i (at t n i)) ≡ at t n (i + 1)
unfolding close_before open_pipe
close_before_more t n i h = ground arith

child_lem :
    (t u : Table) (n i : ℕ) (last : Bool) (sc : Scommand) (scs : List Scommand) (w : Bool)
    → wire_child n i u ≡ wired t i last
    → child n i (record { scommands = sc ∷ scs; wait = w }) u ≡ some (fate_of t i last sc)
unfolding child
child_lem t u n i last sc scs w e = by_text (scommand_to_string sc) refl
  where
    by_text :
        (s : Str)
        → scommand_to_string sc ≡ s
        → child n i (record { scommands = sc ∷ scs; wait = w }) u ≡ some (fate_of t i last sc)
    by_text [] q = ground (arith, q)
    by_text (c ∷ cs) q = ground (arith, q, e, execute_scommand_lem sc (wire_child n i u))

module _ (pipes forks : ℕ → Bool) (t : Table) (n : ℕ) (w : Bool) where
  launch_lem :
      (sc : Scommand) (scs : List Scommand) (i : ℕ) (fates : List Fate)
      → ((k : ℕ) → (pipes k ≡ true) × (forks k ≡ true))
      → 1 < n
      → i + length (sc ∷ scs) ≡ n
      → launch pipes forks n
          (length (sc ∷ scs))
          i
          (record { scommands = sc ∷ scs; wait = w })
          (at t n i)
          fates
        ≡ some (launched, at t n n, fates ++ fates_from t i (sc ∷ scs))
  unfolding launch
  launch_lem sc [] i fates ok big e =
      let final : i + 1 ≡ n = omega arith in
      ground (
        arith,
        ok i,
        child_lem t (at t n i) n i true sc [] w (wire_child_last t n i big final),
        close_before_last t n i big final,
      )
  launch_lem sc (sd ∷ scs) i fates ok big e =
      let more : i + 1 < n = omega arith in
      ground (
        arith,
        ok i,
        child_lem t (open_pipe i (at t n i)) n i false sc (sd ∷ scs) w (wire_child_more t n i more),
        close_before_more t n i more,
        launch_lem sd scs (i + 1) (fates ++ fate_of t i false sc ∷ []) ok big (omega arith),
        append_assoc fates (fate_of t i false sc ∷ []) (fates_from t (i + 1) (sd ∷ scs)),
      )

launch_several :
    (pipes forks : ℕ → Bool) (sc sd : Scommand) (scs : List Scommand) (w : Bool) (t : Table)
    → t.opened ≡ []
    → ((k : ℕ) → (pipes k ≡ true) × (forks k ≡ true))
    → let n = length (sc ∷ sd ∷ scs) in
      launch pipes forks n n 0 (record { scommands = sc ∷ sd ∷ scs; wait = w }) t []
      ≡ some (launched, t, fates_from t 0 (sc ∷ sd ∷ scs))
launch_several pipes forks sc sd scs w t o ok =
    let n = length (sc ∷ sd ∷ scs) in
    let start : at t n 0 ≡ t = ground arith in
    let last : at t n n ≡ t = ground arith in
    let l = launch_lem pipes forks t n w sc (sd ∷ scs) 0 [] ok (omega arith) (omega arith) in
    rw start at (rw last at l)

waited-launched : (w : Bool) (n : ℕ) → waited launched w n ≡ (if w then upto n else [])
waited-launched true n = refl
waited-launched false n = refl

-- A pipeline of two commands or more, where every pipe and fork succeeds, the files of redirections open
-- and the shell has no pipe open: all children are started, and the shell has its own descriptors as
-- before. A child whose command has an empty text fails; each other executes all the words of its
-- command with its input from the pipe before it and its output to the pipe after it (the ends of the
-- pipeline keep the shell's), no other pipe end open, and the command's redirections put on top. The
-- shell waits for all of them, in order, if the pipeline waits, and for none otherwise.
pub execute_pipeline-several :
    (chdir_ok : Str → Bool) (pipes forks : ℕ → Bool) (sc sd : Scommand) (scs : List Scommand)
    (w : Bool) (t : Table)
    → t.opened ≡ []
    → ((k : ℕ) → (pipes k ≡ true) × (forks k ≡ true))
    → execute_pipeline chdir_ok pipes forks (record { scommands = sc ∷ sd ∷ scs; wait = w }) t
      ≡ some (
          several launched t
            (fates_from t 0 (sc ∷ sd ∷ scs))
            (if w then upto (length (sc ∷ sd ∷ scs)) else []))
unfolding execute_pipeline run_external builtin_alone
execute_pipeline-several chdir_ok pipes forks sc sd scs w t o ok =
    let n = length (sc ∷ sd ∷ scs) in
    let run = launch_several pipes forks sc sd scs w t o ok in
    ground (arith, run, waited-launched w n)
