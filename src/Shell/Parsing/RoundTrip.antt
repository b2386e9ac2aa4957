-- ===== src/Shell/Parsing/RoundTrip.antt =====
-- LAB1/parsing.c: a pipeline written out as tokens is parsed back.
use lab_so.Prelude.{◌≡◌, ◌≢◌, Bool, true, false, Option, none, some, List, [], ◌∷◌, ◌++◌}
use lab_so.Shell.Command.{Str, Scommand, Pipeline}
use lab_so.Shell.Parsing.{Kind, normal, input, output, Parser, add_argument}

pub data Token : Type 0 where
  arg : Kind → Str → Token
  bar amp newline : Token

abbrev pub ends : Token → Bool
ends (arg k s) = false
ends _ = true

-- What the parser does, which stands before a list of tokens: parser.h documents that next_argument does not
-- go past "|" and the end of the line, and the others. That it does not go past "&" either, and that it gives
-- NULL with ARG_NORMAL at these, is what parse_scommand relies on to end a command, and what
-- tests/test_parsing.c checks on lines such as "comando arg1 | filtro arg2 &".
pub record Reads (r : Parser) : Type 0 where
  pub view : r.P → List Token
  pub not_eof : (p : r.P) (t : Token) (ts : List Token) → view p ≡ t ∷ ts → r.at_eof p ≡ false
  pub next_arg :
      (p : r.P) (k : Kind) (s : Str) (ts : List Token)
      → view p ≡ arg k s ∷ ts
      → (p' : r.P) × (r.next_argument p ≡ (some s, k, p')) × (view p' ≡ ts)
  pub next_end :
      (p : r.P) (t : Token) (ts : List Token)
      → view p ≡ t ∷ ts
      → ends t ≡ true
      → (p' : r.P) × (r.next_argument p ≡ (none, normal, p')) × (view p' ≡ t ∷ ts)
  pub skip : (p : r.P) → view (r.skip_blanks p) ≡ view p
  pub pipe_bar :
      (p : r.P) (ts : List Token)
      → view p ≡ bar ∷ ts
      → (p' : r.P) × (r.op_pipe p ≡ (true, p')) × (view p' ≡ ts)
  pub pipe_other :
      (p : r.P) (t : Token) (ts : List Token)
      → view p ≡ t ∷ ts
      → t ≢ bar
      → (p' : r.P) × (r.op_pipe p ≡ (false, p')) × (view p' ≡ t ∷ ts)
  pub background_amp :
      (p : r.P) (ts : List Token)
      → view p ≡ amp ∷ ts
      → (p' : r.P) × (r.op_background p ≡ (true, p')) × (view p' ≡ ts)
  pub background_newline :
      (p : r.P) (ts : List Token)
      → view p ≡ newline ∷ ts
      → (p' : r.P) × (r.op_background p ≡ (false, p')) × (view p' ≡ newline ∷ ts)
  pub garbage_newline :
      (p : r.P) (ts : List Token)
      → view p ≡ newline ∷ ts
      → (p' : r.P) × (r.garbage p ≡ (false, p')) × (view p' ≡ ts)

abbrev pub Args : Type 0
Args = List (Kind × Str)

abbrev arg_tokens : Args → List Token
arg_tokens [] = []
arg_tokens ((k, s) ∷ as_) = arg k s ∷ arg_tokens as_

abbrev add_all : Args → Scommand → Scommand
add_all [] sc = sc
add_all ((k, s) ∷ as_) sc = add_all as_ (add_argument k s sc)

-- A command as it is typed: its words, then its input and its output.
abbrev redir : Kind → Option Str → Args
redir k none = []
redir k (some s) = (k, s) ∷ []

abbrev words : List Str → Args → Args
words [] rest = rest
words (w ∷ ws) rest = (normal, w) ∷ words ws rest

abbrev pub args_of : Scommand → Args
args_of sc = words sc.command (redir input sc.inp ++ redir output sc.out)

abbrev closing : Bool → List Token → List Token
closing true rest = newline ∷ rest
closing false rest = amp ∷ newline ∷ rest

-- A pipeline as it is typed, up to the end of its line, and what stands after it.
abbrev line_of : List Scommand → List Token → List Token
line_of [] rest = rest
line_of (sc ∷ []) rest = arg_tokens (args_of sc) ++ rest
line_of (sc ∷ sd ∷ scs) rest = arg_tokens (args_of sc) ++ bar ∷ line_of (sd ∷ scs) rest

abbrev pub tokens_of : Pipeline → List Token → List Token
tokens_of pl rest = line_of pl.scommands (closing pl.wait rest)
