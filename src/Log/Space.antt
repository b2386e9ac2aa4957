-- ===== src/Log/Space.antt =====
-- kernel/log.c: begin_op reserves enough log space that log_write and end_op never panic.
use lab_so.Prelude.{
  ℕ, suc, ◌+◌, ◌*◌, ◌≤◌, ◌<◌, ◌≡◌, ◌≢◌, sym, refl, ap, ◌∙◌, ◌⊎◌, inl, inr, ◌↔◌, Bool, if◌then◌else◌,
  true, false, none, some, List, [], ◌∷◌, ◌++◌, length, length-append, All, some-of-ne-none, arith,
}
use lab_so.Prelude.Int.{pos}
use lab_so.Log.Defs.{
  Data, Disk, Log, maxopblocks, logsize, begin_op, log_write, end_op_start, end_op_end, commit,
}

abbrev sum : List ℕ → ℕ
sum [] = 0
sum (x ∷ xs) = x + sum xs

-- What a call of end_op that is the last one still has to do: nothing, commit and then its end, or its end.
pub data Phase : Type 0 where
  idle to_commit to_end : Phase

-- The log, for each system call between begin_op and end_op how many more blocks it may write, and what
-- end_op has left to do.
pub record Ops : Type 0 where
  pub log : Log
  pub credits : List ℕ
  pub phase : Phase

-- What is done at once: begin_op, log_write and the two ends of end_op under the lock; and commit, which
-- runs without it, so that the other calls go on before and after. A call writes at most MAXOPBLOCKS
-- blocks before it ends.
pub data Step (s : Ops) : Ops → Type 0 where
  begin :
      {l : Log}
      → begin_op s.log ≡ some l
      → Step s (record { log = l; credits = maxopblocks ∷ s.credits; phase = s.phase })
  write :
      (b : ℕ) (v : Data) (xs : List ℕ) (c : ℕ) (ys : List ℕ) {l : Log}
      → s.credits ≡ xs ++ suc c ∷ ys
      → log_write b v s.log ≡ some l
      → Step s (record { log = l; credits = xs ++ c ∷ ys; phase = s.phase })
  finish :
      (xs : List ℕ) (c : ℕ) (ys : List ℕ) {l : Log} {do_commit : Bool}
      → s.credits ≡ xs ++ c ∷ ys
      → end_op_start s.log ≡ some (l, do_commit)
      → Step s
          (record { log = l; credits = xs ++ ys; phase = if do_commit then to_commit else s.phase })
  commits :
      (d : Disk)
      → s.phase ≡ to_commit
      → Step s (record { log = (commit s.log d).0; credits = s.credits; phase = to_end })
  ends :
      s.phase ≡ to_end
      → Step s (record { log = end_op_end s.log; credits = s.credits; phase = idle })

-- The log after `initlog`, with room for LOGSIZE blocks.
pub record Start (s : Ops) : Type 0 where
  pub no_calls : s.log.outstanding ≡ pos 0
  pub no_phase : s.phase ≡ idle
  pub not_committing : s.log.committing ≡ false
  pub empty : s.log.lh ≡ []
  pub no_credits : s.credits ≡ []
  pub room : logsize < s.log.size

pub data Reach : Ops → Type 0 where
  here : {s : Ops} → Start s → Reach s
  next : {s t : Ops} → Reach s → Step s t → Reach t

-- `committing` is set while a commit is to be done or to be ended, and then there is no other call.
abbrev Quiet : Ops → Type 0
Quiet s =
    ((s.phase ≡ idle) × (s.log.committing ≡ false))
    ⊎ ((s.phase ≢ idle) × (s.log.committing ≡ true) × (s.credits ≡ []))

pub record Fits (s : Ops) : Type 0 where
  pub counted : s.log.outstanding ≡ pos (length s.credits)
  pub quiet : Quiet s
  pub reserved : length s.log.lh + sum s.credits ≤ logsize
  pub small : All (λ c. c ≤ maxopblocks) s.credits
  pub room : logsize < s.log.size

sum-append : (xs ys : List ℕ) → sum (xs ++ ys) ≡ sum xs + sum ys
sum-append [] ys = omega arith
sum-append (x ∷ xs) ys = omega (arith, sum-append xs ys)

sum-le : (xs : List ℕ) → All (λ c. c ≤ maxopblocks) xs → sum xs ≤ length xs * maxopblocks
sum-le [] h = omega arith
sum-le (x ∷ xs) h = omega (arith, h.0, sum-le xs h.1)

All-lower :
    (xs : List ℕ) (c : ℕ) (ys : List ℕ)
    → All (λ k. k ≤ maxopblocks) (xs ++ suc c ∷ ys)
    → All (λ k. k ≤ maxopblocks) (xs ++ c ∷ ys)
All-lower [] c ys h = (omega (arith, h.0), h.1)
All-lower (x ∷ xs) c ys h = (h.0, All-lower xs c ys h.1)

All-remove :
    (xs : List ℕ) (c : ℕ) (ys : List ℕ)
    → All (λ k. k ≤ maxopblocks) (xs ++ c ∷ ys)
    → All (λ k. k ≤ maxopblocks) (xs ++ ys)
All-remove [] c ys h = h.1
All-remove (x ∷ xs) c ys h = (h.0, All-remove xs c ys h.1)

log_write_fields :
    (b : ℕ) (v : Data) (l l' : Log)
    → log_write b v l ≡ some l'
    → (l'.outstanding ≡ l.outstanding)
      × (l'.committing ≡ l.committing)
      × (length l'.lh ≤ length l.lh + 1)
      × (l'.size ≡ l.size)
unfolding log_write
log_write_fields b v l l' h = ground (arith, length-append l.lh (b ∷ []))

commit_fields :
    (l : Log) (d : Disk)
    → let l' = (commit l d).0 in
      (l'.outstanding ≡ l.outstanding)
      × (l'.committing ≡ l.committing)
      × (length l'.lh ≤ length l.lh)
      × (l'.size ≡ l.size)
unfolding commit
commit_fields l d = ground arith

waits : (l : Log) → l.committing ≡ true → begin_op l ≡ none
unfolding begin_op
waits l e = rw e refl

begin_op_fields :
    (l l' : Log) (k : ℕ)
    → l.outstanding ≡ pos k
    → begin_op l ≡ some l'
    → (l'.outstanding ≡ pos (suc k))
      × (l'.committing ≡ false)
      × (l'.lh ≡ l.lh)
      × (l'.size ≡ l.size)
      × (length l.lh + (k + 1) * maxopblocks ≤ logsize)
      × (l.committing ≡ false)
unfolding begin_op
begin_op_fields l l' k e h = ground arith

end_op_start_fields :
    (l l' : Log) (b : Bool) (k : ℕ)
    → l.outstanding ≡ pos (suc k)
    → end_op_start l ≡ some (l', b)
    → (l'.outstanding ≡ pos k)
      × (l'.lh ≡ l.lh)
      × (l'.size ≡ l.size)
      × (l.committing ≡ false)
      × (((b ≡ false) × (l'.committing ≡ false)) ⊎ ((b ≡ true) × (k ≡ 0) × (l'.committing ≡ true)))
unfolding end_op_start
end_op_start_fields l l' b k o e = ground arith

-- While a call is in progress, no commit is.
calls-idle :
    (s : Ops) (xs : List ℕ) (c : ℕ) (ys : List ℕ)
    → s.credits ≡ xs ++ c ∷ ys
    → Quiet s
    → (s.phase ≡ idle) × (s.log.committing ≡ false)
calls-idle s xs c ys e (inl q) = q
calls-idle s xs c ys e (inr (p, q, n)) =
    absurd (let a = ap length (sym e ∙ n) in let b = length-append {0} xs (c ∷ ys) in omega arith)

not_committing-idle : (s : Ops) → s.log.committing ≡ false → Quiet s → s.phase ≡ idle
not_committing-idle s e (inl (p, q)) = p
not_committing-idle s e (inr (p, q, n)) = cc

length-nil : (xs : List ℕ) → length xs ≡ 0 → xs ≡ []
length-nil [] e = refl
length-nil (x ∷ xs) e = absurd (omega arith)

Fits-begin :
    (s : Ops) (l : Log)
    → begin_op s.log ≡ some l
    → Fits s
    → Fits (record { log = l; credits = maxopblocks ∷ s.credits; phase = s.phase })
Fits-begin s l e f =
    let (a, b, c, d, r, z) = begin_op_fields s.log l (length s.credits) f.counted e in
    let le = sum-le s.credits f.small in
    record {
      counted = a;
      quiet = inl (not_committing-idle s z f.quiet, b);
      reserved = rw c (omega arith);
      small = (omega arith, f.small);
      room = rw d f.room;
    }

Fits-write :
    (s : Ops) (b : ℕ) (v : Data) (xs : List ℕ) (c : ℕ) (ys : List ℕ) (l : Log)
    → s.credits ≡ xs ++ suc c ∷ ys
    → log_write b v s.log ≡ some l
    → Fits s
    → Fits (record { log = l; credits = xs ++ c ∷ ys; phase = s.phase })
Fits-write s b v xs c ys l cr e f =
    let (o, q, n, z) = log_write_fields b v s.log l e in
    let (p, w) = calls-idle s xs (suc c) ys cr f.quiet in
    record {
      counted =
          o
          ∙ f.counted
          ∙ ap pos (
              omega (
                arith,
                ap length cr,
                length-append {0} xs (suc c ∷ ys),
                length-append {0} xs (c ∷ ys),
              ));
      quiet = inl (p, q ∙ w);
      reserved =
          omega (arith, f.reserved, ap sum cr, sum-append xs (suc c ∷ ys), sum-append xs (c ∷ ys));
      small = All-lower xs c ys (rw cr at f.small);
      room = rw z f.room;
    }

Fits-finish :
    (s : Ops) (xs : List ℕ) (c : ℕ) (ys : List ℕ) (l : Log) (b : Bool)
    → s.credits ≡ xs ++ c ∷ ys
    → end_op_start s.log ≡ some (l, b)
    → Fits s
    → Fits (record { log = l; credits = xs ++ ys; phase = if b then to_commit else s.phase })
Fits-finish s xs c ys l b cr e f =
    let k : length s.credits ≡ suc (length (xs ++ ys)) =
      omega (arith, ap length cr, length-append {0} xs (c ∷ ys), length-append {0} xs ys) in
    let (o, h, z, w, q) =
      end_op_start_fields s.log l b (length (xs ++ ys)) (f.counted ∙ ap pos k) e in
    let (p, _) = calls-idle s xs c ys cr f.quiet in
    record {
      counted = o;
      quiet = now b p q;
      reserved =
          omega
            (arith, f.reserved, ap length h, ap sum cr, sum-append xs (c ∷ ys), sum-append xs ys);
      small = All-remove xs c ys (rw cr at f.small);
      room = rw z f.room;
    }
  where
    now :
        (b : Bool)
        → s.phase ≡ idle
        → ((b ≡ false) × (l.committing ≡ false))
          ⊎ ((b ≡ true) × (length (xs ++ ys) ≡ 0) × (l.committing ≡ true))
        → Quiet (record { log = l; credits = xs ++ ys; phase = if b then to_commit else s.phase })
    now false p (inl (x, y)) = inl (p, y)
    now true p (inr (x, z, y)) = inr ((λ u. cc), y, length-nil (xs ++ ys) z)
    now false p (inr (x, z, y)) = cc
    now true p (inl (x, y)) = cc

-- A commit in progress, from the phase.
busy : (s : Ops) → s.phase ≢ idle → Quiet s → (s.log.committing ≡ true) × (s.credits ≡ [])
busy s n (inl (p, q)) = absurd (n p)
busy s n (inr (p, q, e)) = (q, e)

Step-Fits : {s t : Ops} → Step s t → Fits s → Fits t
unfolding end_op_end
Step-Fits {s} (begin {l} e) f = Fits-begin s l e f
Step-Fits {s} (write b v xs c ys {l} cr e) f = Fits-write s b v xs c ys l cr e f
Step-Fits {s} (finish xs c ys {l} {do_commit} cr e) f = Fits-finish s xs c ys l do_commit cr e f
Step-Fits {s} (commits d p) f =
    let (o, q, n, z) = commit_fields s.log d in
    let (w, e) = busy s (λ u. cc) f.quiet in
    record {
      counted = o ∙ f.counted;
      quiet = inr ((λ u. cc), q ∙ w, e);
      reserved = omega (arith, n, f.reserved);
      small = f.small;
      room = rw z f.room;
    }
Step-Fits {s} (ends p) f = record {
  counted = f.counted;
  quiet = inl (refl, refl);
  reserved = f.reserved;
  small = f.small;
  room = f.room;
}

Reach-Fits : {s : Ops} → Reach s → Fits s
Reach-Fits (here i) = record {
  counted = i.no_calls ∙ rw i.no_credits;
  quiet = inl (i.no_phase, i.not_committing);
  reserved = rw (i.empty, i.no_credits) (omega arith);
  small = rw i.no_credits tt;
  room = i.room;
}
Reach-Fits (next r st) = Step-Fits st (Reach-Fits r)

log_write-ne-none :
    (b : ℕ) (v : Data) (l : Log) (k : ℕ)
    → l.outstanding ≡ pos k
    → 0 < k
    → length l.lh < logsize
    → logsize < l.size
    → log_write b v l ≢ none
unfolding log_write
log_write-ne-none b v l k o p n z = ground arith

end_op_start_iff : (l : Log) → (end_op_start l ≡ none) ↔ (l.committing ≡ true)
unfolding end_op_start
end_op_start_iff l = ground arith

end_op_start-ne-none : (l : Log) → l.committing ≡ false → end_op_start l ≢ none
unfolding end_op_start
end_op_start-ne-none l q = ground arith

-- Log space is reserved: in every state that the system calls reach from an empty log larger than
-- LOGSIZE, if each call writes at most MAXOPBLOCKS blocks, a call with a block left to write is not
-- refused by log_write, which never panics, and a call that has begun can end: end_op does not panic,
-- also if other calls come and go while a commit is in progress.
pub log_never_full :
    {s : Ops} (b : ℕ) (v : Data) (xs : List ℕ) (c : ℕ) (ys : List ℕ)
    → Reach s
    → s.credits ≡ xs ++ c ∷ ys
    → (0 < c → (l : Log) × (log_write b v s.log ≡ some l))
      × ((r : Log × Bool) × (end_op_start s.log ≡ some r))
log_never_full {s} b v xs c ys r cr =
    let f = Reach-Fits r in
    (
      λ p. some-of-ne-none (log_write b v s.log) (
          log_write-ne-none b v s.log (length s.credits) f.counted
            (omega (arith, ap length cr, length-append {0} xs (c ∷ ys)))
            (omega (arith, f.reserved, ap sum cr, sum-append xs (c ∷ ys))) f.room),
      some-of-ne-none (end_op_start s.log)
          (end_op_start-ne-none s.log (calls-idle s xs c ys cr f.quiet).1),
    )

-- A commit is alone: in every such state, from where the last call of end_op lets go of the lock to commit
-- until it has ended, no call is between begin_op and end_op, begin_op only sleeps, and end_op would panic.
pub commit_alone :
    {s : Ops}
    → Reach s
    → s.phase ≢ idle
    → (s.credits ≡ []) × (begin_op s.log ≡ none) × (end_op_start s.log ≡ none)
commit_alone {s} r n =
    let (c, e) = busy s n (Reach-Fits r).quiet in (e, waits s.log c, (end_op_start_iff s.log).1 c)
