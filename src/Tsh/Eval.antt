-- ===== src/Tsh/Eval.antt =====
-- `eval` of tsh/tsh.c, in the shell's own process, with the built-in commands. What the system
-- answers is given: the files that `open` opens, the writes that succeed, the child that `fork`
-- makes, and the signals that come while the shell waits.
pub mod Lookup
pub mod Builtin
pub mod Safety
use systems_labs.Base.{
  ℕ, ◌+◌, ◌-◌, ◌*◌, ◌%◌, Bool, true, false, ◌&&◌, ◌||◌, Option, none, some, List, [], ◌∷◌, ◌++◌,
  Run, ok, fail, Fault, ◌>>=◌, ◌==◌, leb, if◌then◌else◌, get_or, get_elem?, u32_mod,
}
use systems_labs.Tsh.Jobs.{
  Job, JobState, fg, bg, job_exists, job_from_pid, job_get_pid, job_set_state, add_job, list_jobs,
}
use systems_labs.Tsh.Parse.{
  parseline_fg, parseline_bg, parseline_empty, parseline_error, builtin_none, builtin_quit,
  builtin_jobs, builtin_bg, builtin_fg, CmdlineTokens, parseline,
}
use systems_labs.Tsh.Signals.{Shell, sigcont, Event, wait_foreground}
use Fault.{exited}

abbrev pub is_digit : ℕ → Bool
is_digit c = leb b'0' c && leb c b'9'

-- A character of a string, the null byte at its end.
abbrev pub char_at : List ℕ → ℕ → ℕ
char_at s i = get_or s i 0

unfoldable pub valid_id : List ℕ → Bool
valid_id s = ((char_at s 0 == b'%') && is_digit (char_at s 1)) || is_digit (char_at s 0)

-- `atoi` of a string that starts with a digit; past the range of `int` the bits wrap.
unfoldable pub digits_from : (value : ℕ) → List ℕ → ℕ
digits_from value [] = value
digits_from value (c ∷ cs) =
    let rest = digits_from (10 * value + (c - b'0')) cs in if is_digit c then rest else value

unfoldable pub atoi : List ℕ → ℕ
atoi s = digits_from 0 s % u32_mod

abbrev pub tail_of : List ℕ → List ℕ
tail_of [] = []
tail_of (c ∷ cs) = cs

unfoldable pub get_jid : List Job → List ℕ → Run ℕ
get_jid jobs s = do
  jid ← (if char_at s 0 == b'%' then ok (atoi (tail_of s)) else job_from_pid jobs (atoi s))
  exists ← job_exists jobs jid
  ok (if exists then jid else 0)

-- The common part of `bg` and `fg`: the group of the job is sent SIGCONT and its state is set.
-- `none` is the early return.
unfoldable pub resume : JobState → Shell → List ℕ → Run (Option Shell)
resume state s arg = do
  jid ← get_jid s.list.jobs arg
  if jid == 0 then ok none else (do
    id ← job_get_pid s.list.jobs jid
    list ← job_set_state s.list jid state
    ok (some (record s { list = list; sent = s.sent ++ ((id, sigcont) ∷ []) })))

module _ (open_out : List ℕ → Option ℕ) (written : Job → Bool) where
  -- The shell, whether the command was built in, and the events that are left.
  unfoldable pub builtin_command :
      CmdlineTokens → List Event → Shell → Run (Shell × Bool × List Event)
  builtin_command token es s = elim token.builtin [
    | builtin_none ↦ ok (s, false, es)
    | builtin_quit ↦ fail exited
    | builtin_jobs ↦ elim token.outfile [
      | none ↦ list_jobs written s.list.jobs 1 >>= λ shown. ok (s, true, es)
      | some name ↦ elim (open_out name) [
        | none ↦ fail exited
        | some out ↦ list_jobs written s.list.jobs out >>= λ shown. ok (s, true, es)
      ]
    ]
    | builtin_bg ↦ elim (get_elem? token.argv 1) [
      | none ↦ ok (s, true, es)
      | some arg ↦
          if valid_id arg
          then (do
            resumed ← resume bg s arg
            elim resumed [ none ↦ ok (s, true, es) | some t ↦ ok (t, true, es) ])
          else ok (s, true, es)
    ]
    | builtin_fg ↦ elim (get_elem? token.argv 1) [
      | none ↦ ok (s, true, es)
      | some arg ↦
          if valid_id arg
          then (do
            resumed ← resume fg s arg
            elim resumed [
              | none ↦ ok (s, true, es)
              | some t ↦ do (t, es) ← wait_foreground es (record t { pid = 0 }); ok (t, true, es)
            ])
          else ok (s, true, es)
    ]
  ]

  -- The parent's side of a command that is not built in.
  unfoldable pub launch :
      (state : JobState) (child : ℕ) → List ℕ → List Event → Shell → Run (Shell × List Event)
  launch state child cmdline es s = do
    (list, jid) ← add_job s.list child state (some cmdline)
    wait_foreground es (record s { list = list; pid = 0 })

  unfoldable pub eval : (child : ℕ) → List ℕ → List Event → Shell → Run (Shell × List Event)
  eval child cmdline es s = do
    (parsed, token) ← parseline (some cmdline)
    elim parsed [
      | parseline_error ↦ ok (s, es)
      | parseline_empty ↦ ok (s, es)
      | parseline_fg ↦ do
        (s, builtin, es) ← builtin_command token es s
        if builtin then ok (s, es) else launch fg child cmdline es s
      | parseline_bg ↦ do
        (s, builtin, es) ← builtin_command token es s
        if builtin then ok (s, es) else launch bg child cmdline es s
    ]
