-- ===== src/Tsh/Session/Tests.antt =====
-- Runs of the read/eval loop of the shell in tsh/, and its theorems at concrete shells.
use mathlib.Core.Path.{subst}
use systems_labs.Base.{
  ◌-◌, ◌≢◌, ◌∙◌, sym, get_or-replicate, ℕ, ◌≡◌, inl, refl, true, none, some, List, [], ◌∷◌, ok,
  arith, set, replicate, load, store,
}
use systems_labs.Tsh.Jobs.{
  Job, bg, get_job, put_job, fg_job, fg_job_from, may_add, add_job, init_job_list, reset_from,
}
use native.Mathlib.Decide.{ℕ_discrete}
use systems_labs.Tsh.Jobs.Scan.{no_job, job_of, has_pid}
use systems_labs.Tsh.Jobs.Invariant.{InList, IsJobList, job_of-put_ne}
use systems_labs.Tsh.Jobs.Tests.{empty_list, one, one-IsJobList, running}
use systems_labs.Tsh.Parse.{
  skip, split_at, split_word, add_token, parse_tokens, same_text, builtin_of, finish, conclude,
  parseline,
}
use systems_labs.Tsh.Signals.{
  exited, Shell, Event, forward, children, interrupt, handle, wait_foreground,
}
use systems_labs.Tsh.Signals.Outcome.{IsSafe}
use systems_labs.Tsh.Signals.Watch.{Watches}
use systems_labs.Tsh.Signals.Ends.{Ended, wait_foreground-ends}
use systems_labs.Tsh.Eval.{builtin_command, launch, eval}
use systems_labs.Tsh.Eval.Safety.{list_of}
use systems_labs.Tsh.Session.{before_newline, start, started, typed, signalled}
use systems_labs.Tsh.Session.Safety.{Reached-IsSafe}

-- The foreground job ends while the shell waits, and no child is left.
abbrev busy : Shell
busy = record { list = one; pid = 0; sent = [] }

abbrev ends : List Event
ends = interrupt ∷ children (record { child = 100; status = exited } ∷ []) 4294967295 ∷ []

one_other : (k : ℕ) → InList k → 1 ≢ k → job_of one.jobs k ≡ no_job
one_other k here ne =
    job_of-put_ne empty_list.jobs refl 1 running (omega arith, omega arith) k here.0 ne
    ∙ get_or-replicate 64 (k - 1) no_job no_job (omega (arith, here))

busy-Watches : Watches one 100
busy-Watches k here f = elim (ℕ_discrete k 1) [
  | no ne ↦ absurd (cc (one_other k here (λ e. ne (sym e)), f))
  | yes e ↦ (
    subst (λ n. has_pid one.jobs 100 n ≡ true) (sym e) refl,
    λ m there h. elim (ℕ_discrete 1 m) [
      | yes same ↦ sym same ∙ sym e
      | no ne ↦ absurd (cc (one_other m there ne, h))
    ],
  )
]

wait_foreground-ends_example : Ended ends (wait_foreground ends busy)
wait_foreground-ends_example =
    wait_foreground-ends ends busy 100 (tt, ((refl, tt), tt)) one-IsJobList busy-Watches
      (inl (inl (refl, refl)))

-- A job is started in the background, and interrupts then come at the prompt.
abbrev line : List ℕ
line = b'z' ∷ b' ' ∷ b'&' ∷ b'\n' ∷ []

abbrev sleeping : Job
sleeping = record { pid = 201; jid = 1; state = bg; cmdline = some (b'z' ∷ b' ' ∷ b'&' ∷ []) }

abbrev in_back : Shell
in_back = record {
  list = record { jobs = set (replicate 64 no_job) 0 sleeping; nextjid = 2 };
  pid = 0;
  sent = [];
}

init-empty : init_job_list empty_list ≡ ok empty_list
unfolding init_job_list reset_from get_job put_job load store
init-empty = refl

line-in_back :
    eval (λ name. none) (λ job. true) 201 (before_newline line) [] (start empty_list)
    ≡ ok (in_back, [])
unfolding before_newline eval parseline parse_tokens skip split_at split_word add_token same_text
    builtin_of finish conclude builtin_command launch wait_foreground add_job may_add fg_job
    fg_job_from get_job put_job load store
line-in_back = refl

interrupted : handle interrupt in_back ≡ ok in_back
unfolding handle forward fg_job fg_job_from get_job load
interrupted = refl

Reached-IsSafe_example :
    IsJobList in_back.list
    × IsSafe list_of (eval (λ name. none) (λ job. true) 202 (before_newline line) ends in_back)
    × IsSafe (λ (t : Shell). t.list) (handle interrupt in_back)
Reached-IsSafe_example =
    Reached-IsSafe (λ name. none) (λ job. true) empty_list in_back refl
      (signalled interrupt (typed 201 line [] (started init-empty) tt line-in_back) tt interrupted)
      202 line ends (tt, ((refl, tt), tt)) interrupt tt
