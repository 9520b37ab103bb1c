-- ===== src/Tsh/Eval/Safety.antt =====
-- tsh/tsh.c: `eval`, in the shell's own process, keeps the invariant of the job list, whatever the
-- command line, the child and the events.
use systems_labs.Base.{
  ℕ, ◌≡◌, inl, inr, refl, Bool, true, false, Option, some, List, ok, ◌>>=◌, if◌then◌else◌,
}
use systems_labs.Tsh.Jobs.{Job, JobList, JobState, fg, bg, is_undef, add_job}
use systems_labs.Tsh.Jobs.Invariant.{IsJobList}
use systems_labs.Tsh.Parse.{
  ParselineReturn, parseline_fg, parseline_bg, parseline_empty, parseline_error, CmdlineTokens,
  parseline,
}
use systems_labs.Tsh.Parse.Laws.{parseline-ends}
use systems_labs.Tsh.Signals.{Shell, Event, wait_foreground}
use systems_labs.Tsh.Signals.Outcome.{Returns-bind, IsSafe, IsSafe-bind, add_job-IsSafe}
use systems_labs.Tsh.Signals.Waiting.{AreEvents, wait_foreground-IsSafe}
use systems_labs.Tsh.Eval.{builtin_command, launch, eval}
use systems_labs.Tsh.Eval.Builtin.{IsBuilt, builtin_command-IsBuilt}

-- The job list of a result of `eval`.
abbrev pub list_of : Shell × List Event → JobList
list_of done = done.0.list

module _ (open_out : List ℕ → Option ℕ) (written : Job → Bool) where
  launch-IsSafe :
      (state : JobState) (child : ℕ) (cmdline : List ℕ) (es : List Event) (s : Shell)
      → AreEvents es
      → IsJobList s.list
      → is_undef state ≡ false
      → IsSafe list_of (launch open_out written state child cmdline es s)
  unfolding launch
  launch-IsSafe state child cmdline es s all is defined =
      IsSafe-bind (λ (added : JobList × ℕ). added.0) list_of
        (add_job s.list child state (some cmdline))
        (λ (list, jid). wait_foreground es (record s { list = list; pid = 0 }))
        (add_job-IsSafe s.list child state cmdline is defined)
        (λ added keeps. wait_foreground-IsSafe es (record s { list = added.0; pid = 0 }) all keeps)

  command-IsSafe :
      (state : JobState) (child : ℕ) (cmdline : List ℕ) (token : CmdlineTokens) (es : List Event)
      (s : Shell)
      → AreEvents es
      → IsJobList s.list
      → is_undef state ≡ false
      → IsSafe list_of (
          builtin_command open_out written token es s >>= λ (s, builtin, es).
          if builtin then ok (s, es) else launch open_out written state child cmdline es s)
  command-IsSafe state child cmdline token es s all is defined =
      Returns-bind IsBuilt (λ (done : Shell × List Event). IsJobList done.0.list)
        (builtin_command open_out written token es s)
        (λ (s, builtin, es).
          if builtin then ok (s, es) else launch open_out written state child cmdline es s)
        (builtin_command-IsBuilt open_out written token es s all is)
        (λ (t, builtin, rest) keeps. go t builtin rest keeps)
    where
      go :
          (t : Shell) (builtin : Bool) (rest : List Event)
          → IsBuilt (t, builtin, rest)
          → IsSafe list_of
              (if builtin then ok (t, rest) else launch open_out written state child cmdline rest t)
      go t true rest keeps = keeps.0
      go t false rest (keeps, inl e) = absurd (cc e)
      go t false rest (keeps, inr left) =
          launch-IsSafe state child cmdline rest t left keeps defined

  -- `eval` returns with the invariant of the job list, or aborts, exits or waits for more events.
  pub eval-IsSafe :
      (child : ℕ) (cmdline : List ℕ) (es : List Event) (s : Shell)
      → AreEvents es
      → IsJobList s.list
      → IsSafe list_of (eval open_out written child cmdline es s)
  unfolding eval
  eval-IsSafe child cmdline es s all is =
      let (parsed, token, e, short) = parseline-ends (some cmdline) in by_parse parsed token e
    where
      by_parse :
          (parsed : ParselineReturn) (token : CmdlineTokens)
          → parseline (some cmdline) ≡ ok (parsed, token)
          → IsSafe list_of (eval open_out written child cmdline es s)
      by_parse parseline_error token e = rw e is
      by_parse parseline_empty token e = rw e is
      by_parse parseline_fg token e = rw e (command-IsSafe fg child cmdline token es s all is refl)
      by_parse parseline_bg token e = rw e (command-IsSafe bg child cmdline token es s all is refl)
