-- ===== src/Tsh/Eval/Builtin.antt =====
-- tsh/tsh.c: `builtin_command`, for every kind of command.
use systems_labs.Base.{
  ℕ, ◌≡◌, ◌⊎◌, inl, inr, refl, Bool, Bool-cases, true, false, Option, Option-cases, none, some,
  List, Run, ok, fail, Fault, ◌>>=◌, if◌then◌else◌, get_elem?,
}
use Fault.{exited}
use systems_labs.Tsh.Jobs.{Job, JobState, fg, bg, is_undef, list_jobs}
use systems_labs.Tsh.Jobs.Invariant.{IsJobList}
use systems_labs.Tsh.Parse.{
  Builtin, builtin_none, builtin_quit, builtin_jobs, builtin_bg, builtin_fg, CmdlineTokens,
}
use systems_labs.Tsh.Signals.{Shell, Event, wait_foreground}
use systems_labs.Tsh.Signals.Outcome.{Returns, Returns-bind}
use systems_labs.Tsh.Signals.Waiting.{AreEvents, wait_foreground-IsSafe}
use systems_labs.Tsh.Eval.{valid_id, resume, builtin_command}
use systems_labs.Tsh.Eval.Lookup.{list_jobs-IsSafe, list_or, resume-IsSafe}

-- After a built-in command. The events that are left matter when the command was not built in.
abbrev pub IsBuilt : Shell × Bool × List Event → Type 0
IsBuilt (s, builtin, es) = IsJobList s.list × ((builtin ≡ true) ⊎ AreEvents es)

module _ (open_out : List ℕ → Option ℕ) (written : Job → Bool) where
  listing-IsBuilt :
      (out : ℕ) (es : List Event) (s : Shell)
      → IsJobList s.list
      → Returns IsBuilt (list_jobs written s.list.jobs out >>= λ shown. ok (s, true, es))
  listing-IsBuilt out es s is =
      Returns-bind (λ (shown : List Job × Bool). IsJobList s.list) IsBuilt
        (list_jobs written s.list.jobs out) (λ shown. ok (s, true, es))
        (list_jobs-IsSafe s.list is written out) (λ shown keeps. (keeps, inl refl))

  jobs-IsBuilt :
      (outfile : Option (List ℕ)) (es : List Event) (s : Shell)
      → IsJobList s.list
      → Returns IsBuilt (elim outfile [
        | none ↦ list_jobs written s.list.jobs 1 >>= λ shown. ok (s, true, es)
        | some name ↦ elim (open_out name) [
          | none ↦ fail exited
          | some out ↦ list_jobs written s.list.jobs out >>= λ shown. ok (s, true, es)
        ]
      ])
  jobs-IsBuilt none es s is = listing-IsBuilt 1 es s is
  jobs-IsBuilt (some name) es s is = elim (Option-cases (open_out name)) [
    | inl e ↦ rw e tt
    | inr (out, e) ↦ rw e (listing-IsBuilt out es s is)
  ]

  continue-IsBuilt :
      (state : JobState) (s : Shell) (arg : List ℕ) (es : List Event)
      (next : Shell → Run (Shell × Bool × List Event))
      → IsJobList s.list
      → is_undef state ≡ false
      → ((t : Shell) → IsJobList t.list → Returns IsBuilt (next t))
      → Returns IsBuilt (
          resume state s arg >>= λ resumed. elim resumed [
            | none ↦ ok (s, true, es)
            | some t ↦ next t
          ])
  continue-IsBuilt state s arg es next is defined continues =
      Returns-bind (λ resumed. IsJobList (list_or s.list resumed)) IsBuilt (resume state s arg)
        (λ resumed. elim resumed [ none ↦ ok (s, true, es) | some t ↦ next t ])
        (resume-IsSafe state s arg is defined) go
    where
      go :
          (resumed : Option Shell)
          → IsJobList (list_or s.list resumed)
          → Returns IsBuilt (elim resumed [ none ↦ ok (s, true, es) | some t ↦ next t ])
      go none keeps = (keeps, inl refl)
      go (some t) keeps = continues t keeps

  waits-IsBuilt :
      (es : List Event) (s : Shell)
      → AreEvents es
      → IsJobList s.list
      → Returns IsBuilt (wait_foreground es (record s { pid = 0 }) >>= λ (t, es). ok (t, true, es))
  waits-IsBuilt es s all is =
      Returns-bind (λ (done : Shell × List Event). IsJobList done.0.list) IsBuilt
        (wait_foreground es (record s { pid = 0 })) (λ (t, es). ok (t, true, es))
        (wait_foreground-IsSafe es (record s { pid = 0 }) all is) (λ done keeps. (keeps, inl refl))

  bg-IsBuilt :
      (word : Option (List ℕ)) (es : List Event) (s : Shell)
      → IsJobList s.list
      → Returns IsBuilt (elim word [
        | none ↦ ok (s, true, es)
        | some arg ↦
            if valid_id arg
            then (do
              resumed ← resume bg s arg
              elim resumed [ none ↦ ok (s, true, es) | some t ↦ ok (t, true, es) ])
            else ok (s, true, es)
      ])
  bg-IsBuilt none es s is = (is, inl refl)
  bg-IsBuilt (some arg) es s is = elim (Bool-cases (valid_id arg)) [
    | inr bad ↦ rw bad (is, inl refl)
    | inl good ↦ rw good (
        continue-IsBuilt bg s arg es (λ t. ok (t, true, es)) is refl (λ t keeps. (keeps, inl refl)))
  ]

  fg-IsBuilt :
      (word : Option (List ℕ)) (es : List Event) (s : Shell)
      → AreEvents es
      → IsJobList s.list
      → Returns IsBuilt (elim word [
        | none ↦ ok (s, true, es)
        | some arg ↦
            if valid_id arg
            then (do
              resumed ← resume fg s arg
              elim resumed [
                | none ↦ ok (s, true, es)
                | some t ↦ do (t, es) ← wait_foreground es (record t { pid = 0 }); ok (t, true, es)
              ])
            else ok (s, true, es)
      ])
  fg-IsBuilt none es s all is = (is, inl refl)
  fg-IsBuilt (some arg) es s all is = elim (Bool-cases (valid_id arg)) [
    | inr bad ↦ rw bad (is, inl refl)
    | inl good ↦ rw good (
        continue-IsBuilt fg s arg es
          (λ t. wait_foreground es (record t { pid = 0 }) >>= λ (t, es). ok (t, true, es)) is refl
          (λ t keeps. waits-IsBuilt es t all keeps))
  ]

  -- A built-in command returns with the invariant, or aborts, exits or waits for more events; a
  -- command that is not built in leaves the events as they were.
  pub builtin_command-IsBuilt :
      (token : CmdlineTokens) (es : List Event) (s : Shell)
      → AreEvents es
      → IsJobList s.list
      → Returns IsBuilt (builtin_command open_out written token es s)
  unfolding builtin_command
  builtin_command-IsBuilt token es s all is = by_kind token.builtin refl
    where
      by_kind :
          (b : Builtin)
          → token.builtin ≡ b
          → Returns IsBuilt (builtin_command open_out written token es s)
      by_kind builtin_none e = rw e (is, inr all)
      by_kind builtin_quit e = rw e tt
      by_kind builtin_jobs e = rw e (jobs-IsBuilt token.outfile es s is)
      by_kind builtin_bg e = rw e (bg-IsBuilt (get_elem? token.argv 1) es s is)
      by_kind builtin_fg e = rw e (fg-IsBuilt (get_elem? token.argv 1) es s all is)
