-- ===== src/Tsh/Signals/Ends.antt =====
-- The wait of tsh/tsh.c for the foreground job ends when its child is reported.
use systems_labs.Base.{ℕ, ◌≡◌, ◌⊎◌, inl, inr, refl, sym, true, List, [], ◌∷◌, Run, ok, fail, Fault}
use systems_labs.Tsh.Jobs.Invariant.{IsJobList}
use systems_labs.Tsh.Jobs.Add.{NoForeground}
use systems_labs.Tsh.Signals.{
  Shell, Event, children, interrupt, suspend, sigint, sigtstp, sigchld_handler, handle,
  wait_foreground,
}
use systems_labs.Tsh.Signals.Reaping.{any_stopped}
use systems_labs.Tsh.Signals.Waiting.{
  AreEvents, forward-ok, IsOver, goes_on, stops, test, still_over,
}
use systems_labs.Tsh.Signals.Watch.{Watches, Mentions, reap_all-Settled}
use Fault.{aborted}

-- An event reports that the child no longer runs.
abbrev pub Reports : ℕ → List Event → Type 0
Reports pid [] = ⊥
Reports pid (children reports last ∷ es) = Mentions pid reports ⊎ Reports pid es
Reports pid (interrupt ∷ es) = Reports pid es
Reports pid (suspend ∷ es) = Reports pid es

-- An event reports that some child stopped.
abbrev pub Stops : List Event → Type 0
Stops [] = ⊥
Stops (children reports last ∷ es) = (any_stopped reports ≡ true) ⊎ Stops es
Stops (interrupt ∷ es) = Stops es
Stops (suspend ∷ es) = Stops es

-- The wait has returned, or the shell has aborted.
abbrev pub Ended : List Event → Run (Shell × List Event) → Type 0
Ended es run =
    ((t : Shell) × (rest : List Event) × (run ≡ ok (t, rest)) × IsJobList t.list × IsOver t)
    ⊎ ((run ≡ fail aborted) × Stops es)

-- No more events are needed when no job is in the foreground.
wait-over :
    (es : List Event) (s : Shell)
    → IsJobList s.list
    → NoForeground s.list.jobs
    → wait_foreground es s ≡ ok (s, es)
unfolding wait_foreground
wait-over [] s is none_fg = elim (test s is) [
  | goes_on j e t unset here fg ↦ absurd (still_over s j (inr none_fg) unset here fg)
  | stops j e f over ↦ rw (e, f) refl
]
wait-over (e ∷ es) s is none_fg = elim (test s is) [
  | goes_on j found t unset here fg ↦ absurd (still_over s j (inr none_fg) unset here fg)
  | stops j found f over ↦ rw (found, f) refl
]

-- One event, and the rest of the wait.
round :
    (e : Event) (es : List Event) (s t : Shell)
    → IsJobList s.list
    → handle e s ≡ ok t
    → (Stops es → Stops (e ∷ es))
    → Ended es (wait_foreground es t)
    → Ended (e ∷ es) (wait_foreground (e ∷ es) s)
unfolding wait_foreground
round e es s t is handled weaker after = elim (test s is) [
  | stops j found f over ↦ inl (s, e ∷ es, rw (found, f) refl, is, over)
  | goes_on j found cond unset here fg ↦ elim after [
    | inl (u, rest, returns, keeps, over) ↦
        inl (u, rest, rw (found, cond, handled) returns, keeps, over)
    | inr (aborts, stop) ↦ inr (rw (found, cond, handled) aborts, weaker stop)
  ]
]

abort_round :
    (e : Event) (es : List Event) (s : Shell)
    → IsJobList s.list
    → handle e s ≡ fail aborted
    → Stops (e ∷ es)
    → Ended (e ∷ es) (wait_foreground (e ∷ es) s)
unfolding wait_foreground
abort_round e es s is aborts stop = elim (test s is) [
  | stops j found f over ↦ inl (s, e ∷ es, rw (found, f) refl, is, over)
  | goes_on j found cond unset here fg ↦ inr (rw (found, cond, aborts) refl, stop)
]

-- In a shell whose job list has the invariant, if a job in the foreground has a given PID and no
-- other job has it, and one of the signals that come reports that the child of that PID exited,
-- was killed or stopped, the reports being on positive PIDs, then the wait for the foreground job
-- does not run out of signals: it returns with the invariant, and with pid set or no job in the
-- foreground, or the shell aborts, and then one of the reports is a stop.
pub wait_foreground-ends :
    (es : List Event) (s : Shell) (pid : ℕ)
    → AreEvents es
    → IsJobList s.list
    → Watches s.list pid
    → Reports pid es
    → Ended es (wait_foreground es s)
unfolding handle sigchld_handler
wait_foreground-ends [] s pid all is watches report = absurd report
wait_foreground-ends (interrupt ∷ es) s pid (one, all) is watches report =
    let (t, done, same, same_pid) = forward-ok sigint s is in
    round interrupt es s t is done (λ stop. stop)
      (wait_foreground-ends es t pid all (rw (sym same) at is) (rw (sym same) at watches) report)
wait_foreground-ends (suspend ∷ es) s pid (one, all) is watches report =
    let (t, done, same, same_pid) = forward-ok sigtstp s is in
    round suspend es s t is done (λ stop. stop)
      (wait_foreground-ends es t pid all (rw (sym same) at is) (rw (sym same) at watches) report)
wait_foreground-ends (children reports last ∷ es) s pid (one, all) is watches report =
    elim (reap_all-Settled reports s.list pid one is watches) [
      | inr (aborts, stop) ↦ abort_round (children reports last) es s is (rw aborts refl) (inl stop)
      | inl (m, done, keeps, still, kept, over) ↦
          let t : Shell = record s { list = m; pid = last } in
          round (children reports last) es s t is (rw done refl) inr (elim report [
            | inl here ↦ inl (t, es, wait-over es t keeps (over here), keeps, inr (over here))
            | inr later ↦ wait_foreground-ends es t pid all keeps still later
          ])
    ]
