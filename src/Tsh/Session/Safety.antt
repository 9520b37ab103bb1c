-- ===== src/Tsh/Session/Safety.antt =====
-- tsh/tsh.c: the shells that the read/eval loop of `main` reaches.
use systems_labs.Base.{ℕ, ◌≡◌, Bool, Option, List, length}
use systems_labs.Tsh.Jobs.{Job, JobList, max_jobs}
use systems_labs.Tsh.Jobs.Invariant.{IsJobList}
use systems_labs.Tsh.Jobs.Reset.{init_job_list-empty}
use systems_labs.Tsh.Signals.{Shell, Event, handle}
use systems_labs.Tsh.Signals.Outcome.{IsSafe}
use systems_labs.Tsh.Signals.Waiting.{IsEvent, AreEvents, handle-IsSafe}
use systems_labs.Tsh.Eval.{eval}
use systems_labs.Tsh.Eval.Safety.{list_of, eval-IsSafe}
use systems_labs.Tsh.Session.{before_newline, Reached, started, typed, signalled}

module _ (open_out : List ℕ → Option ℕ) (written : Job → Bool) where
  Reached-IsJobList :
      (memory : JobList) (s : Shell)
      → length memory.jobs ≡ max_jobs
      → Reached open_out written memory s
      → IsJobList s.list
  Reached-IsJobList memory s full (started done) =
      let (l, runs, same, is, next, empty) = init_job_list-empty memory full in
      let same_list : l ≡ s.list = cc in rw same_list at is
  Reached-IsJobList memory s full (typed {before} child text es reach all done) = rw done at (
      eval-IsSafe open_out written child (before_newline text) es before all
        (Reached-IsJobList memory before full reach))
  Reached-IsJobList memory s full (signalled {before} e reach one done) =
      rw done at (handle-IsSafe e before one (Reached-IsJobList memory before full reach))

  -- In every shell that the read/eval loop reaches from a list of 64 entries, through any command
  -- lines, children and signals, reports of waitpid being on positive PIDs: the job list has the
  -- invariant; and any further command line, with any signals while it is evaluated, and any
  -- further signal, returns with the invariant kept, or aborts or exits, or waits for more
  -- signals, and never goes out of the array of jobs or writes past the array of arguments.
  pub Reached-IsSafe :
      (memory : JobList) (s : Shell)
      → length memory.jobs ≡ max_jobs
      → Reached open_out written memory s
      → (child : ℕ) (text : List ℕ) (es : List Event) → AreEvents es
      → (e : Event) → IsEvent e
      → IsJobList s.list
        × IsSafe list_of (eval open_out written child (before_newline text) es s)
        × IsSafe (λ (t : Shell). t.list) (handle e s)
  Reached-IsSafe memory s full reach child text es all e one =
      let is = Reached-IsJobList memory s full reach in
      (
        is,
        eval-IsSafe open_out written child (before_newline text) es s all is,
        handle-IsSafe e s one is,
      )
