-- ===== src/Tsh/Session.antt =====
-- The read/eval loop of `main` in tsh/tsh.c, as the shells that it reaches. What is typed, the child
-- that `fork` makes and the signals, which may also come between two commands, are given.
pub mod Safety
pub mod Tests
use systems_labs.Base.{ℕ, zero, ◌≡◌, Bool, Option, List, [], ◌∷◌, ok, ◌==◌, if◌then◌else◌}
use systems_labs.Tsh.Jobs.{Job, JobList, init_job_list}
use systems_labs.Tsh.Signals.{Shell, Event, handle}
use systems_labs.Tsh.Signals.Waiting.{IsEvent, AreEvents}
use systems_labs.Tsh.Eval.{eval}

-- What `fgets` read, up to the newline.
unfoldable pub before_newline : List ℕ → List ℕ
before_newline [] = []
before_newline (c ∷ cs) = let rest = before_newline cs in if c == b'\n' then [] else c ∷ rest

-- `static` variables start at zero.
abbrev pub start : JobList → Shell
start list = record { list = list; pid = 0; sent = [] }

module _ (open_out : List ℕ → Option ℕ) (written : Job → Bool) where
  pub data Reached (memory : JobList) : Shell → Type 0 where
    started : {l : JobList} → init_job_list memory ≡ ok l → Reached memory (start l)
    typed :
        {before after : Shell} {rest : List Event} (child : ℕ) (text : List ℕ) (es : List Event)
        → Reached memory before
        → AreEvents es
        → eval open_out written child (before_newline text) es before ≡ ok (after, rest)
        → Reached memory after
    signalled :
        {before after : Shell} (e : Event)
        → Reached memory before
        → IsEvent e
        → handle e before ≡ ok after
        → Reached memory after
