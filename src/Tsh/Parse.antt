-- ===== src/Tsh/Parse.antt =====
-- `parseline` of tsh/tsh_helper.c. A string is the list of its characters, without the null byte.
pub mod Laws
use systems_labs.Base.{
  ℕ, zero, suc, ◌+◌, ◌-◌, Bool, true, false, ◌||◌, not, Option, none, some, List, [], ◌∷◌, ◌++◌,
  Run, ok, fail, Fault, ◌>>=◌, ◌>>◌, ◌==◌, ltb, leb, if◌then◌else◌, length, take, get_or,
}
use Fault.{out_of_bounds, out_of_fuel}

pub data ParseState : Type 0 where
  st_normal st_infile st_outfile : ParseState

pub data ParselineReturn : Type 0 where
  parseline_fg parseline_bg parseline_empty parseline_error : ParselineReturn

pub data Builtin : Type 0 where
  builtin_none builtin_quit builtin_jobs builtin_bg builtin_fg : Builtin

-- `argc` is the length of `argv`.
pub record CmdlineTokens : Type 0 where
  pub argv : List (List ℕ)
  pub infile : Option (List ℕ)
  pub outfile : Option (List ℕ)
  pub builtin : Builtin

abbrev pub maxline_tsh : ℕ
maxline_tsh = 1024

abbrev pub maxargs : ℕ
maxargs = 128

abbrev pub is_delim : ℕ → Bool
is_delim c = (c == b' ') || (c == 9) || (c == 13) || (c == 10)

abbrev pub is_some : Option (List ℕ) → Bool
is_some none = false
is_some (some s) = true

-- `strspn`: what follows the delimiters.
unfoldable pub skip : List ℕ → List ℕ
skip [] = []
skip (c ∷ cs) = let rest = skip cs in if is_delim c then rest else c ∷ cs

-- `strchr`: the text before a character and after it, if it occurs.
unfoldable pub split_at : ℕ → List ℕ → Option (List ℕ × List ℕ)
split_at q [] = none
split_at q (c ∷ cs) =
    let rest = split_at q cs in
    if c == q
    then some ([], cs)
    else elim rest [ none ↦ none | some (before, after) ↦ some (c ∷ before, after) ]

-- `strcspn`: the text before the next delimiter, or all of it, and after it.
unfoldable pub split_word : List ℕ → List ℕ × List ℕ
split_word [] = ([], [])
split_word (c ∷ cs) =
    let rest = split_word cs in if is_delim c then ([], cs) else (c ∷ rest.0, rest.1)

-- A write of `argv[argc]`, which the array has room for or not.
abbrev pub argv_write : CmdlineTokens → Run (Unit {0})
argv_write t = if ltb (length t.argv) maxargs then ok tt else fail out_of_bounds

unfoldable pub add_token : ParseState → List ℕ → CmdlineTokens → Run CmdlineTokens
add_token st_normal word t = do argv_write t; ok (record t { argv = t.argv ++ (word ∷ []) })
add_token st_infile word t = ok (record t { infile = some word })
add_token st_outfile word t = ok (record t { outfile = some word })

-- The loop: `none` is an error. It uses up a character in each round.
unfoldable pub parse_tokens :
    (fuel : ℕ) → ParseState → List ℕ → CmdlineTokens → Run (Option (ParseState × CmdlineTokens))
parse_tokens zero state buf t = fail out_of_fuel
parse_tokens (suc fuel) state buf t = elim (skip buf) [
  | [] ↦ ok (some (state, t))
  | c ∷ cs ↦
      if c == b'<'
      then (if is_some t.infile then ok none else parse_tokens fuel st_infile cs t)
      else (if c == b'>'
          then (if is_some t.outfile then ok none else parse_tokens fuel st_outfile cs t)
          else elim (if (c == 39) || (c == 34) then split_at c cs else some (split_word (c ∷ cs))) [
            | none ↦ ok none
            | some (word, after) ↦ do
              t ← add_token state word t
              if leb (maxargs - 1) (length t.argv)
                  then ok (some (st_normal, t))
                  else parse_tokens fuel st_normal after t
          ])
]

unfoldable pub same_text : List ℕ → List ℕ → Bool
same_text [] [] = true
same_text [] (d ∷ ds) = false
same_text (c ∷ cs) [] = false
same_text (c ∷ cs) (d ∷ ds) = let rest = same_text cs ds in if c == d then rest else false

unfoldable pub builtin_of : List ℕ → Builtin
builtin_of word =
    if same_text word (b'q' ∷ b'u' ∷ b'i' ∷ b't' ∷ [])
    then builtin_quit
    else if same_text word (b'j' ∷ b'o' ∷ b'b' ∷ b's' ∷ [])
    then builtin_jobs
    else if same_text word (b'b' ∷ b'g' ∷ [])
    then builtin_bg
    else if same_text word (b'f' ∷ b'g' ∷ [])
    then builtin_fg
    else builtin_none

abbrev pub no_tokens : CmdlineTokens
no_tokens = record { argv = []; infile = none; outfile = none; builtin = builtin_none }

-- The last argument, and its first character, or the null byte.
abbrev pub last_char : List (List ℕ) → ℕ
last_char argv = get_or (get_or argv (length argv - 1) []) 0 0

unfoldable pub finish : CmdlineTokens → ParselineReturn × CmdlineTokens
finish t =
    if length t.argv == 0
    then (parseline_empty, t)
    else (let t : CmdlineTokens = record t { builtin = builtin_of (get_or t.argv 0 []) } in
        if not (last_char t.argv == b'&')
        then (parseline_fg, t)
        else (let t : CmdlineTokens = record t { argv = take (length t.argv - 1) t.argv } in
            if length t.argv == 0 then (parseline_empty, t) else (parseline_bg, t)))

abbrev pub is_normal : ParseState → Bool
is_normal st_normal = true
is_normal st_infile = false
is_normal st_outfile = false

-- What follows the loop: NULL is written after the arguments.
unfoldable pub conclude :
    Option (ParseState × CmdlineTokens) → Run (ParselineReturn × CmdlineTokens)
conclude none = ok (parseline_error, no_tokens)
conclude (some (state, t)) =
    if is_normal state then (do argv_write t; ok (finish t)) else ok (parseline_error, t)

-- `none` is a NULL command line.
unfoldable pub parseline : Option (List ℕ) → Run (ParselineReturn × CmdlineTokens)
parseline none = ok (parseline_empty, no_tokens)
parseline (some cmdline) =
    let buf = take (maxline_tsh - 1) cmdline in
    parse_tokens (suc (length buf)) st_normal buf no_tokens >>= conclude
