-- ===== src/Tsh/Parse/Laws.antt =====
-- `parseline` of tsh/tsh_helper.c ends, and stays within the array of arguments.
use systems_labs.Base.{
  ◌++◌, ◌>>=◌, ltb, true, ℕ, zero, suc, ◌+◌, ◌-◌, ◌≤◌, ◌<◌, ◌≡◌, inl, inr, refl, ap, ◌||◌, Option,
  none, some, List, [], ◌∷◌, Run, ok, arith, ◌==◌, leb, if◌then◌else◌, Bool-cases, length,
  List-cases, take, length-append, length-take,
}
use systems_labs.Tsh.Parse.{
  ParseState, st_normal, st_infile, st_outfile, ParselineReturn, CmdlineTokens, maxline_tsh,
  maxargs, is_delim, is_some, is_normal, conclude, skip, split_at, split_word, add_token,
  parse_tokens, finish, parseline, no_tokens, last_char,
}

skip-le : (buf : List ℕ) → length (skip buf) ≤ length buf
unfolding skip
skip-le [] = omega arith
skip-le (c ∷ cs) = elim (Bool-cases (is_delim c)) [
  | inl t ↦ rw t (omega (arith, skip-le cs))
  | inr f ↦ rw f (omega arith)
]

split_word-le : (buf : List ℕ) → length (split_word buf).1 ≤ length buf
unfolding split_word
split_word-le [] = omega arith
split_word-le (c ∷ cs) = elim (Bool-cases (is_delim c)) [
  | inl t ↦ rw t (omega arith)
  | inr f ↦ rw f (omega (arith, split_word-le cs))
]

-- The text after a match is shorter.
abbrev Shorter : ℕ → Option (List ℕ × List ℕ) → Type 0
Shorter n none = Unit {0}
Shorter n (some (before, after)) = length after ≤ n

-- A token is recorded within the array.
add_token-ok :
    (state : ParseState) (word : List ℕ) (t : CmdlineTokens)
    → length t.argv < 127
    → (u : CmdlineTokens) × (add_token state word t ≡ ok u) × (length u.argv ≤ length t.argv + 1)
unfolding add_token
add_token-ok st_normal word t room =
    let inside : ltb (length t.argv) 128 ≡ true = ground arith in
    (
      record t { argv = t.argv ++ (word ∷ []) },
      rw inside refl,
      omega (arith, length-append t.argv (word ∷ [])),
    )
add_token-ok st_infile word t room = (record t { infile = some word }, refl, omega arith)
add_token-ok st_outfile word t room = (record t { outfile = some word }, refl, omega arith)

split_at-Shorter : (q : ℕ) (buf : List ℕ) → Shorter (length buf) (split_at q buf)
unfolding split_at
split_at-Shorter q [] = tt
split_at-Shorter q (c ∷ cs) = elim (Bool-cases (c == q)) [
  | inl t ↦ rw t (omega arith)
  | inr f ↦ rw f (later (split_at q cs) (split_at-Shorter q cs))
]
  where
    later :
        (o : Option (List ℕ × List ℕ))
        → Shorter (length cs) o
        → Shorter
            (suc (length cs))
            (elim o [ none ↦ none | some (before, after) ↦ some (c ∷ before, after) ])
    later none h = tt
    later (some (before, after)) h = omega arith

split_word-lt : (c : ℕ) (cs : List ℕ) → length (split_word (c ∷ cs)).1 ≤ length cs
unfolding split_word
split_word-lt c cs = elim (Bool-cases (is_delim c)) [
  | inl t ↦ rw t (omega arith)
  | inr f ↦ rw f (split_word-le cs)
]

-- The loop ends, with an error or with no more arguments than fit.
abbrev Within : Option (ParseState × CmdlineTokens) → Type 0
Within none = Unit {0}
Within (some (state, t)) = length t.argv ≤ 127

abbrev Ends : Run (Option (ParseState × CmdlineTokens)) → Type 0
Ends r = (o : Option (ParseState × CmdlineTokens)) × (r ≡ ok o) × Within o

module _ (fuel : ℕ)
    (rest : (state : ParseState) (buf : List ℕ) (t : CmdlineTokens)
      → length buf < fuel
      → length t.argv < 127
      → Ends (parse_tokens fuel state buf t)) where
  next_word :
      (state : ParseState) (word after : List ℕ) (t : CmdlineTokens)
      → length after < fuel
      → length t.argv < 127
      → Ends (
          add_token state word t >>= λ t.
          if leb 127 (length t.argv)
          then ok (some (st_normal, t))
          else parse_tokens fuel st_normal after t)
  next_word state word after t short room =
      let (u, added, few) = add_token-ok state word t room in
      rw added (elim (Bool-cases (leb 127 (length u.argv))) [
        | inl full ↦ (some (st_normal, u), rw full refl, omega arith)
        | inr more ↦ rw more (rest st_normal after u short (ground arith))
      ])

  one_round :
      (state : ParseState) (buf : List ℕ) (t : CmdlineTokens) (c : ℕ) (cs : List ℕ)
      → skip buf ≡ c ∷ cs
      → length cs < fuel
      → length t.argv < 127
      → Ends (parse_tokens (suc fuel) state buf t)
  unfolding parse_tokens
  one_round state buf t c cs e short room =
      rw (parse_tokens, e)
        (elim (Bool-cases (c == b'<')) [
          | inl lt ↦ rw lt (elim (Bool-cases (is_some t.infile)) [
            | inl again ↦ (none, rw again refl, tt)
            | inr new ↦ rw new (rest st_infile cs t short room)
          ])
          | inr nl ↦ elim (Bool-cases (c == b'>')) [
            | inl gt ↦
                rw (nl, gt)
                  (elim (Bool-cases (is_some t.outfile)) [
                    | inl again ↦ (none, rw again refl, tt)
                    | inr new ↦ rw new (rest st_outfile cs t short room)
                  ])
            | inr ng ↦ elim (Bool-cases ((c == 39) || (c == 34))) [
              | inr plain ↦
                  rw (nl, ng, plain)
                    (next_word state (split_word (c ∷ cs)).0 (split_word (c ∷ cs)).1 t
                      (omega (arith, split_word-lt c cs)) room)
              | inl quote ↦ rw (nl, ng, quote) (quoted (split_at c cs) (split_at-Shorter c cs))
            ]
          ]
        ])
    where
      quoted :
          (o : Option (List ℕ × List ℕ))
          → Shorter (length cs) o
          → Ends (elim o [
            | none ↦ ok none
            | some (word, after) ↦ add_token state word t >>= λ t.
                if leb 127 (length t.argv)
                then ok (some (st_normal, t))
                else parse_tokens fuel st_normal after t
          ])
      quoted none h = (none, refl, tt)
      quoted (some (word, after)) h = next_word state word after t (omega arith) room

parse_tokens-Ends :
    (fuel : ℕ) (state : ParseState) (buf : List ℕ) (t : CmdlineTokens)
    → length buf < fuel
    → length t.argv < 127
    → Ends (parse_tokens fuel state buf t)
unfolding parse_tokens
parse_tokens-Ends zero state buf t short room = absurd (omega arith)
parse_tokens-Ends (suc fuel) state buf t short room = elim (List-cases (skip buf)) [
  | inl e ↦ rw (parse_tokens, e) (some (state, t), refl, omega arith)
  | inr (c, cs, e) ↦
      one_round fuel (parse_tokens-Ends fuel) state buf t c cs e
        (omega (arith, ap length e, skip-le buf)) room
]

finish-le : (t : CmdlineTokens) → length t.argv ≤ 127 → length (finish t).1.argv ≤ 127
unfolding finish
finish-le t h = elim (Bool-cases (length t.argv == 0)) [
  | inl blank ↦ rw blank h
  | inr some_args ↦ elim (Bool-cases (last_char t.argv == b'&')) [
    | inr fg ↦ rw (some_args, fg) h
    | inl bg ↦ elim (Bool-cases (length (take (length t.argv - 1) t.argv) == 0)) [
      | inl alone ↦
          rw (some_args, bg, alone) (omega (arith, length-take (length t.argv - 1) t.argv))
      | inr more ↦ rw (some_args, bg, more) (omega (arith, length-take (length t.argv - 1) t.argv))
    ]
  ]
]

conclude-ok :
    (o : Option (ParseState × CmdlineTokens))
    → Within o
    → (parsed : ParselineReturn) × (t : CmdlineTokens) × (conclude o ≡ ok (parsed, t))
      × (length t.argv ≤ 127)
unfolding conclude
conclude-ok none h = (ParselineReturn.parseline_error, no_tokens, refl, omega arith)
conclude-ok (some (state, t)) h = elim (Bool-cases (is_normal state)) [
  | inl n ↦
      let inside : ltb (length t.argv) 128 ≡ true = ground arith in
      ((finish t).0, (finish t).1, rw (n, inside) refl, finish-le t h)
  | inr f ↦ (ParselineReturn.parseline_error, t, rw f refl, h)
]

-- parseline returns for every command line, NULL included, with at most MAXARGS - 1 arguments, so
-- that the array of arguments has room for them and the NULL after them.
pub parseline-ends :
    (cmdline : Option (List ℕ))
    → (parsed : ParselineReturn) × (t : CmdlineTokens) × (parseline cmdline ≡ ok (parsed, t))
      × (length t.argv ≤ maxargs - 1)
unfolding parseline
parseline-ends none = (ParselineReturn.parseline_empty, no_tokens, refl, omega arith)
parseline-ends (some cmdline) =
    let buf = take (maxline_tsh - 1) cmdline in
    let (o, returns, within) =
      parse_tokens-Ends (suc (length buf)) st_normal buf no_tokens (omega arith) (omega arith) in
    let (parsed, t, concluded, few) = conclude-ok o within in
    (parsed, t, rw (returns, concluded) refl, few)
