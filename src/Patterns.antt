-- ===== src/Patterns.antt =====
-- What Python's `re` does with the patterns of scripts/validate-compatibility-matrix.py and
-- scripts/audit-docs.py: a pattern is a function of what follows it, tried on the rest of the text
-- in the order in which `re` tries its alternatives, greedy ones from the longest.
use cekat_event_sdk.Base.{
  ℕ, Text, Bool, true, false, Option, none, some, [], ◌∷◌, ◌==◌, ◌<|>◌, if◌then◌else◌,
}

-- What follows: from the rest of the text, what the whole pattern gives.
abbrev pub Rest : Type 0 → Type 0
Rest A = Text → Option A

module _ {A : Type 0} where
  -- The characters of a literal.
  unfoldable pub literal : Text → Rest A → Rest A
  literal [] rest t = rest t
  literal (c ∷ l) rest [] = none
  literal (c ∷ l) rest (d ∷ t) = if d == c then literal l rest t else none

  -- `[...]*` without a group, greedy.
  unfoldable pub any_of : (ℕ → Bool) → Rest A → Rest A
  any_of test rest [] = rest []
  any_of test rest (c ∷ t) =
      let more = any_of test rest t in if test c then more <|> rest (c ∷ t) else rest (c ∷ t)

  -- `[...]+` without a group, greedy.
  unfoldable pub some_of : (ℕ → Bool) → Rest A → Rest A
  unfolding any_of
  some_of test rest [] = none
  some_of test rest (c ∷ t) = if test c then any_of test rest t else none

  -- One character.
  abbrev pub one_of : (ℕ → Bool) → Rest A → Rest A
  one_of test rest [] = none
  one_of test rest (c ∷ t) = if test c then rest t else none

  -- `([...]+)`, greedy: what follows takes the group.
  unfoldable pub group_of : (ℕ → Bool) → (Text → Rest A) → Rest A
  group_of test rest [] = none
  group_of test rest (c ∷ t) =
      let more = group_of test (λ g. rest (c ∷ g)) t in
      if test c then more <|> rest (c ∷ []) t else none

  -- `(.+?)`, from the shortest; `.` is any character but a line feed.
  unfoldable pub shortest : (Text → Rest A) → Rest A
  shortest rest [] = none
  shortest rest (c ∷ t) =
      let more = shortest (λ g. rest (c ∷ g)) t in
      if c == b'\n' then none else rest (c ∷ []) t <|> more

  -- `(?:...)?`, greedy.
  abbrev pub optionally : (Rest A → Rest A) → Rest A → Rest A
  optionally p rest t = p rest t <|> rest t

  -- `$` with re.MULTILINE, and without it.
  abbrev pub line_end : Rest A → Rest A
  line_end rest [] = rest []
  line_end rest (c ∷ t) = if c == b'\n' then rest (c ∷ t) else none

  abbrev pub text_end : Rest A → Rest A
  text_end rest [] = rest []
  text_end rest (c ∷ []) = if c == b'\n' then rest (c ∷ []) else none
  text_end rest (c ∷ d ∷ t) = none

  -- re.search: the first place where the pattern matches.
  unfoldable pub search_in : Rest A → Rest A
  search_in p [] = p []
  search_in p (c ∷ t) = p (c ∷ t) <|> search_in p t

  -- re.search for a pattern that begins with `^` under re.MULTILINE; `at_start` says whether the
  -- text stands at the beginning of a line.
  unfoldable pub search_lines : (at_start : Bool) → Rest A → Rest A
  search_lines at_start p [] = if at_start then p [] else none
  search_lines at_start p (c ∷ t) =
      let later = search_lines (c == b'\n') p t in if at_start then p (c ∷ t) <|> later else later

-- The end of a whole match.
abbrev pub captured : Text → Rest Text
captured g t = some g

abbrev pub is_match : Option Text → Bool
is_match none = false
is_match (some g) = true

-- `needle in text`
unfoldable pub occurs : Text → Text → Bool
unfolding literal search_in
occurs needle t = is_match (search_in (literal needle (captured [])) t)

-- str.startswith
unfoldable pub starts_with : Text → Text → Bool
unfolding literal
starts_with prefix t = is_match (literal prefix (captured []) t)
