-- ===== src/Matrix/Workflows.antt =====
-- What scripts/validate-compatibility-matrix.py reads from the workflows: the lines of a job, the
-- values of its matrix, and the versions that the package job installs for a language.
use cekat_event_sdk.Base.{
  ℕ, ◌-◌, Text, Bool, true, false, ◌&&◌, ◌||◌, not, Option, none, some, List, [], ◌∷◌, ◌++◌, ltb,
  leb, ◌==◌, if◌then◌else◌, codes, text_eq, is_empty, is_space, between, lstrip, strip, split,
  length,
}
use cekat_event_sdk.Verdicts.{accept, ◌>>=◌, or_reject}
use cekat_event_sdk.Patterns.{
  Rest, literal, any_of, some_of, one_of, shortest, optionally, text_end, captured, is_match,
  starts_with,
}
use cekat_event_sdk.Matrix.{no_job, no_matrix, Checked}

-- The characters at which str.splitlines ends a line.
abbrev is_line_end : ℕ → Bool
is_line_end c = between 10 13 c || between 28 30 c || c == 0x85 || between 0x2028 0x2029 c

abbrev cons_line : ℕ → List Text → List Text
cons_line c [] = (c ∷ []) ∷ []
cons_line c (line ∷ lines) = (c ∷ line) ∷ lines

-- str.splitlines: a line feed behind a carriage return ends no other line, and the text's end adds
-- no line.
unfoldable pub splitlines_from : (behind_return : Bool) → Text → List Text
splitlines_from behind_return [] = []
splitlines_from behind_return (c ∷ t) =
    let rest = splitlines_from (c == 13) t in
    if behind_return && c == 10 then rest else if is_line_end c then [] ∷ rest else cons_line c rest

abbrev pub splitlines : Text → List Text
splitlines t = splitlines_from false t

-- The lines below the first one that passes the test.
unfoldable pub lines_after : (Text → Bool) → List Text → Option (List Text)
lines_after test [] = none
lines_after test (line ∷ lines) = if test line then some lines else lines_after test lines

-- The lines above the first one that passes the test.
unfoldable pub lines_until : (Text → Bool) → List Text → List Text
lines_until test [] = []
lines_until test (line ∷ lines) =
    let above = lines_until test lines in if test line then [] else line ∷ above

abbrev is_name_char : ℕ → Bool
is_name_char c =
    between b'a' b'z' c || between b'A' b'Z' c || between b'0' b'9' c || c == 95 || c == b'-'

-- re.match of `^  [A-Za-z0-9_-]+:\s*$` or `^\S`: the line ends a job.
unfoldable pub ends_job : Text → Bool
unfolding literal some_of any_of is_space
ends_job line =
    is_match (
      literal (codes "  ")
        (some_of is_name_char (literal (codes ":") (any_of is_space (text_end (captured [])))))
        line)
    || is_match (one_of (λ c. not (is_space c)) (captured []) line)

-- _job_block
unfoldable pub job_block : (workflow job : Text) → Checked (List Text)
unfolding splitlines_from lines_after lines_until ends_job
job_block workflow job = do
  lines ←
      or_reject (lines_after (text_eq (codes "  " ++ job ++ codes ":")) (splitlines workflow))
        (no_job job)
  accept (lines_until ends_job lines)

-- re.sub(r"\s+#.*$", "", value), of a text without line feeds.
unfoldable pub without_comment : Text → Text
unfolding lstrip is_space starts_with
without_comment [] = []
without_comment (c ∷ t) =
    let rest = without_comment t in
    if is_space c && starts_with (codes "#") (lstrip t) then [] else c ∷ rest

-- The text between a first and a last character that are the same quote.
unfoldable pub unquoted_from : (quote : ℕ) → Text → Option Text
unquoted_from quote [] = none
unquoted_from quote (c ∷ []) = if c == quote then some [] else none
unquoted_from quote (c ∷ d ∷ t) = elim (unquoted_from quote (d ∷ t)) [
  | none ↦ none
  | some inner ↦ some (c ∷ inner)
]

unquoted : Text → Text
unfolding unquoted_from
unquoted [] = []
unquoted (c ∷ t) =
    if c == 39 || c == 34
    then elim (unquoted_from c t) [ none ↦ c ∷ t | some inner ↦ inner ]
    else c ∷ t

-- _scalar
unfoldable pub scalar : Text → Text
unfolding without_comment strip unquoted
scalar value = unquoted (strip (without_comment value))

-- len(line) - len(line.lstrip())
unfoldable pub indent : Text → ℕ
unfolding lstrip
indent line = length line - length (lstrip line)

abbrev is_blank : Text → Bool
is_blank line = is_empty (strip line)

-- `:\s*(.+?)\s*$`, behind a key.
unfoldable pub value_after : (key : Text) → Rest Text
unfolding literal any_of shortest is_space
value_after key =
    literal (key ++ codes ":")
      (any_of is_space (shortest (λ g. any_of is_space (text_end (captured g)))))

-- `^\s*(?:-\s+)?key:\s*(.+?)\s*$`
unfoldable pub matrix_value : (key : Text) → Rest Text
unfolding value_after literal some_of any_of is_space
matrix_value key =
    any_of is_space
      (optionally (λ rest. literal (codes "-") (some_of is_space rest)) (value_after key))

-- `^\s*key:\s*(.+?)\s*$`
unfoldable pub step_value : (key : Text) → Rest Text
unfolding value_after any_of is_space
step_value key = any_of is_space (value_after key)

abbrev is_bracket_or_space : ℕ → Bool
is_bracket_or_space c = c == b'[' || c == b']' || c == b' '

drop_brackets : Text → Text
drop_brackets [] = []
drop_brackets (c ∷ t) = if is_bracket_or_space c then drop_brackets t else c ∷ t

drop_last_brackets : Text → Text
drop_last_brackets [] = []
drop_last_brackets (c ∷ t) = elim (drop_last_brackets t) [
  | [] ↦ if is_bracket_or_space c then [] else c ∷ []
  | d ∷ u ↦ c ∷ d ∷ u
]

scalars : List Text → List Text
unfolding scalar strip
scalars [] = []
scalars (item ∷ items) =
    let rest = scalars items in if is_blank item then rest else scalar item ∷ rest

-- The values of one match; list syntax is flattened.
unfoldable pub flattened : Text → List Text
unfolding scalar scalars drop_brackets drop_last_brackets split starts_with
flattened found =
    let raw = if starts_with (codes "[") found then found else scalar found in
    if starts_with (codes "[") raw
    then scalars (split b',' (drop_last_brackets (drop_brackets raw)))
    else raw ∷ []

values_of : Option Text → List Text
unfolding flattened
values_of none = []
values_of (some found) = flattened found

-- The loop over the lines below `matrix:`.
unfoldable pub matrix_values : (limit : ℕ) (key : Text) → List Text → List Text
unfolding indent matrix_value values_of strip
matrix_values limit key [] = []
matrix_values limit key (line ∷ lines) =
    let later = matrix_values limit key lines in
    if not (is_blank line) && leb (indent line) limit
    then []
    else values_of (matrix_value key line) ++ later

abbrev is_matrix_line : Text → Bool
is_matrix_line line = text_eq (strip line) (codes "matrix:")

-- The first line of the matrix with the lines below it.
unfoldable pub from_matrix : List Text → Option (Text × List Text)
unfolding strip
from_matrix [] = none
from_matrix (line ∷ lines) = if is_matrix_line line then some (line, lines) else from_matrix lines

unfoldable pub ci_matrix_values : (workflow job key : Text) → Checked (List Text)
unfolding job_block from_matrix matrix_values indent
ci_matrix_values workflow job key = do
  block ← job_block workflow job
  found ← or_reject (from_matrix block) (no_matrix job)
  accept (matrix_values (indent found.0) key found.1)

abbrev step_line : (language : Text) → Text
step_line language = codes "- if: matrix.language == '" ++ language ++ codes "'"

abbrev is_deeper : Option ℕ → ℕ → Bool
is_deeper none n = true
is_deeper (some limit) n = ltb limit n

found_scalar : Option Text → List Text
unfolding scalar
found_scalar none = []
found_scalar (some found) = scalar found ∷ []

-- The loop over the lines of the package job: whether they are inside a step for the language, and
-- the indentation of the last step.
unfoldable pub step_values :
    (language key : Text) (inside : Bool) (step_indent : Option ℕ) → List Text → List Text
unfolding strip indent step_value starts_with found_scalar
step_values language key inside step_indent [] = []
step_values language key inside step_indent (line ∷ lines) =
    let is_step = starts_with (codes "- ") (strip line) in
    let stays = inside && (is_blank line || is_deeper step_indent (indent line)) in
    let later =
      step_values language key
        (if is_step then text_eq (strip line) (step_line language) else stays)
        (if is_step then some (indent line) else step_indent) lines in
    if not is_step && stays then found_scalar (step_value key line) ++ later else later

unfoldable pub release_readiness_values : (workflow language key : Text) → Checked (List Text)
unfolding job_block step_values
release_readiness_values workflow language key = do
  block ← job_block workflow (codes "package")
  accept (step_values language key false none block)
