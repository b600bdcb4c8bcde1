-- ===== src/Docs/Prose.antt =====
-- strip_code and line_of of scripts/audit-docs.py: the prose of a document, line by line.
pub mod Lines
use cekat_event_sdk.Base.{
  ℕ, zero, suc, ◌+◌, Text, Bool, true, false, ◌||◌, not, Option, none, some, List, [], ◌∷◌, ◌++◌,
  ◌==◌, if◌then◌else◌, codes, split, lstrip,
}
use cekat_event_sdk.Patterns.{starts_with}
use cekat_event_sdk.Matrix.Rendering.{join}

-- re.sub of "`([^`]*)`": what replaces a text between backticks is a function of that text.
-- `pending` is the text behind a backtick that is open.
unfoldable pub sub_code : (replace : Text → Text) (pending : Option Text) → Text → Text
sub_code replace none [] = []
sub_code replace none (c ∷ t) =
    let rest = sub_code replace (if c == b'`' then some [] else none) t in
    if c == b'`' then rest else c ∷ rest
sub_code replace (some pending) [] = b'`' ∷ pending
sub_code replace (some pending) (c ∷ t) =
    let rest = sub_code replace (if c == b'`' then none else some (pending ++ c ∷ [])) t in
    if c == b'`' then replace pending ++ rest else rest

abbrev pub code_mark : Text → Text
code_mark inner = codes "`code`"

-- line.lstrip().startswith(("```", "~~~"))
unfoldable pub is_fence : Text → Bool
unfolding lstrip starts_with
is_fence line = starts_with (codes "```") (lstrip line) || starts_with (codes "~~~") (lstrip line)

unfoldable pub strip_lines : (in_fence : Bool) → List Text → List Text
unfolding is_fence sub_code
strip_lines in_fence [] = []
strip_lines in_fence (line ∷ lines) =
    let rest = strip_lines (if is_fence line then not in_fence else in_fence) lines in
    (if is_fence line || in_fence then [] else sub_code code_mark none line) ∷ rest

-- text.count("\n", 0, index), over the characters before the index.
unfoldable pub line_feeds : ℕ → Text → ℕ
line_feeds zero t = 0
line_feeds (suc index) [] = 0
line_feeds (suc index) (c ∷ t) =
    let rest = line_feeds index t in if c == b'\n' then rest + 1 else rest

abbrev pub line_of : Text → (index : ℕ) → ℕ
line_of text index = line_feeds index text + 1

unfoldable pub strip_code : Text → Text
unfolding split strip_lines join
strip_code text = join (codes "\n") (strip_lines false (split b'\n' text))
