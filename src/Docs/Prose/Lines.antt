-- ===== src/Docs/Prose/Lines.antt =====
-- strip_code of scripts/audit-docs.py keeps every line in its place.
use cekat_event_sdk.Base.{
  ℕ, suc, ◌≡◌, ◌≢◌, refl, ap, ◌∙◌, Text, Bool, true, false, ◌||◌, not, Option, none, some, List, [],
  ◌∷◌, ◌++◌, ◌==◌, if◌then◌else◌, codes, split, cons_first, length, arith, Bool-cases, inl, inr,
  All, All-append,
}
use cekat_event_sdk.Docs.Prose.{sub_code, code_mark, is_fence, strip_lines, strip_code}
use cekat_event_sdk.Matrix.Rendering.{join}

-- A text on one line.
abbrev OneLine : Text → Type 0
OneLine t = All (λ c. c ≢ b'\n') t

abbrev NotEmpty : List Text → Type 0
NotEmpty [] = ⊥
NotEmpty (t ∷ ts) = Unit

not_feed : (c : ℕ) → c ≢ b'\n' → (c == b'\n') ≡ false
not_feed c h = ground arith

split-NotEmpty : (t : Text) → NotEmpty (split b'\n' t)
unfolding split
split-NotEmpty [] = tt
split-NotEmpty (c ∷ t) = elim (Bool-cases (c == b'\n')) [
  | inl e ↦ rw e tt
  | inr e ↦ rw e (cons_first-NotEmpty (split b'\n' t))
]
  where
    cons_first-NotEmpty : (ts : List Text) → NotEmpty (cons_first c ts)
    cons_first-NotEmpty [] = tt
    cons_first-NotEmpty (u ∷ us) = tt

split-OneLine : (t : Text) → All OneLine (split b'\n' t)
unfolding split
split-OneLine [] = (tt, tt)
split-OneLine (c ∷ t) = elim (Bool-cases (c == b'\n')) [
  | inl e ↦ rw e (tt, split-OneLine t)
  | inr e ↦ rw e (cons_first-OneLine c (split b'\n' t) (ground arith) (split-OneLine t))
]
  where
    cons_first-OneLine :
        (d : ℕ) (ts : List Text) → d ≢ b'\n' → All OneLine ts → All OneLine (cons_first d ts)
    cons_first-OneLine d [] h hs = ((h, tt), tt)
    cons_first-OneLine d (u ∷ us) h (hu, hs) = ((h, hu), hs)

-- A text on one line is its own only line, and a line feed ends a line.
split_one : (t : Text) → OneLine t → split b'\n' t ≡ t ∷ []
unfolding split
split_one [] h = refl
split_one (c ∷ t) (h, hs) = rw (not_feed c h, split_one t hs)

split-append : (t u : Text) → OneLine t → split b'\n' (t ++ b'\n' ∷ u) ≡ t ∷ split b'\n' u
unfolding split
split-append [] u h = refl
split-append (c ∷ t) u (h, hs) = rw (not_feed c h, split-append t u hs)

split-join :
    (ts : List Text) → NotEmpty ts → All OneLine ts → split b'\n' (join (codes "\n") ts) ≡ ts
unfolding join
split-join [] n hs = absurd n
split-join (t ∷ []) n (h, hs) = split_one t h
split-join (t ∷ u ∷ ts) n (h, hs) =
    split-append t (join (codes "\n") (u ∷ ts)) h ∙ ap (λ us. t ∷ us) (split-join (u ∷ ts) tt hs)

-- What is pending behind a backtick.
abbrev PendingOneLine : Option Text → Type 0
PendingOneLine none = Unit
PendingOneLine (some pending) = OneLine pending

code_mark-OneLine : (inner : Text) → OneLine (code_mark inner)
code_mark-OneLine inner = (
  ground arith,
  (ground arith, (ground arith, (ground arith, (ground arith, (ground arith, tt))))),
)

sub_code-OneLine :
    (pending : Option Text) (t : Text)
    → PendingOneLine pending
    → OneLine t
    → OneLine (sub_code code_mark pending t)
unfolding sub_code
sub_code-OneLine none [] p h = tt
sub_code-OneLine none (c ∷ t) p (h, hs) = elim (Bool-cases (c == b'`')) [
  | inl e ↦ rw e (sub_code-OneLine (some []) t tt hs)
  | inr e ↦ rw e (h, sub_code-OneLine none t tt hs)
]
sub_code-OneLine (some pending) [] p h = (ground arith, p)
sub_code-OneLine (some pending) (c ∷ t) p (h, hs) = elim (Bool-cases (c == b'`')) [
  | inl e ↦ rw e (
      All-append (λ d. d ≢ b'\n') (code_mark pending) (sub_code code_mark none t)
        (code_mark-OneLine pending) (sub_code-OneLine none t tt hs))
  | inr e ↦ rw e (
      sub_code-OneLine (some (pending ++ c ∷ [])) t
        (All-append (λ d. d ≢ b'\n') pending (c ∷ []) p (h, tt)) hs)
]

strip_line-OneLine :
    (blank : Bool) (line : Text)
    → OneLine line
    → OneLine (if blank then [] else sub_code code_mark none line)
strip_line-OneLine true line h = tt
strip_line-OneLine false line h = sub_code-OneLine none line tt h

strip_lines-OneLine :
    (in_fence : Bool) (lines : List Text)
    → All OneLine lines
    → All OneLine (strip_lines in_fence lines)
unfolding strip_lines
strip_lines-OneLine in_fence [] h = tt
strip_lines-OneLine in_fence (line ∷ lines) (h, hs) = (
  strip_line-OneLine (is_fence line || in_fence) line h,
  strip_lines-OneLine (if is_fence line then not in_fence else in_fence) lines hs,
)

strip_lines-NotEmpty :
    (in_fence : Bool) (lines : List Text) → NotEmpty lines → NotEmpty (strip_lines in_fence lines)
unfolding strip_lines
strip_lines-NotEmpty in_fence [] h = h
strip_lines-NotEmpty in_fence (line ∷ lines) h = tt

length-strip_lines :
    (in_fence : Bool) (lines : List Text) → length (strip_lines in_fence lines) ≡ length lines
unfolding strip_lines
length-strip_lines in_fence [] = refl
length-strip_lines in_fence (line ∷ lines) =
    ap suc (length-strip_lines (if is_fence line then not in_fence else in_fence) lines)

-- The lines of the stripped text are the lines of the text, each stripped in its place, and they are
-- as many, so a line number in the one is a line number in the other.
pub split-strip_code :
    (text : Text)
    → (split b'\n' (strip_code text) ≡ strip_lines false (split b'\n' text))
      × (length (split b'\n' (strip_code text)) ≡ length (split b'\n' text))
unfolding strip_code
split-strip_code text =
    let lines = split b'\n' text in
    let same =
      split-join (strip_lines false lines) (strip_lines-NotEmpty false lines (split-NotEmpty text))
        (strip_lines-OneLine false lines (split-OneLine text)) in
    (same, ap length same ∙ length-strip_lines false lines)
