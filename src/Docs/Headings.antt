-- ===== src/Docs/Headings.antt =====
-- github_anchor and anchors of scripts/audit-docs.py: the anchors of a document's headings. str.lower
-- and the word characters of `\w` are parameters.
use cekat_event_sdk.Base.{
  ℕ, zero, suc, ◌+◌, Text, Bool, true, false, ◌||◌, not, Option, none, some, List, [], ◌∷◌, ◌++◌,
  ◌==◌, if◌then◌else◌, codes, text_eq, split, strip, is_space, decimal,
}
use cekat_event_sdk.Patterns.{Rest, literal, any_of, some_of, shortest, text_end, captured}
use cekat_event_sdk.Docs.Prose.{sub_code, is_fence}

abbrev is_hash : ℕ → Bool
is_hash c = c == b'#'

-- `#{0,n}`, greedy.
unfoldable pub hashes : ℕ → Rest Text → Rest Text
hashes zero rest t = rest t
hashes (suc n) rest [] = rest []
hashes (suc n) rest (c ∷ t) = elim (if is_hash c then hashes n rest t else none) [
  | none ↦ rest (c ∷ t)
  | some g ↦ some g
]

-- `^#{1,6}\s+(.+?)\s*#*\s*$`
unfoldable pub heading : Rest Text
unfolding literal hashes some_of any_of shortest is_space
heading = literal (codes "#") (
    hashes 5 (
      some_of is_space (
        shortest
          (λ g. any_of is_space (any_of is_hash (any_of is_space (text_end (captured g))))))))

module _ (lower : Text → Text) (is_word : ℕ → Bool) where
  -- re.sub(r"\s", "-", re.sub(r"[^\w\s-]", "", text))
  unfoldable pub slug : Text → Text
  unfolding is_space
  slug [] = []
  slug (c ∷ t) =
      let rest = slug t in
      if is_space c then b'-' ∷ rest else if is_word c || c == b'-' then c ∷ rest else rest

  unfoldable pub github_anchor : Text → Text
  unfolding strip sub_code slug
  github_anchor heading = slug (lower (sub_code (λ inner. inner) none (strip heading)))

  -- found.get(slug, 0), of the slugs that were found.
  unfoldable pub times : Text → List Text → ℕ
  times t [] = 0
  times t (u ∷ us) = let rest = times t us in if text_eq u t then rest + 1 else rest

  numbered : Text → ℕ → Text
  unfolding decimal
  numbered t zero = t
  numbered t (suc n) = t ++ b'-' ∷ decimal (suc n)

  headed : Bool → Option Text → Option Text
  unfolding github_anchor
  headed in_fence none = none
  headed in_fence (some title) = if in_fence then none else some (github_anchor title)

  -- The loop over the lines, with the slugs that were found so far.
  unfoldable pub anchors_from : (found : List Text) (in_fence : Bool) → List Text → List Text
  unfolding is_fence heading headed times numbered
  anchors_from found in_fence [] = []
  anchors_from found in_fence (line ∷ lines) = elim (is_fence line) [
    | true ↦ anchors_from found (not in_fence) lines
    | false ↦ elim (headed in_fence (heading line)) [
      | none ↦ anchors_from found in_fence lines
      | some here ↦ numbered here (times here found) ∷ anchors_from (here ∷ found) in_fence lines
    ]
  ]

  unfoldable pub anchors : Text → List Text
  unfolding split anchors_from
  anchors text = anchors_from [] false (split b'\n' text)
