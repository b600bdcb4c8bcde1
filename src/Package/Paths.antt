-- ===== src/Package/Paths.antt =====
-- Which paths a manifest may list.
use mathlib.Core.Path.{subst}
use cekat_event_sdk.Base.{
  ◌≡◌, ◌≢◌, ◌↔◌, refl, ap, Text, Bool, true, false, ◌||◌, List, [], ◌∷◌, ◌==◌, codes, text_eq,
  text_eq_iff, split, arith, Bool-cases, inl, inr, All,
}
use cekat_event_sdk.Verdicts.{Verdict, accept, reject_if, >>=-eq-accept, reject_if-accept}
use cekat_event_sdk.Json.{Json, null, str}
use cekat_event_sdk.Package.{
  ManifestError, manifest_name, any_char, is_backslash_or_nul, starts_with_slash, is_bad_component,
  any_bad_component, check_text_path, check_path,
}

text_eq-false : (t u : Text) → text_eq t u ≡ false → t ≢ u
text_eq-false t u e same = let yes : text_eq t u ≡ true = (text_eq_iff t u).1 same in cc

false-text_eq : (t u : Text) → t ≢ u → text_eq t u ≡ false
false-text_eq t u h = elim (Bool-cases (text_eq t u)) [
  | inl same ↦ absurd (h ((text_eq_iff t u).0 same))
  | inr other ↦ other
]

-- A component that names an entry of the directory itself.
abbrev pub IsComponent : Text → Type 0
IsComponent part = (part ≢ []) × (part ≢ codes ".") × (part ≢ codes "..")

-- A relative path that stays in its directory and is not the manifest.
pub record IsSafePath (path : Text) : Type 0 where
  pub plain : All (λ c. (c ≢ 92) × (c ≢ 0)) path
  pub components : All IsComponent (split b'/' path)
  pub not_manifest : path ≢ manifest_name

plain-any : (t : Text) → any_char is_backslash_or_nul t ≡ false → All (λ c. (c ≢ 92) × (c ≢ 0)) t
unfolding any_char
plain-any [] h = tt
plain-any (c ∷ t) h = (ground arith, plain-any t (ground arith))

any-plain : (t : Text) → All (λ c. (c ≢ 92) × (c ≢ 0)) t → any_char is_backslash_or_nul t ≡ false
unfolding any_char
any-plain [] h = refl
any-plain (c ∷ t) (h, hs) = let rest = any-plain t hs in ground arith

is_bad_component-IsComponent : (part : Text) → is_bad_component part ≡ false → IsComponent part
is_bad_component-IsComponent part h = (
  text_eq-false part [] (ground arith),
  text_eq-false part (codes ".") (ground arith),
  text_eq-false part (codes "..") (ground arith),
)

IsComponent-is_bad_component : (part : Text) → IsComponent part → is_bad_component part ≡ false
IsComponent-is_bad_component part (e, d, dd) =
    rw (
      false-text_eq part [] e,
      false-text_eq part (codes ".") d,
      false-text_eq part (codes "..") dd,
    )

or-false : (a b : Bool) → a || b ≡ false → (a ≡ false) × (b ≡ false)
or-false true b e = cc
or-false false b e = (refl, e)

components-any : (parts : List Text) → any_bad_component parts ≡ false → All IsComponent parts
unfolding any_bad_component
components-any [] h = tt
components-any (part ∷ parts) h =
    let (good, rest) = or-false (is_bad_component part) (any_bad_component parts) h in
    (is_bad_component-IsComponent part good, components-any parts rest)

any-components : (parts : List Text) → All IsComponent parts → any_bad_component parts ≡ false
unfolding any_bad_component
any-components [] h = refl
any-components (part ∷ parts) (h, hs) =
    rw (IsComponent-is_bad_component part h, any-components parts hs)

-- A path that starts with a slash has an empty first component.
relative : (path : Text) → All IsComponent (split b'/' path) → starts_with_slash path ≡ false
unfolding split
relative [] h = refl
relative (c ∷ t) h = elim (Bool-cases (c == b'/')) [
  | inl slash ↦ absurd ((rw slash at h).0.0 refl)
  | inr other ↦ other
]

check_path_sound :
    (j : Json) (path : Text) → check_path j ≡ accept path → (j ≡ str path) × IsSafePath path
unfolding check_path check_text_path
check_path_sound (str []) path h = cc
check_path_sound (str (c ∷ t)) path h =
    let (_, plain, h1) = >>=-eq-accept (reject_if (any_char is_backslash_or_nul (c ∷ t)) _) _ h in
    let (_, _, h2) = >>=-eq-accept (reject_if (starts_with_slash (c ∷ t)) _) _ h1 in
    let (_, components, h3) =
      >>=-eq-accept (reject_if (any_bad_component (split b'/' (c ∷ t))) _) _ h2 in
    let (_, other, h4) = >>=-eq-accept (reject_if (text_eq (c ∷ t) manifest_name) _) _ h3 in
    safe path h4 (record {
      plain = plain-any (c ∷ t) (reject_if-accept _ _ plain);
      components = components-any (split b'/' (c ∷ t)) (reject_if-accept _ _ components);
      not_manifest = text_eq-false (c ∷ t) manifest_name (reject_if-accept _ _ other);
    })
  where
    safe :
        (p : Text)
        → ◌≡◌ {A = Verdict ManifestError Text} (accept (c ∷ t)) (accept p)
        → IsSafePath (c ∷ t)
        → (str (c ∷ t) ≡ str p) × IsSafePath p
    safe p e s = let same : c ∷ t ≡ p = cc in (ap str same, subst IsSafePath same s)
check_path_sound null path h = cc
check_path_sound _ path h = cc

not_empty : ¬ (All IsComponent (split b'/' []))
unfolding split
not_empty h = h.0.0 refl

check_path_complete : (path : Text) → IsSafePath path → check_path (str path) ≡ accept path
unfolding check_path check_text_path
check_path_complete [] s = absurd (not_empty s.components)
check_path_complete (c ∷ t) s = rw (
  any-plain (c ∷ t) s.plain,
  relative (c ∷ t) s.components,
  any-components (split b'/' (c ∷ t)) s.components,
  false-text_eq (c ∷ t) manifest_name s.not_manifest,
)

-- A path is accepted exactly when it is a text without backslash and NUL, whose components between
-- slashes are none of the empty text, `.` and `..`, and which is not the manifest itself.
pub check_path_iff :
    (j : Json) (path : Text) → (check_path j ≡ accept path) ↔ ((j ≡ str path) × IsSafePath path)
check_path_iff j path = (check_path_sound j path, λ (same, s). rw same (check_path_complete path s))
