-- ===== src/Package/Files/Aggregates.antt =====
-- What a directory with the packages of all languages holds that is accepted.
use mathlib.Core.Path.{subst}
use cekat_event_sdk.Base.{
  ℕ, ◌≡◌, refl, ap, Text, false, ◌||◌, Option, none, some, List, [], ◌∷◌, map, All,
}
use cekat_event_sdk.Verdicts.{Verdict, reject, crash, accept, reject_if, >>=-eq-accept}
use cekat_event_sdk.Json.{Json}
use cekat_event_sdk.Package.{languages, manifest_name, Artifact, ManifestError}
use cekat_event_sdk.Package.Files.{
  Entry, special, directory, Entries, lookup, difference, is_nonempty, names_of, validate_manifest,
  output_of, in_language, validate_languages, validate_directory, validate_all,
}
use cekat_event_sdk.Package.Files.Releases.{IsRelease, validate_manifest-IsRelease}

abbrev pub Results : Type 0
Results = List (Text × List Artifact)

same_results :
    (xs ys : Results) → ◌≡◌ {A = Verdict ManifestError (Results)} (accept xs) (accept ys) → xs ≡ ys
same_results xs ys e = cc

module _ (sha256 : List ℕ → Text) (load : List ℕ → Verdict ManifestError Json) where
  output_of-directory :
      (o : Option Entry) (es : Entries)
      → output_of sha256 load o ≡ accept es
      → o ≡ some (directory es)
  unfolding output_of
  output_of-directory (some (directory ds)) es h =
      let same : ds ≡ es = cc in ap (λ d. some (directory d)) same
  output_of-directory (some special) es h = cc
  output_of-directory (some _) es h = cc
  output_of-directory none es h = cc

  in_language-accept :
      {A : Type 0} (language : Text) (checked : Verdict ManifestError A) (a : A)
      → in_language sha256 load language checked ≡ accept a
      → checked ≡ accept a
  unfolding in_language
  in_language-accept language (accept b) a h = h
  in_language-accept language (reject e) a h = cc
  in_language-accept language (crash name) a h = cc

  -- The output directory of a language in the tree, and its artifacts.
  pub IsOutput : (version : Text) → Entries → Text × List Artifact → Type 0
  IsOutput version root (language, artifacts) =
      (es : Entries) × (lookup language root ≡ some (directory es))
      × IsRelease sha256 load es language version artifacts

  languages-IsOutput :
      (version : Text) (root : Entries) (names : List Text) (results : Results)
      → validate_languages sha256 load version root names ≡ accept results
      → (map (λ (r : Text × List Artifact). r.0) results ≡ names)
        × All (IsOutput version root) results
  unfolding validate_languages IsOutput
  languages-IsOutput version root [] results h =
      subst
        (λ (rs : Results).
          (map (λ (r : Text × List Artifact). r.0) rs ≡ []) × All (IsOutput version root) rs)
        (same_results [] results h) (refl, tt)
  languages-IsOutput version root (language ∷ names) results h =
      let (es, es_ok, h1) = >>=-eq-accept (output_of sha256 load (lookup language root)) _ h in
      let checked = validate_manifest sha256 load manifest_name false es language version in
      let (artifacts, artifacts_ok, h2) =
        >>=-eq-accept (in_language sha256 load language checked) _ h1 in
      let (rest, rest_ok, h3) =
        >>=-eq-accept (validate_languages sha256 load version root names) _ h2 in
      let (same_names, outputs) = languages-IsOutput version root names rest rest_ok in
      let release =
        validate_manifest-IsRelease sha256 load manifest_name false es language version artifacts
          (in_language-accept language checked artifacts artifacts_ok) in
      subst
        (λ (rs : Results).
          (map (λ (r : Text × List Artifact). r.0) rs ≡ language ∷ names)
          × All (IsOutput version root) rs)
        (same_results ((language, artifacts) ∷ rest) results h3)
        (
          ap (λ ns. language ∷ ns) same_names,
          ((es, output_of-directory (lookup language root) es es_ok, release), outputs),
        )

  -- A directory of packages that is accepted has results for exactly the seven languages, in their
  -- order, and each is the release of the language's own directory.
  pub validate_all-IsOutput :
      (version : Text) (root : Entries) (results : Results)
      → validate_all sha256 load version (directory root) ≡ accept results
      → (map (λ (r : Text × List Artifact). r.0) results ≡ languages)
        × All (IsOutput version root) results
  unfolding validate_all validate_directory
  validate_all-IsOutput version root results h =
      let wrong =
        is_nonempty (difference (names_of sha256 load root) languages)
        || is_nonempty (difference languages (names_of sha256 load root)) in
      let (_, _, h1) = >>=-eq-accept (reject_if wrong _) _ h in
      languages-IsOutput version root languages results h1
