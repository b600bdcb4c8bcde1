-- ===== src/Matrix/Agrees.antt =====
-- When a runtime, a CI row, the profiles and the release version of
-- scripts/validate-compatibility-matrix.py agree with the repository.
use mathlib.Core.Path.{subst}
use cekat_event_sdk.Base.{
  ◌≡◌, refl, ap, ◌∙◌, inl, inr, Text, true, false, not, Option, some, List, [], ◌∷◌, codes, text_eq,
  text_eq_iff, Bool-cases,
}
use cekat_event_sdk.Json.{Json, str, arr, obj, Members}
use cekat_event_sdk.Protocol.{Loaded}
use cekat_event_sdk.Verdicts.{accept, reject_if, >>=-eq-accept, accept_injective}
use cekat_event_sdk.Package.Listings.{value_of, same_texts}
use cekat_event_sdk.Matrix.{Checked, Repository, at_name, keys, string, strings, repo_file}
use cekat_event_sdk.Matrix.Runtimes.{runtime_in, declared_runtime}
use cekat_event_sdk.Matrix.Workflows.{ci_matrix_values}
use cekat_event_sdk.Matrix.Entries.{check_runtime, check_ci}
use cekat_event_sdk.Matrix.Reads.{
  reject_unless-accept, texts_array, keys-accept, string-accept, strings-accept, IsFile,
  repo_file-accept, read_text-accept,
}

pub same_texts_sound : (ts us : List Text) → same_texts ts us ≡ true → ts ≡ us
unfolding same_texts
same_texts_sound [] [] h = refl
same_texts_sound [] (u ∷ us) h = cc
same_texts_sound (t ∷ ts) [] h = cc
same_texts_sound (t ∷ ts) (u ∷ us) h = elim (Bool-cases (text_eq t u)) [
  | inl e ↦
      ap (λ v. v ∷ ts) ((text_eq_iff t u).0 e)
      ∙ ap (λ vs. u ∷ vs) (same_texts_sound ts us (rw e at h))
  | inr e ↦ absurd (let no : false ≡ true = rw e at h in cc)
]

module _ (repository : Repository) (loads : Text → Loaded) (str_of : Json → Text) where
  -- The file that a runtime names declares the floor that the matrix says.
  pub record AgreesRuntime (runtime : Json) : Type 0 where
    pub members : Members
    pub is_object : runtime ≡ obj members
    pub declared : Text
    pub says : value_of (codes "declared") members ≡ str declared
    pub source : Members
    pub has_source : value_of (codes "declared_in") members ≡ obj source
    pub path : Text
    pub text : Text
    pub is_file : IsFile repository (value_of (codes "file") source) path (some text)
    pub kind : Text
    pub of_kind : value_of (codes "kind") source ≡ str kind
    pub agrees : runtime_in loads str_of text kind ≡ accept declared

  declared_runtime-accept :
      (contents : Option Text) (kind actual : Text)
      → declared_runtime loads str_of contents kind ≡ accept actual
      → (text : Text) × (contents ≡ some text) × (runtime_in loads str_of text kind ≡ accept actual)
  unfolding declared_runtime
  declared_runtime-accept contents kind actual h =
      let (text, read, h1) = >>=-eq-accept (cekat_event_sdk.Matrix.read_text contents) _ h in
      (text, read_text-accept contents text read, h1)

  pub check_runtime-AgreesRuntime :
      (place : Text) (runtime : Json)
      → check_runtime repository loads str_of place runtime ≡ accept tt
      → AgreesRuntime runtime
  unfolding check_runtime
  check_runtime-AgreesRuntime place runtime h =
      let (members, is_object, h1) = >>=-eq-accept (keys runtime _ place) _ h in
      let (name, _, h2) = >>=-eq-accept (string (value_of (codes "name") members) _) _ h1 in
      let (declared, says, h3) =
        >>=-eq-accept (string (value_of (codes "declared") members) _) _ h2 in
      let (source, has_source, h4) =
        >>=-eq-accept (keys (value_of (codes "declared_in") members) _ _) _ h3 in
      let (found, is_file, h5) =
        >>=-eq-accept (repo_file repository (value_of (codes "file") source) _) _ h4 in
      let (kind, of_kind, h6) = >>=-eq-accept (string (value_of (codes "kind") source) _) _ h5 in
      let (actual, reads, h7) = >>=-eq-accept (declared_runtime loads str_of found.1 kind) _ h6 in
      let (text, contents, runs) = declared_runtime-accept found.1 kind actual reads in
      let same : actual ≡ declared =
        (text_eq_iff actual declared).0 (reject_unless-accept (text_eq actual declared) _ h7) in
      record {
        members = members;
        is_object = (keys-accept runtime _ place members is_object).0;
        declared = declared;
        says = (string-accept (value_of (codes "declared") members) _ declared says).0;
        source = source;
        has_source = (keys-accept (value_of (codes "declared_in") members) _ _ source has_source).0;
        path = found.0;
        text = text;
        is_file =
            subst (IsFile repository (value_of (codes "file") source) found.0) contents
              (repo_file-accept repository (value_of (codes "file") source) _ found is_file);
        kind = kind;
        of_kind = (string-accept (value_of (codes "kind") source) _ kind of_kind).0;
        agrees = runs ∙ ap accept same;
      }

-- The values of a CI row are those of its key in its job's matrix, in their order.
pub record AgreesRow (workflow : Text) (row : Json) : Type 0 where
  pub members : Members
  pub is_object : row ≡ obj members
  pub job : Text
  pub key : Text
  pub values : List Text
  pub of_job : value_of (codes "job") members ≡ str job
  pub of_key : value_of (codes "key") members ≡ str key
  pub says : value_of (codes "values") members ≡ arr (texts_array values)
  pub agrees : ci_matrix_values workflow job key ≡ accept values

pub check_ci-AgreesRow :
    (workflow place : Text) (row : Json) (found : List Text)
    → check_ci workflow place row ≡ accept found
    → (a : AgreesRow workflow row) × (a.values ≡ found)
unfolding check_ci
check_ci-AgreesRow workflow place row found h =
    let (members, is_object, h1) = >>=-eq-accept (keys row _ place) _ h in
    let (values, says, h2) =
      >>=-eq-accept (strings false (value_of (codes "values") members) _) _ h1 in
    let (job, of_job, h3) = >>=-eq-accept (string (value_of (codes "job") members) _) _ h2 in
    let (key, of_key, h4) = >>=-eq-accept (string (value_of (codes "key") members) _) _ h3 in
    let (actual, reads, h5) = >>=-eq-accept (ci_matrix_values workflow job key) _ h4 in
    let (_, same, h6) = >>=-eq-accept (reject_if (not (same_texts actual values)) _) _ h5 in
    (
      record {
        members = members;
        is_object = (keys-accept row _ place members is_object).0;
        job = job;
        key = key;
        values = values;
        of_job = (string-accept (value_of (codes "job") members) _ job of_job).0;
        of_key = (string-accept (value_of (codes "key") members) _ key of_key).0;
        says = strings-accept false (value_of (codes "values") members) _ values says;
        agrees =
            reads
            ∙ ap accept (
                same_texts_sound actual values
                  (reject_unless-accept (same_texts actual values) _ same));
      },
      accept_injective h6,
    )
