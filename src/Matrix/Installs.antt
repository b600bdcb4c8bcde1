-- ===== src/Matrix/Installs.antt =====
-- When the profiles and the release version of scripts/validate-compatibility-matrix.py agree with
-- the CI values, the evidence and the release readiness workflow.
use cekat_event_sdk.Base.{
  ℕ, ◌≡◌, refl, ap, ◌∙◌, ◌⊎◌, inl, inr, Text, Bool, true, false, ◌&&◌, not, Option, List, [], ◌∷◌,
  ◌++◌, codes, text_eq, text_eq_iff, arith,
}
use cekat_event_sdk.Json.{Json, null, str, arr, obj, Items, nil, cons, Members}
use cekat_event_sdk.Verdicts.{accept, reject_if, >>=-eq-accept, reject_if-accept, accept_injective}
use cekat_event_sdk.Package.{listed}
use cekat_event_sdk.Package.Listings.{value_of, same_texts}
use cekat_event_sdk.Patterns.{occurs, starts_with}
use cekat_event_sdk.Matrix.{Checked, profiles, at_name, keys, string}
use cekat_event_sdk.Matrix.Names.{names_are}
use cekat_event_sdk.Matrix.Workflows.{release_readiness_values}
use cekat_event_sdk.Matrix.Entries.{
  in_evidence, is_exact_version, check_profile, check_profiles_from, check_profile_list,
  check_release,
}
use cekat_event_sdk.Matrix.Reads.{
  reject_unless-accept, keys-accept, string-accept, in_evidence-accept,
}
use cekat_event_sdk.Matrix.Agrees.{same_texts_sound}

module _ (digit_value : ℕ → Option ℕ) (evidence : Text) (values : List Text) where
  -- A profile runs on one of the CI values, and names an exact version that the evidence names.
  pub record AgreesProfile (profile : Json) : Type 0 where
    pub members : Members
    pub is_object : profile ≡ obj members
    pub ci_value : Text
    pub says : value_of (codes "ci_value") members ≡ str ci_value
    pub runs : listed ci_value values ≡ true
    pub observed : Text
    pub of_version : value_of (codes "observed") members ≡ str observed
    pub is_exact : is_exact_version digit_value observed ≡ true
    pub in_evidence : occurs observed evidence ≡ true

  check_profile-AgreesProfile :
      (place : Text) (profile : Json) (ci_value : Text)
      → check_profile digit_value evidence values place profile ≡ accept ci_value
      → (a : AgreesProfile profile) × (a.ci_value ≡ ci_value)
  unfolding check_profile
  check_profile-AgreesProfile place profile found h =
      let (members, is_object, h1) = >>=-eq-accept (keys profile _ place) _ h in
      let (ci_value, says, h2) =
        >>=-eq-accept (string (value_of (codes "ci_value") members) _) _ h1 in
      let (_, runs, h3) = >>=-eq-accept (reject_if (not (listed ci_value values)) _) _ h2 in
      let (observed, of_version, h4) =
        >>=-eq-accept (string (value_of (codes "observed") members) _) _ h3 in
      let (_, exact, h5) =
        >>=-eq-accept (reject_if (not (is_exact_version digit_value observed)) _) _ h4 in
      let (_, appears, h6) =
        >>=-eq-accept (cekat_event_sdk.Matrix.Entries.in_evidence evidence observed _) _ h5 in
      (
        record {
          members = members;
          is_object = (keys-accept profile _ place members is_object).0;
          ci_value = ci_value;
          says = (string-accept (value_of (codes "ci_value") members) _ ci_value says).0;
          runs = reject_unless-accept (listed ci_value values) _ runs;
          observed = observed;
          of_version =
              (string-accept (value_of (codes "observed") members) _ observed of_version).0;
          is_exact = reject_unless-accept (is_exact_version digit_value observed) _ exact;
          in_evidence = in_evidence-accept evidence observed _ appears;
        },
        accept_injective h6,
      )

  -- Two profiles, of which the second one is current.
  pub record AgreeProfiles (value : Json) (current : Text) : Type 0 where
    pub minimum_profile : Json
    pub current_profile : Json
    pub are_two : value ≡ arr (cons minimum_profile (cons current_profile nil))
    pub are_named :
        names_are (codes "name") (cons minimum_profile (cons current_profile nil)) profiles ≡ true
    pub minimum_agrees : AgreesProfile minimum_profile
    pub current_agrees : AgreesProfile current_profile
    pub is_current : current_agrees.ci_value ≡ current

  check_two :
      (place : Text) (p q : Json) (current : Text)
      → names_are (codes "name") (cons p (cons q nil)) profiles ≡ true
      → check_profiles_from digit_value evidence values place profiles [] (cons p (cons q nil))
        ≡ accept current
      → AgreeProfiles (arr (cons p (cons q nil))) current
  unfolding check_profiles_from
  check_two place p q current named h =
      let (least, p_ok, h1) = >>=-eq-accept (check_profile digit_value evidence values _ p) _ h in
      let (newest, q_ok, h2) = >>=-eq-accept (check_profile digit_value evidence values _ q) _ h1 in
      let (p_agrees, _) = check_profile-AgreesProfile _ p least p_ok in
      let (q_agrees, same) = check_profile-AgreesProfile _ q newest q_ok in
      record {
        minimum_profile = p;
        current_profile = q;
        are_two = refl;
        are_named = named;
        minimum_agrees = p_agrees;
        current_agrees = q_agrees;
        is_current = same ∙ accept_injective h2;
      }

  check_all :
      (place : Text) (items : Items) (current : Text)
      → names_are (codes "name") items profiles ≡ true
      → check_profiles_from digit_value evidence values place profiles [] items ≡ accept current
      → AgreeProfiles (arr items) current
  unfolding names_are
  check_all place nil current named h = cc
  check_all place (cons p nil) current named h = absurd (ground arith)
  check_all place (cons p (cons q nil)) current named h = check_two place p q current named h
  check_all place (cons p (cons q (cons r items))) current named h = absurd (ground arith)

  pub check_profile_list-AgreeProfiles :
      (place : Text) (value : Json) (current : Text)
      → check_profile_list digit_value evidence values place value ≡ accept current
      → AgreeProfiles value current
  unfolding check_profile_list
  check_profile_list-AgreeProfiles place (arr items) current h =
      let (_, named, h1) =
        >>=-eq-accept (reject_if (not (names_are (codes "name") items profiles)) _) _ h in
      check_all place items current
        (reject_unless-accept (names_are (codes "name") items profiles) _ named) h1
  check_profile_list-AgreeProfiles place null current h = cc
  check_profile_list-AgreeProfiles place _ current h = cc

-- The workflow installs exactly the version, which is the current one or one of its patches.
pub record AgreesRelease (workflow language current : Text) (value : Json) : Type 0 where
  pub members : Members
  pub is_object : value ≡ obj members
  pub key : Text
  pub of_key : value_of (codes "key") members ≡ str key
  pub version : Text
  pub of_version : value_of (codes "value") members ≡ str version
  pub agrees : release_readiness_values workflow language key ≡ accept (version ∷ [])
  pub is_current : (version ≡ current) ⊎ (starts_with (current ++ codes ".") version ≡ true)

matches : (a b : Bool) → not a && not b ≡ false → (a ≡ true) ⊎ (b ≡ true)
matches true b h = inl refl
matches false true h = inr refl
matches false false h = cc

current-of :
    (version current : Text)
    → (text_eq version current ≡ true) ⊎ (starts_with (current ++ codes ".") version ≡ true)
    → (version ≡ current) ⊎ (starts_with (current ++ codes ".") version ≡ true)
current-of version current (inl e) = inl ((text_eq_iff version current).0 e)
current-of version current (inr e) = inr e

pub check_release-AgreesRelease :
    (workflow language place current : Text) (value : Json)
    → check_release workflow language place current value ≡ accept tt
    → AgreesRelease workflow language current value
unfolding check_release
check_release-AgreesRelease workflow language place current value h =
    let (members, is_object, h1) = >>=-eq-accept (keys value _ place) _ h in
    let (version, of_version, h2) =
      >>=-eq-accept (string (value_of (codes "value") members) _) _ h1 in
    let (key, of_key, h3) = >>=-eq-accept (string (value_of (codes "key") members) _) _ h2 in
    let (actual, reads, h4) = >>=-eq-accept (release_readiness_values workflow language key) _ h3 in
    let (_, same, h5) = >>=-eq-accept (reject_if (not (same_texts actual (version ∷ []))) _) _ h4 in
    record {
      members = members;
      is_object = (keys-accept value _ place members is_object).0;
      key = key;
      of_key = (string-accept (value_of (codes "key") members) _ key of_key).0;
      version = version;
      of_version = (string-accept (value_of (codes "value") members) _ version of_version).0;
      agrees =
          reads
          ∙ ap accept (
              same_texts_sound actual (version ∷ [])
                (reject_unless-accept (same_texts actual (version ∷ [])) _ same));
      is_current = current-of version current (
          matches (text_eq version current) (starts_with (current ++ codes ".") version)
            (reject_if-accept _ _ h5));
    }
