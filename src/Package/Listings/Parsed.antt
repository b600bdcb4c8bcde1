-- ===== src/Package/Listings/Parsed.antt =====
-- What a manifest that is accepted lists.
use mathlib.Core.Path.{subst}
use cekat_event_sdk.Base.{
  ℕ, ◌+◌, ◌≤◌, ◌≡◌, ◌≢◌, refl, ap, sym, pos, negsuc, zero, suc, Text, true, false, not, List, [],
  ◌∷◌, codes, text_eq, text_eq_iff, arith, Bool-cases, some, inl, inr, All,
}
use cekat_event_sdk.Verdicts.{Verdict, reject, accept, reject_if, >>=-eq-accept, reject_if-accept}
use cekat_event_sdk.Json.{Json, null, int, str, arr, obj, Items, nil, cons, Members, get}
use cekat_event_sdk.Package.{languages, Artifact, listed, check_path, ManifestError}
use cekat_event_sdk.Package.Paths.{IsSafePath, check_path_iff}
use cekat_event_sdk.Package.Listings.{
  value_of, is_one, is_language, is_text, is_sha256, check_sha256, check_size, check_artifact,
  check_artifacts, distinct, keyed, check_sorted, paths_of, check_list, parse_manifest, has_keys,
  document_names,
}
use cekat_event_sdk.Package.Listings.Entries.{
  HasOnly, has_keys-HasOnly, value_of-get, value_of-str, value_of-int, artifact_names, IsEntryOf,
  AreEntriesOf, check_sha256-str, check_size-int, is_one-int,
}
use cekat_event_sdk.Package.Listings.Ordered.{IsInOrder, not-not, check_sorted-IsInOrder}

-- An artifact that can be released.
pub record IsArtifact (a : Artifact) : Type 0 where
  pub safe_path : IsSafePath a.path
  pub hash : is_sha256 a.sha256 ≡ true
  pub some_bytes : 1 ≤ a.size_bytes

-- No text stands twice in the list.
abbrev pub Unique : List Text → Type 0
Unique [] = Unit
Unique (t ∷ ts) = All (λ u. t ≢ u) ts × Unique ts

check_sha256-accept :
    (path : Text) (j : Json) (t : Text) → check_sha256 path j ≡ accept t → is_sha256 t ≡ true
unfolding check_sha256
check_sha256-accept path (str u) t h = elim (Bool-cases (is_sha256 u)) [
  | inl good ↦
      let h' : accept u ≡ accept t = rw good at h in
      let same : u ≡ t = cc in subst (λ v. is_sha256 v ≡ true) same good
  | inr bad ↦ absurd (let h' : reject _ ≡ accept t = rw bad at h in cc)
]
check_sha256-accept path null t h = cc
check_sha256-accept path _ t h = cc

check_size-accept : (path : Text) (j : Json) (n : ℕ) → check_size path j ≡ accept n → 1 ≤ n
unfolding check_size
check_size-accept path (int (pos (suc m))) n h = let same : suc m ≡ n = cc in omega (arith, same)
check_size-accept path (int (pos zero)) n h = cc
check_size-accept path (int (negsuc m)) n h = cc
check_size-accept path null n h = cc
check_size-accept path _ n h = cc

check_artifact-IsArtifact :
    (index : ℕ) (j : Json) (a : Artifact)
    → check_artifact index j ≡ accept a
    → IsArtifact a × IsEntryOf j a
unfolding check_artifact
check_artifact-IsArtifact index (obj ms) a h =
    let (_, exact, h1) = >>=-eq-accept (reject_if (not (has_keys artifact_names ms)) _) _ h in
    let (path, path_ok, h2) = >>=-eq-accept (check_path (value_of (codes "path") ms)) _ h1 in
    let (hash, hash_ok, h3) =
      >>=-eq-accept (check_sha256 path (value_of (codes "sha256") ms)) _ h2 in
    let (size, size_ok, h4) =
      >>=-eq-accept (check_size path (value_of (codes "size_bytes") ms)) _ h3 in
    let (path_text, safe) = (check_path_iff (value_of (codes "path") ms) path).0 path_ok in
    subst (λ (b : Artifact). IsArtifact b × IsEntryOf (obj ms) b) (same_artifact _ a h4)
      (
        record {
          safe_path = safe;
          hash = check_sha256-accept path (value_of (codes "sha256") ms) hash hash_ok;
          some_bytes = check_size-accept path (value_of (codes "size_bytes") ms) size size_ok;
        },
        record {
          members = ms;
          is_object = refl;
          only = has_keys-HasOnly artifact_names ms (not-not _ (reject_if-accept _ _ exact));
          has_path = value_of-str (codes "path") ms path path_text;
          has_sha256 =
              value_of-str (codes "sha256") ms hash
                (check_sha256-str path (value_of (codes "sha256") ms) hash hash_ok);
          has_size =
              value_of-int (codes "size_bytes") ms size
                (check_size-int path (value_of (codes "size_bytes") ms) size size_ok);
        },
      )
  where
    same_artifact :
        (x y : Artifact) → ◌≡◌ {A = Verdict ManifestError Artifact} (accept x) (accept y) → x ≡ y
    same_artifact x y e = cc
check_artifact-IsArtifact index null a h = cc
check_artifact-IsArtifact index _ a h = cc

pub same_list :
    (xs ys : List Artifact)
    → ◌≡◌ {A = Verdict ManifestError (List Artifact)} (accept xs) (accept ys)
    → xs ≡ ys
same_list xs ys e = cc

check_artifacts-All :
    (index : ℕ) (raws : Items) (xs : List Artifact)
    → check_artifacts index raws ≡ accept xs
    → All IsArtifact xs × AreEntriesOf raws xs
unfolding check_artifacts
check_artifacts-All index nil xs h =
    subst (λ ys. All IsArtifact ys × AreEntriesOf nil ys) (same_list [] xs h) (tt, tt)
check_artifacts-All index (cons raw raws) xs h =
    let (a, a_ok, h1) = >>=-eq-accept (check_artifact index raw) _ h in
    let (rest, rest_ok, h2) = >>=-eq-accept (check_artifacts (index + 1) raws) _ h1 in
    let (released, read) = check_artifact-IsArtifact index raw a a_ok in
    let (all_released, all_read) = check_artifacts-All (index + 1) raws rest rest_ok in
    subst (λ ys. All IsArtifact ys × AreEntriesOf (cons raw raws) ys) (same_list (a ∷ rest) xs h2)
      ((released, all_released), (read, all_read))

not_listed : (t : Text) (ts : List Text) → listed t ts ≡ false → All (λ u. t ≢ u) ts
unfolding listed
not_listed t [] h = tt
not_listed t (u ∷ us) h = (
  λ same. let yes : text_eq u t ≡ true = (text_eq_iff u t).1 (sym same) in ground arith,
  not_listed t us (ground arith),
)

distinct-Unique : (ts : List Text) → distinct ts ≡ true → Unique ts
unfolding distinct
distinct-Unique [] h = tt
distinct-Unique (t ∷ ts) h = (not_listed t ts (ground arith), distinct-Unique ts (ground arith))

-- The artifacts of a manifest that is accepted.
pub record IsListing (language version : Text) (document : Json) (artifacts : List Artifact)
    : Type 0 where
  pub members : Members
  pub is_object : document ≡ obj members
  pub only : HasOnly document_names members
  pub has_schema : get (codes "schema_version") members ≡ some (int (pos 1))
  pub known_language : listed language languages ≡ true
  pub has_language : get (codes "language") members ≡ some (str language)
  pub has_version : get (codes "version") members ≡ some (str version)
  pub raws : Items
  pub has_artifacts : get (codes "artifacts") members ≡ some (arr raws)
  pub are_entries : AreEntriesOf raws artifacts
  pub some_artifacts : artifacts ≢ []
  pub are_artifacts : All IsArtifact artifacts
  pub unique : Unique (paths_of artifacts)
  pub in_order : IsInOrder (paths_of artifacts)

pub is_text-str : (t : Text) (j : Json) → is_text t j ≡ true → j ≡ str t
is_text-str t (str u) h = ap str ((text_eq_iff u t).0 h)
is_text-str t null h = cc
is_text-str t _ h = cc

cons-ne : (x : Artifact) (xs : List Artifact) → x ∷ xs ≢ []
cons-ne x xs e = cc

check_artifacts-ne :
    (raw : Json) (raws : Items) (xs : List Artifact)
    → check_artifacts 0 (cons raw raws) ≡ accept xs
    → xs ≢ []
unfolding check_artifacts
check_artifacts-ne raw raws xs h =
    let (a, _, h1) = >>=-eq-accept (check_artifact 0 raw) _ h in
    let (rest, _, h2) = >>=-eq-accept (check_artifacts 1 raws) _ h1 in
    subst (λ ys. ys ≢ []) (same_list (a ∷ rest) xs h2) (cons-ne a rest)

check_list-accept :
    (j : Json) (xs : List Artifact)
    → check_list j ≡ accept xs
    → (raws : Items) × (j ≡ arr raws) × (xs ≢ []) × All IsArtifact xs × AreEntriesOf raws xs
unfolding check_list
check_list-accept (arr (cons raw raws)) xs h =
    let (released, read) = check_artifacts-All 0 (cons raw raws) xs h in
    (cons raw raws, refl, check_artifacts-ne raw raws xs h, released, read)
check_list-accept (arr nil) xs h = cc
check_list-accept null xs h = cc
check_list-accept _ xs h = cc

-- A manifest that is accepted is an object with exactly the four members: the schema version is the
-- integer 1, the language is the expected one, which is a known one, the version is the expected
-- one, and the artifacts are an array. The artifacts that are returned are those of the array, one
-- for each element and in its order, with the path, the hash and the size that the element gives
-- as its only members. There is at least one; each has a safe path, a hash of 64
-- lower-case hexadecimal digits and at least one byte; no path stands twice, and the paths are in
-- the order of their UTF-8 bytes.
pub parse_manifest-IsListing :
    (language version : Text) (document : Json) (artifacts : List Artifact)
    → parse_manifest language version document ≡ accept artifacts
    → IsListing language version document artifacts
unfolding parse_manifest
parse_manifest-IsListing language version (obj ms) artifacts h =
    let (_, exact, h1) = >>=-eq-accept (reject_if (not (has_keys document_names ms)) _) _ h in
    let (_, schema, h2) =
      >>=-eq-accept (reject_if (not (is_one (value_of (codes "schema_version") ms))) _) _ h1 in
    let (_, known, h3) =
      >>=-eq-accept (reject_if (not (is_language (value_of (codes "language") ms))) _) _ h2 in
    let (_, same_language, h4) =
      >>=-eq-accept (reject_if (not (is_text language (value_of (codes "language") ms))) _) _ h3 in
    let (_, same_version, h5) =
      >>=-eq-accept (reject_if (not (is_text version (value_of (codes "version") ms))) _) _ h4 in
    let (found, found_ok, h6) = >>=-eq-accept (check_list (value_of (codes "artifacts") ms)) _ h5 in
    let (_, all_distinct, h7) =
      >>=-eq-accept (reject_if (not (distinct (paths_of found))) _) _ h6 in
    let (_, in_order, h8) =
      >>=-eq-accept (check_sorted (paths_of found) (keyed (paths_of found))) _ h7 in
    let (raws, is_array, some_found, all_found, read) =
      check_list-accept (value_of (codes "artifacts") ms) found found_ok in
    let language_text =
      is_text-str language (value_of (codes "language") ms)
        (not-not _ (reject_if-accept _ _ same_language)) in
    subst (IsListing language version (obj ms)) (same_list found artifacts h8) (record {
      members = ms;
      is_object = refl;
      only = has_keys-HasOnly document_names ms (not-not _ (reject_if-accept _ _ exact));
      has_schema = value_of-int (codes "schema_version") ms 1 (
          is_one-int (value_of (codes "schema_version") ms)
            (not-not _ (reject_if-accept _ _ schema)));
      raws = raws;
      has_artifacts = value_of-get (codes "artifacts") ms (arr raws) is_array (λ e. cc);
      are_entries = read;
      known_language =
          not-not (listed language languages) (rw language_text at (reject_if-accept _ _ known));
      has_language = value_of-str (codes "language") ms language language_text;
      has_version = value_of-str (codes "version") ms version (
          is_text-str version (value_of (codes "version") ms)
            (not-not _ (reject_if-accept _ _ same_version)));
      some_artifacts = some_found;
      are_artifacts = all_found;
      unique = distinct-Unique (paths_of found) (not-not _ (reject_if-accept _ _ all_distinct));
      in_order = check_sorted-IsInOrder (paths_of found) (keyed (paths_of found)) refl in_order;
    })
parse_manifest-IsListing language version null artifacts h = cc
parse_manifest-IsListing language version _ artifacts h = cc
