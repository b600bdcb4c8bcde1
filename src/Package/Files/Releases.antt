-- ===== src/Package/Files/Releases.antt =====
-- What an output directory that is accepted holds.
use mathlib.Core.Path.{subst}
use cekat_event_sdk.Base.{
  ℕ, ◌≡◌, ap, refl, Text, Bool, true, false, ◌||◌, not, Option, none, some, List, [], ◌∷◌, ◌==◌,
  ==_iff, text_eq, text_eq_iff, split, length, arith, Bool-cases, inl, inr, All,
}
use cekat_event_sdk.Verdicts.{Verdict, accept, reject_if, >>=-eq-accept, reject_if-accept}
use cekat_event_sdk.Json.{Json}
use cekat_event_sdk.Package.{manifest_name, Artifact, listed, ManifestError}
use cekat_event_sdk.Package.Listings.{parse_manifest, paths_of}
use cekat_event_sdk.Package.Listings.Parsed.{IsListing, parse_manifest-IsListing, same_list}
use cekat_event_sdk.Package.Listings.Ordered.{not-not}
use cekat_event_sdk.Package.Files.{
  Entry, special, regular, directory, Entries, regular_files, lookup, descend, difference,
  is_nonempty, manifest_bytes, check_content, check_contents, validate_manifest,
}

-- Every text of the first list stands in the second.
abbrev pub AreListed : List Text → List Text → Type 0
AreListed ts us = All (λ t. listed t us ≡ true) ts

no_difference : (ts us : List Text) → is_nonempty (difference ts us) ≡ false → AreListed ts us
unfolding difference
no_difference [] us h = tt
no_difference (t ∷ ts) us h = elim (Bool-cases (listed t us)) [
  | inl there ↦ (there, no_difference ts us (rw there at h))
  | inr missing ↦ absurd (let h' : true ≡ false = rw missing at h in cc)
]

module _ (sha256 : List ℕ → Text) (load : List ℕ → Verdict ManifestError Json) where
  -- The file of an artifact has its size and its hash.
  pub record IsReleased (es : Entries) (a : Artifact) : Type 0 where
    pub bytes : List ℕ
    pub there : descend (split b'/' a.path) (some (directory es)) ≡ some (regular bytes)
    pub size : length bytes ≡ a.size_bytes
    pub hash : sha256 bytes ≡ a.sha256

  check_content-IsReleased :
      (es : Entries) (a : Artifact) (o : Option Entry)
      → descend (split b'/' a.path) (some (directory es)) ≡ o
      → check_content sha256 load a o ≡ accept tt
      → IsReleased es a
  unfolding check_content
  check_content-IsReleased es a (some (regular bytes)) e h =
      let (_, size, hash) = >>=-eq-accept (reject_if (not (length bytes == a.size_bytes)) _) _ h in
      record {
        bytes = bytes;
        there = e;
        size = (==_iff (length bytes) a.size_bytes).0 (not-not _ (reject_if-accept _ _ size));
        hash = (text_eq_iff (sha256 bytes) a.sha256).0 (not-not _ (reject_if-accept _ _ hash));
      }
  check_content-IsReleased es a (some special) e h = cc
  check_content-IsReleased es a (some _) e h = cc
  check_content-IsReleased es a none e h = cc

  check_contents-All :
      (es : Entries) (xs : List Artifact)
      → check_contents sha256 load es xs ≡ accept tt
      → All (IsReleased es) xs
  unfolding check_contents
  check_contents-All es [] h = tt
  check_contents-All es (a ∷ xs) h =
      let found = descend (split b'/' a.path) (some (directory es)) in
      let (_, h1, h2) = >>=-eq-accept (check_content sha256 load a found) _ h in
      (check_content-IsReleased es a found refl h1, check_contents-All es xs h2)

  -- An output directory that is accepted, and the artifacts of its manifest.
  pub record IsRelease (es : Entries) (language version : Text) (artifacts : List Artifact)
      : Type 0 where
    pub manifest : List ℕ
    pub document : Json
    pub has_manifest : lookup manifest_name es ≡ some (regular manifest)
    pub loaded : load manifest ≡ accept document
    pub files : List Text
    pub is_listing : IsListing language version document artifacts
    pub are_files : regular_files es ≡ accept files
    pub listed_files : AreListed (paths_of artifacts) files
    pub no_other_file : AreListed files (manifest_name ∷ paths_of artifacts)
    pub are_released : All (IsReleased es) artifacts

listed-difference :
    (t : Text) (fs us : List Text) → listed t (difference fs us) ≡ true → listed t fs ≡ true
unfolding listed difference
listed-difference t [] us h = h
listed-difference t (f ∷ fs) us h = elim (Bool-cases (listed f us)) [
  | inl dropped ↦ let later = listed-difference t fs us (rw dropped at h) in ground arith
  | inr kept ↦
      let h' : text_eq f t || listed t (difference fs us) ≡ true = rw kept at h in
      elim (Bool-cases (text_eq f t)) [
        | inl same ↦ ground arith
        | inr other ↦ let later = listed-difference t fs us (rw other at h') in ground arith
      ]
]

AreListed-difference : (ts fs us : List Text) → AreListed ts (difference fs us) → AreListed ts fs
AreListed-difference [] fs us h = tt
AreListed-difference (t ∷ ts) fs us (h, hs) =
    (listed-difference t fs us h, AreListed-difference ts fs us hs)

manifest_bytes-regular :
    (o : Option Entry) (bytes : List ℕ) → manifest_bytes o ≡ accept bytes → o ≡ some (regular bytes)
unfolding manifest_bytes
manifest_bytes-regular (some (regular found)) bytes h =
    let same : found ≡ bytes = cc in ap (λ b. some (regular b)) same
manifest_bytes-regular (some special) bytes h = cc
manifest_bytes-regular (some _) bytes h = cc
manifest_bytes-regular none bytes h = cc

-- A file that is left out is the manifest.
difference-AreListed :
    (fs ps : List Text)
    → AreListed (difference fs (manifest_name ∷ [])) ps
    → AreListed fs (manifest_name ∷ ps)
unfolding difference listed
difference-AreListed [] ps h = tt
difference-AreListed (f ∷ fs) ps h = elim (Bool-cases (listed f (manifest_name ∷ []))) [
  | inl dropped ↦ (ground arith, difference-AreListed fs ps (rw dropped at h))
  | inr kept ↦
      let (here, rest) = split_kept (rw kept at h) in
      (ground arith, difference-AreListed fs ps rest)
]
  where
    split_kept :
        AreListed (f ∷ difference fs (manifest_name ∷ [])) ps
        → (listed f ps ≡ true) × AreListed (difference fs (manifest_name ∷ [])) ps
    split_kept k = k

module _ (sha256 : List ℕ → Text) (load : List ℕ → Verdict ManifestError Json) where
  -- A manifest that is accepted stands in its directory, and its document is a listing of the
  -- language and the version; the regular files of the directory, at any depth, are the manifest
  -- and the listed paths, and each listed path is one of them; the artifacts are those of the
  -- document's array, with the paths, hashes and sizes that it gives; and the file of each artifact
  -- has that size and that hash.
  pub validate_manifest-IsRelease :
      (name : Text) (output_is_link : Bool) (es : Entries) (language version : Text)
      (artifacts : List Artifact)
      → validate_manifest sha256 load name output_is_link es language version ≡ accept artifacts
      → IsRelease sha256 load es language version artifacts
  unfolding validate_manifest
  validate_manifest-IsRelease name output_is_link es language version artifacts h =
      let (_, named, h1) = >>=-eq-accept (reject_if (not (text_eq name manifest_name)) _) _ h in
      let (bytes, bytes_ok, h2) = >>=-eq-accept (manifest_bytes (lookup name es)) _ h1 in
      let (_, _, h3) = >>=-eq-accept (reject_if output_is_link _) _ h2 in
      let (document, loaded, h4) = >>=-eq-accept (load bytes) _ h3 in
      let (found, listing, h5) = >>=-eq-accept (parse_manifest language version document) _ h4 in
      let (files, walked, h6) = >>=-eq-accept (regular_files es) _ h5 in
      let present = difference files (manifest_name ∷ []) in
      let (_, no_missing, h7) =
        >>=-eq-accept (reject_if (is_nonempty (difference (paths_of found) present)) _) _ h6 in
      let (_, no_unlisted, h8) =
        >>=-eq-accept (reject_if (is_nonempty (difference present (paths_of found))) _) _ h7 in
      let (_, contents, h9) = >>=-eq-accept (check_contents sha256 load es found) _ h8 in
      subst (IsRelease sha256 load es language version) (same_list found artifacts h9) (record {
        manifest = bytes;
        document = document;
        has_manifest =
            subst (λ n. lookup n es ≡ some (regular bytes))
              ((text_eq_iff name manifest_name).0 (not-not _ (reject_if-accept _ _ named)))
              (manifest_bytes-regular (lookup name es) bytes bytes_ok);
        loaded = loaded;
        files = files;
        is_listing = parse_manifest-IsListing language version document found listing;
        are_files = walked;
        listed_files =
            AreListed-difference (paths_of found) files (manifest_name ∷ [])
              (no_difference (paths_of found) present (reject_if-accept _ _ no_missing));
        no_other_file =
            difference-AreListed files (paths_of found)
              (no_difference present (paths_of found) (reject_if-accept _ _ no_unlisted));
        are_released = check_contents-All sha256 load es found contents;
      })
