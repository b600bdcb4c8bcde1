-- ===== src/Package/Files.antt =====
-- _regular_files, validate_manifest and validate_all of scripts/validate-package-manifest.py over a
-- tree of files; os.walk meets the entries of a directory in the tree's order. SHA-256 and the
-- reading of a JSON document with the hooks of `_load` are parameters.
pub mod Aggregates
pub mod Plain
pub mod Releases
use cekat_event_sdk.Base.{
  ℕ, zero, suc, Text, Bool, true, false, ◌&&◌, ◌||◌, not, Option, none, some, List, [], ◌∷◌, ◌++◌,
  ◌==◌, if◌then◌else◌, codes, text_eq, split, length, map,
}
use cekat_event_sdk.Verdicts.{
  Verdict, reject, crash, accept, ◌>>=◌, ◌>>◌, reject_if, >>=-eq-accept, reject_if-accept,
}
use cekat_event_sdk.Json.{Json}
use cekat_event_sdk.Package.{
  ManifestError, not_named, not_there, not_regular, linked_output, symbolic_link, non_regular_file,
  missing_files, unlisted_files, other_size, other_hash, not_a_directory, language_directories,
  of_language, languages, manifest_name, Artifact, listed,
}
use cekat_event_sdk.Package.Listings.{parse_manifest, paths_of}

mutual
  pub data Entry : Type 0 where
    link : (to_directory : Bool) → Entry
    special : Entry
    regular : (bytes : List ℕ) → Entry
    directory : Entries → Entry

  pub data Entries : Type 0 where
    nothing : Entries
    entry : (name : Text) → Entry → Entries → Entries

-- entry.relative_to(output).as_posix(), below a directory that is given with a slash at its end.
abbrev below : Text → Text → Text
below prefix name = prefix ++ name

-- The entries that os.walk gives as subdirectories; a directory is no file.
abbrev check_subdirectory : Text → Entry → Verdict ManifestError (Unit {0})
check_subdirectory path (link true) = reject (symbolic_link path)
check_subdirectory path (link false) = accept tt
check_subdirectory path special = accept tt
check_subdirectory path (regular bytes) = accept tt
check_subdirectory path (directory es) = accept tt

unfoldable pub check_subdirectories : Text → Entries → Verdict ManifestError (Unit {0})
check_subdirectories prefix nothing = accept tt
check_subdirectories prefix (entry name e es) =
    check_subdirectory (below prefix name) e >> check_subdirectories prefix es

-- The other entries.
abbrev check_file : Text → Entry → Verdict ManifestError (List Text)
check_file path (link true) = accept []
check_file path (link false) = reject (symbolic_link path)
check_file path special = reject (non_regular_file path)
check_file path (regular bytes) = accept (path ∷ [])
check_file path (directory es) = accept []

unfoldable pub check_files : Text → Entries → Verdict ManifestError (List Text)
check_files prefix nothing = accept []
check_files prefix (entry name e es) = do
  here ← check_file (below prefix name) e
  rest ← check_files prefix es
  accept (here ++ rest)

-- os.walk goes into the subdirectories after it has given the directory itself.
unfoldable mutual
  unfolding check_subdirectories check_files

  pub walk_below : Text → Entries → Verdict ManifestError (List Text)
  walk_below prefix nothing = accept []
  walk_below prefix (entry name e es) = do
    inside ← walk_entry (below prefix name ++ b'/' ∷ []) e
    rest ← walk_below prefix es
    accept (inside ++ rest)

  pub walk_entry : Text → Entry → Verdict ManifestError (List Text)
  walk_entry prefix (directory es) = do
    check_subdirectories prefix es
    here ← check_files prefix es
    deeper ← walk_below prefix es
    accept (here ++ deeper)
  walk_entry prefix (link to_directory) = accept []
  walk_entry prefix special = accept []
  walk_entry prefix (regular bytes) = accept []

-- _regular_files
unfoldable pub regular_files : Entries → Verdict ManifestError (List Text)
unfolding walk_entry
regular_files es = walk_entry [] (directory es)

unfoldable pub lookup : Text → Entries → Option Entry
lookup name nothing = none
lookup name (entry n e es) = if text_eq n name then some e else lookup name es

-- The entry of a path below a directory, by the path's components.
unfoldable pub descend : List Text → Option Entry → Option Entry
unfolding lookup
descend [] o = o
descend (name ∷ names) none = none
descend (name ∷ names) (some (directory es)) = descend names (lookup name es)
descend (name ∷ names) (some (link to_directory)) = none
descend (name ∷ names) (some special) = none
descend (name ∷ names) (some (regular bytes)) = none

-- listed - present, and present - listed; the message sorts them.
unfoldable pub difference : List Text → List Text → List Text
difference [] us = []
difference (t ∷ ts) us = let rest = difference ts us in if listed t us then rest else t ∷ rest

abbrev is_nonempty : List Text → Bool
is_nonempty [] = false
is_nonempty (t ∷ ts) = true

manifest_bytes : Option Entry → Verdict ManifestError (List ℕ)
manifest_bytes none = reject not_there
manifest_bytes (some (regular bytes)) = accept bytes
manifest_bytes (some special) = reject not_regular
manifest_bytes (some _) = reject not_regular

module _ (sha256 : List ℕ → Text) (load : List ℕ → Verdict ManifestError Json) where
  -- The file of an artifact. The paths are those of regular files, so no other entry is met.
  check_content : Artifact → Option Entry → Verdict ManifestError (Unit {0})
  check_content a (some (regular bytes)) =
      reject_if (not (length bytes == a.size_bytes)) (other_size a.path (length bytes) a.size_bytes)
      >> reject_if (not (text_eq (sha256 bytes) a.sha256)) (other_hash a.path)
  check_content a (some special) = crash (codes "OSError")
  check_content a (some _) = crash (codes "OSError")
  check_content a none = crash (codes "FileNotFoundError")

  unfoldable pub check_contents : Entries → List Artifact → Verdict ManifestError (Unit {0})
  unfolding check_content descend
  check_contents es [] = accept tt
  check_contents es (a ∷ more) =
      check_content a (descend (split b'/' a.path) (some (directory es))) >> check_contents es more

  unfoldable pub validate_manifest :
      (name : Text) (output_is_link : Bool)
      → Entries
      → (language version : Text) → Verdict ManifestError (List Artifact)
  unfolding manifest_bytes lookup regular_files parse_manifest difference check_contents
  validate_manifest name output_is_link es language version = do
    reject_if (not (text_eq name manifest_name)) not_named
    bytes ← manifest_bytes (lookup name es)
    reject_if output_is_link linked_output
    document ← load bytes
    artifacts ← parse_manifest language version document
    files ← regular_files es
    let present = difference files (manifest_name ∷ [])
    let missing = difference (paths_of artifacts) present
    let unlisted = difference present (paths_of artifacts)
    reject_if (is_nonempty missing) (missing_files missing)
    reject_if (is_nonempty unlisted) (unlisted_files unlisted)
    check_contents es artifacts
    accept artifacts

  output_of : Option Entry → Verdict ManifestError Entries
  output_of (some (directory es)) = accept es
  output_of (some special) = reject not_a_directory
  output_of (some _) = reject not_a_directory
  output_of none = reject language_directories

  -- `raise ManifestError(f"{language}: {error}")`
  in_language : {A : Type 0} → Text → Verdict ManifestError A → Verdict ManifestError A
  in_language language (reject e) = reject (of_language language e)
  in_language language (crash name) = crash name
  in_language language (accept a) = accept a

  unfoldable pub validate_languages :
      (version : Text) → Entries → List Text → Verdict ManifestError (List (Text × List Artifact))
  unfolding output_of lookup in_language validate_manifest
  validate_languages version es [] = accept []
  validate_languages version es (language ∷ rest) = do
    output ← output_of (lookup language es)
    artifacts ← in_language language (validate_manifest manifest_name false output language version)
    results ← validate_languages version es rest
    accept ((language, artifacts) ∷ results)

  unfoldable pub names_of : Entries → List Text
  names_of nothing = []
  names_of (entry name e es) = name ∷ names_of es

  validate_directory :
      (version : Text) → Entries → Verdict ManifestError (List (Text × List Artifact))
  unfolding names_of validate_languages difference
  validate_directory version es =
      reject_if
        (is_nonempty (difference (names_of es) languages)
          || is_nonempty (difference languages (names_of es)))
        language_directories
      >> validate_languages version es languages

  unfoldable pub validate_all :
      (version : Text) → Entry → Verdict ManifestError (List (Text × List Artifact))
  unfolding validate_directory
  validate_all version (directory es) = validate_directory version es
  validate_all version (link to_directory) = reject not_a_directory
  validate_all version special = reject not_a_directory
  validate_all version (regular bytes) = reject not_a_directory
