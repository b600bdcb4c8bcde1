-- ===== src/Package/Files/Plain.antt =====
-- What a tree of files that _regular_files accepts holds.
use cekat_event_sdk.Base.{◌≡◌, refl, Text, true, false, List, [], ◌∷◌, ◌++◌}
use cekat_event_sdk.Verdicts.{accept, >>=-eq-accept}
use cekat_event_sdk.Package.Files.{
  Entry, link, special, regular, directory, Entries, nothing, entry, below, check_subdirectory,
  check_subdirectories, check_file, check_files, walk_below, walk_entry, regular_files,
}

-- No symbolic link and no special file stands in the tree, at any depth.
abbrev mutual
  pub IsPlain : Entry → Type 0
  IsPlain (link to_directory) = ⊥
  IsPlain special = ⊥
  IsPlain (regular bytes) = Unit
  IsPlain (directory es) = ArePlain es

  pub ArePlain : Entries → Type 0
  ArePlain nothing = Unit
  ArePlain (entry name e es) = IsPlain e × ArePlain es

mutual
  unfolding check_subdirectories check_files walk_below

  entries-ArePlain :
      (prefix : Text) (es : Entries) (fs gs : List Text)
      → check_subdirectories prefix es ≡ accept tt
      → check_files prefix es ≡ accept fs
      → walk_below prefix es ≡ accept gs
      → ArePlain es
  entries-ArePlain prefix nothing fs gs h k w = tt
  entries-ArePlain prefix (entry name e es) fs gs h k w =
      let (_, h1, h2) = >>=-eq-accept (check_subdirectory (below prefix name) e) _ h in
      let (here, k1, k2) = >>=-eq-accept (check_file (below prefix name) e) _ k in
      let (rest, k3, _) = >>=-eq-accept (check_files prefix es) _ k2 in
      let (inside, w1, w2) = >>=-eq-accept (walk_entry (below prefix name ++ b'/' ∷ []) e) _ w in
      let (more, w3, _) = >>=-eq-accept (walk_below prefix es) _ w2 in
      (
        entry-IsPlain (below prefix name ++ b'/' ∷ []) (below prefix name) e here inside h1 k1 w1,
        entries-ArePlain prefix es rest more h2 k3 w3,
      )

  entry-IsPlain :
      (prefix path : Text) (e : Entry) (fs gs : List Text)
      → check_subdirectory path e ≡ accept tt
      → check_file path e ≡ accept fs
      → walk_entry prefix e ≡ accept gs
      → IsPlain e
  entry-IsPlain prefix path (link true) fs gs h k w = cc
  entry-IsPlain prefix path (link false) fs gs h k w = cc
  entry-IsPlain prefix path special fs gs h k w = cc
  entry-IsPlain prefix path (regular bytes) fs gs h k w = tt
  entry-IsPlain prefix path (directory es) fs gs h k w =
      let (_, h1, w1) = >>=-eq-accept (check_subdirectories prefix es) _ w in
      let (here, k1, w2) = >>=-eq-accept (check_files prefix es) _ w1 in
      let (deeper, d, _) = >>=-eq-accept (walk_below prefix es) _ w2 in
      entries-ArePlain prefix es here deeper h1 k1 d

-- Where the regular files of a directory are accepted, no symbolic link and no special file stands
-- below it at any depth.
pub regular_files-ArePlain :
    (es : Entries) (files : List Text) → regular_files es ≡ accept files → ArePlain es
unfolding regular_files
regular_files-ArePlain es files h = entry-IsPlain [] [] (directory es) [] files refl refl h
