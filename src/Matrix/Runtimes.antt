-- ===== src/Matrix/Runtimes.antt =====
-- declared_runtime of scripts/validate-compatibility-matrix.py: the runtime floor that a package's
-- metadata declares. json.loads, and str() of a value that is no text, are parameters.
use cekat_event_sdk.Base.{
  ℕ, Text, Bool, true, ◌||◌, not, Option, none, some, [], ◌∷◌, ◌++◌, ◌==◌, if◌then◌else◌, codes,
  text_eq, is_space, partition,
}
use cekat_event_sdk.Json.{Json, null, str, obj, get}
use cekat_event_sdk.Protocol.{Loaded, document, malformed, too_deep}
use cekat_event_sdk.Verdicts.{reject, crash, accept, ◌>>=◌}
use cekat_event_sdk.Patterns.{
  Rest, literal, any_of, some_of, group_of, line_end, captured, search_in, search_lines,
  starts_with,
}
use cekat_event_sdk.Matrix.{unknown_kind, Checked, read_text}

abbrev is_no_quote : ℕ → Bool
is_no_quote c = not (c == b'"')

-- `^go\s+(\S+)\s*$`
unfoldable pub go_directive : Rest Text
unfolding literal some_of any_of group_of is_space
go_directive = literal (codes "go") (
    some_of is_space
      (group_of (λ c. not (is_space c)) (λ g. any_of is_space (line_end (captured g)))))

-- `^requires-python\s*=\s*"([^"]+)"`, and `<name>\s*=\s*"([^"]+)"` for a gemspec.
unfoldable pub assignment : (name : Text) → Rest Text
unfolding literal any_of group_of is_space
assignment name = literal name (
    any_of is_space (
      literal (codes "=") (
        any_of is_space
          (literal (codes "\"") (group_of is_no_quote (λ g. literal (codes "\"") (captured g)))))))

-- `<name>([^<$]+)</name>`
unfoldable pub element : (name : Text) → Rest Text
unfolding literal group_of
element name = literal (b'<' ∷ (name ++ b'>' ∷ [])) (
    group_of (λ c. not (c == b'<' || c == b'$'))
      (λ g. literal (b'<' ∷ b'/' ∷ (name ++ b'>' ∷ [])) (captured g)))

-- match.group(1) if match else ""
abbrev or_empty : Option Text → Text
or_empty none = []
or_empty (some g) = g

-- kind.split(":", 1)[1]
abbrev pub name_of : Text → Text
name_of kind = (partition b':' kind).after

-- str(value)
abbrev pub text_of : (str_of : Json → Text) → Json → Text
text_of str_of (str t) = t
text_of str_of null = str_of null
text_of str_of j = str_of j

module _ (loads : Text → Loaded) (str_of : Json → Text) where
  text_or_empty : Option Json → Text
  text_or_empty none = []
  text_or_empty (some j) = text_of str_of j

  -- What .get does on a value that json.loads returned.
  member_of : Text → Json → Checked Text
  unfolding get text_or_empty
  member_of name (obj members) = accept (text_or_empty (get name members))
  member_of name null = crash (codes "AttributeError")
  member_of name _ = crash (codes "AttributeError")

  -- A mapping that is not there counts as empty.
  section : Option Json → (name : Text) → Checked Text
  unfolding member_of
  section none name = accept []
  section (some j) name = member_of name j

  entry_of : (key : Text) → Json → (name : Text) → Checked Text
  unfolding section get
  entry_of key (obj members) name = section (get key members) name
  entry_of key null name = crash (codes "AttributeError")
  entry_of key _ name = crash (codes "AttributeError")

  -- str(json.loads(text).get(key, {}).get(name, ""))
  unfoldable pub loaded_entry : (key : Text) → Loaded → (name : Text) → Checked Text
  unfolding entry_of
  loaded_entry key (document j) name = entry_of key j name
  loaded_entry key malformed name = crash (codes "JSONDecodeError")
  loaded_entry key too_deep name = crash (codes "RecursionError")

  unfoldable pub runtime_in : Text → (kind : Text) → Checked Text
  unfolding go_directive assignment element loaded_entry search_in search_lines starts_with
      partition
  runtime_in text kind =
      if text_eq kind (codes "go-directive")
      then accept (or_empty (search_lines true go_directive text))
      else if starts_with (codes "npm-engine:") kind
      then loaded_entry (codes "engines") (loads text) (name_of kind)
      else if text_eq kind (codes "requires-python")
      then accept (or_empty (search_lines true (assignment (codes "requires-python")) text))
      else if starts_with (codes "composer-require:") kind
      then loaded_entry (codes "require") (loads text) (name_of kind)
      else if starts_with (codes "maven-property:") kind
      then accept (or_empty (search_in (element (name_of kind)) text))
      else if starts_with (codes "msbuild-property:") kind
      then accept (or_empty (search_in (element (name_of kind)) text))
      else if starts_with (codes "gemspec:") kind
      then accept (or_empty (search_in (assignment (name_of kind)) text))
      else reject (unknown_kind kind)

  -- declared_runtime
  unfoldable pub declared_runtime : (file : Option Text) → (kind : Text) → Checked Text
  unfolding runtime_in
  declared_runtime file kind = do text ← read_text file; runtime_in text kind
