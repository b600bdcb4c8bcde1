-- ===== src/Validation/Origin.antt =====
-- normalize_origin of python/src/cekat_event_sdk/validation.py, with what it uses of
-- urllib.parse.urlsplit. The text that is split holds no white space, `?` or `#`.
pub mod Splits
pub mod Accepted
use cekat_event_sdk.Base.{
  ℕ, Text, Bool, true, false, ◌&&◌, ◌||◌, not, Option, none, some, [], ◌∷◌, ◌++◌, leb, ltb, ◌==◌,
  if◌then◌else◌, between, codes, text_eq, is_empty, lower, partition, Partition, decimal,
}
use cekat_event_sdk.Errors.{Reason, Error, Result, ok, raise}
use cekat_event_sdk.Objects.{Value, str, null}
use cekat_event_sdk.Retry.{all_digits, number_from}

abbrev pub contains : ℕ → Text → Bool
contains c [] = false
contains c (d ∷ t) = d == c || contains c t

-- any(character in base_url for character in "?# \t\r\n")
abbrev is_forbidden : ℕ → Bool
is_forbidden c = c == b'?' || c == b'#' || c == 32 || c == 9 || c == 13 || c == 10

unfoldable pub has_forbidden : Text → Bool
has_forbidden [] = false
has_forbidden (c ∷ t) = is_forbidden c || has_forbidden t

abbrev is_letter : ℕ → Bool
is_letter c = between b'A' b'Z' c || between b'a' b'z' c

-- scheme_chars
abbrev is_scheme_char : ℕ → Bool
is_scheme_char c = is_letter c || between b'0' b'9' c || c == b'+' || c == b'-' || c == b'.'

all_scheme_chars : Text → Bool
all_scheme_chars [] = true
all_scheme_chars (c ∷ t) = is_scheme_char c && all_scheme_chars t

starts_with_letter : Text → Bool
starts_with_letter [] = false
starts_with_letter (c ∷ t) = is_letter c

pub record SplitResult : Type 0 where
  pub scheme : Text
  pub netloc : Text
  pub path : Text

-- The characters up to the first `/`, and the rest from it on.
split_netloc : Text → Text × Text
split_netloc [] = ([], [])
split_netloc (c ∷ t) =
    let (netloc, rest) = split_netloc t in if c == b'/' then ([], c ∷ t) else (c ∷ netloc, rest)

-- Leading control characters are removed: WHATWG C0 control or space.
lstrip_controls : Text → Text
lstrip_controls [] = []
lstrip_controls (c ∷ t) = let rest = lstrip_controls t in if leb c 32 then rest else c ∷ t

split_scheme : Text → Text × Text
unfolding starts_with_letter all_scheme_chars
split_scheme url =
    let p = partition b':' url in
    if p.found && starts_with_letter url && all_scheme_chars p.before
    then (lower p.before, p.after)
    else ([], url)

-- What stands after `//`.
after_slashes : Text → Option Text
after_slashes [] = none
after_slashes (c ∷ []) = none
after_slashes (c ∷ d ∷ t) = if c == b'/' && d == b'/' then some t else none

located : Option Text → Text → Text → SplitResult
located none scheme url = record { scheme = scheme; netloc = []; path = url }
located (some rest) scheme url =
    let (netloc, path) = split_netloc rest in
    record { scheme = scheme; netloc = netloc; path = path }

unfoldable pub split_url : Text → SplitResult
unfolding lstrip_controls split_scheme after_slashes located split_netloc
split_url base_url =
    let (scheme, url) = split_scheme (lstrip_controls base_url) in
    located (after_slashes url) scheme url

-- str.rpartition("@"): what stands before the last one, whether there is one, what stands after.
extend_before : ℕ → Partition → Text → Partition
extend_before c p t =
    if p.found
    then record p { before = c ∷ p.before }
    else record { before = []; found = c == b'@'; after = if c == b'@' then t else c ∷ t }

unfoldable pub rpartition_at : Text → Partition
unfolding extend_before
rpartition_at [] = record { before = []; found = false; after = [] }
rpartition_at (c ∷ t) = extend_before c (rpartition_at t) t

abbrev some_unless_empty : Text → Option Text
some_unless_empty [] = none
some_unless_empty (c ∷ t) = some (c ∷ t)

-- _hostinfo: the host, and the port if one is written.
unfoldable pub host_info : Text → Text × Option Text
host_info host_port =
    let open_bracket = partition b'[' host_port in
    if open_bracket.found
    then (let closed = partition b']' open_bracket.after in
        (closed.before, some_unless_empty (partition b':' closed.after).after))
    else (let p = partition b':' host_port in (p.before, some_unless_empty p.after))

abbrev is_ascii : Text → Bool
is_ascii [] = true
is_ascii (c ∷ t) = ltb c 128 && is_ascii t

pub data Port : Type 0 where
  absent : Port
  number : ℕ → Port
  refused : Port

read_port : Option Text → Port
read_port none = absent
read_port (some t) =
    if all_digits t && leb (number_from 0 t) 65535 then number (number_from 0 t) else refused

abbrev port_suffix : Port → Text
port_suffix absent = []
port_suffix (number n) = b':' ∷ decimal n
port_suffix refused = []

abbrev is_refused : Port → Bool
is_refused refused = true
is_refused _ = false

abbrev invalid : Result Text
invalid = raise (Error.validation Reason.base_url)

-- `lower_any` is str.lower of a text that is not all ASCII, which follows Unicode's tables and looks
-- at the letters around a sigma.
module _ (lower_any : Text → Text) where
  abbrev lowered : Text → Text
  lowered t = if is_ascii t then lower t else lower_any t

  -- The hostname, whose zone behind `%` keeps its case.
  unfoldable pub lower_host : Text → Text
  lower_host host =
      let p = partition b'%' host in
      lowered p.before ++ (if p.found then b'%' ∷ p.after else p.after)

abbrev host_of : SplitResult → Text
host_of parts = (host_info (rpartition_at parts.netloc).after).0

abbrev port_of : SplitResult → Port
port_of parts = read_port (host_info (rpartition_at parts.netloc).after).1

abbrev lacks_http_host : SplitResult → Bool
lacks_http_host parts =
    not
      (text_eq (lower parts.scheme) (codes "http") || text_eq (lower parts.scheme) (codes "https"))
    || is_empty (host_of parts)

-- Credentials, or a path.
abbrev has_more : SplitResult → Bool
has_more parts =
    (rpartition_at parts.netloc).found
    || not (is_empty parts.path || text_eq parts.path (codes "/"))

-- `bracketed_netloc_ok` stands for the address check of a netloc in brackets, and `nfkc_ok` for the
-- check of a netloc's normal form, which raise ValueError in urlsplit.
module _ (lower_any : Text → Text) (bracketed_netloc_ok nfkc_ok : Text → Bool) where
  abbrev brackets_ok : Text → Bool
  brackets_ok netloc =
      if contains b'[' netloc
      then contains b']' netloc && bracketed_netloc_ok netloc
      else not (contains b']' netloc)

  -- urlsplit or parts.port raises ValueError.
  abbrev is_malformed : SplitResult → Bool
  is_malformed parts =
      not (brackets_ok parts.netloc && nfkc_ok parts.netloc) || is_refused (port_of parts)

  -- f"{scheme}://{host}{port}"
  abbrev printed : SplitResult → Text
  printed parts =
      let name = lowered lower_any (lower_host lower_any (host_of parts)) in
      lower parts.scheme
      ++ (codes "://"
          ++ ((if contains b':' name then b'[' ∷ (name ++ b']' ∷ []) else name)
              ++ port_suffix (port_of parts)))

  origin : SplitResult → Result Text
  unfolding rpartition_at host_info lower_host read_port
  origin parts =
      if is_malformed parts
      then invalid
      else if lacks_http_host parts
      then invalid
      else if has_more parts
      then invalid
      else ok (printed parts)

  unfoldable pub normalize_origin : Value → Result Text
  unfolding origin split_url
  normalize_origin (str base_url) =
      if has_forbidden base_url then invalid else origin (split_url base_url)
  normalize_origin null = invalid
  normalize_origin _ = invalid
