-- ===== src/Matrix/Names.antt =====
-- The names in a list of objects of the matrix, as scripts/validate-compatibility-matrix.py compares
-- them: with the fixed lists, and with each other in a set, where numbers of any type are equal by
-- value and a list or a dict has no hash.
use cekat_event_sdk.Base.{
  suc, ◌*◌, ◌^◌, pos, negsuc, Float, Text, Bool, true, false, ◌&&◌, ◌||◌, not, Option, none, some,
  List, [], ◌∷◌, ◌==◌, codes, text_eq,
}
use cekat_event_sdk.Json.{Json, null, bool, int, float, str, arr, obj, Items, nil, cons, get}
use cekat_event_sdk.Verdicts.{crash, reject_if}
use cekat_event_sdk.Package.Listings.{is_text, value_of}
use cekat_event_sdk.Matrix.{repeated_names, Checked}

-- value.get(key) if isinstance(value, dict) else None
unfoldable pub got : (key : Text) → Json → Json
unfolding get
got key (obj members) = value_of key members
got key null = null
got key _ = null

-- [item.get(key) ...] == expected
unfoldable pub names_are : (key : Text) → Items → (expected : List Text) → Bool
unfolding got
names_are key nil [] = true
names_are key nil (t ∷ ts) = false
names_are key (cons item items) [] = false
names_are key (cons item items) (t ∷ ts) = is_text t (got key item) && names_are key items ts

abbrev pub same_float : Float → Float → Bool
same_float Float.nan y = false
same_float (Float.infinite s) Float.nan = false
same_float (Float.infinite true) (Float.infinite s) = s
same_float (Float.infinite false) (Float.infinite s) = not s
same_float (Float.infinite s) (Float.finite r m k) = false
same_float (Float.finite s n k) Float.nan = false
same_float (Float.finite s n k) (Float.infinite r) = false
same_float (Float.finite true n k) (Float.finite true m l) = n * 2 ^ l == m * 2 ^ k
same_float (Float.finite true n k) (Float.finite false m l) = n == 0 && m == 0
same_float (Float.finite false n k) (Float.finite true m l) = n == 0 && m == 0
same_float (Float.finite false n k) (Float.finite false m l) = n * 2 ^ l == m * 2 ^ k

-- A number, bool or text, and None, as values that can stand in a set.
pub data Hashed : Type 0 where
  nothing : Hashed
  number : Float → Hashed
  text : Text → Hashed

abbrev pub hashed : Json → Option Hashed
hashed null = some nothing
hashed (bool true) = some (number (Float.finite false 1 0))
hashed (bool false) = some (number (Float.finite false 0 0))
hashed (int (pos n)) = some (number (Float.finite false n 0))
hashed (int (negsuc n)) = some (number (Float.finite true (suc n) 0))
hashed (float x) = some (number x)
hashed (str t) = some (text t)
hashed (arr items) = none
hashed (obj members) = none

abbrev pub same_key : Hashed → Hashed → Bool
same_key nothing nothing = true
same_key nothing (number x) = false
same_key nothing (text t) = false
same_key (number x) nothing = false
same_key (number x) (number y) = same_float x y
same_key (number x) (text t) = false
same_key (text t) nothing = false
same_key (text t) (number x) = false
same_key (text t) (text u) = text_eq t u

unfoldable pub all_hashed : (key : Text) → Items → Option (List Hashed)
unfolding got
all_hashed key nil = some []
all_hashed key (cons item items) = elim (hashed (got key item)) [
  | none ↦ none
  | some h ↦ elim (all_hashed key items) [ none ↦ none | some hs ↦ some (h ∷ hs) ]
]

unfoldable pub is_among : Hashed → List Hashed → Bool
is_among h [] = false
is_among h (k ∷ ks) = same_key h k || is_among h ks

-- len(set(names)) != len(names)
unfoldable pub repeats : List Hashed → Bool
unfolding is_among
repeats [] = false
repeats (h ∷ hs) = is_among h hs || repeats hs

unfoldable pub check_names : (place : Text) → Option (List Hashed) → Checked (Unit {0})
unfolding repeats
check_names place none = crash (codes "TypeError")
check_names place (some hs) = reject_if (repeats hs) (repeated_names place)

-- value == 1 and not isinstance(value, bool)
abbrev pub equals_one : Json → Bool
equals_one (int (pos n)) = n == 1
equals_one (int (negsuc n)) = false
equals_one (float x) = same_float x (Float.finite false 1 0)
equals_one null = false
equals_one _ = false
