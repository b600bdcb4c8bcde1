-- ===== src/Json/Dumps.antt =====
-- json.dumps with ensure_ascii=False, allow_nan=False and the separators "," and ":". The text of
-- a float is float.__repr__, an argument; no NaN and no infinity comes to it.
use cekat_event_sdk.Base.{
  ℕ, suc, ◌+◌, ◌/◌, ◌%◌, ℤ, pos, negsuc, Float, Text, Bool, true, false, [], ◌∷◌, ◌++◌, ltb, ◌==◌,
  if◌then◌else◌, codes, decimal,
}
use cekat_event_sdk.Json.{
  Json, null, bool, int, float, str, arr, obj, Items, nil, cons, Members, end, member,
}

unfoldable pub hex_digit : ℕ → ℕ
hex_digit d = if ltb d 10 then d + 48 else d + 87

unfoldable pub escape_char : ℕ → Text
unfolding hex_digit
escape_char c =
    if c == b'"'
    then codes "\\\""
    else if c == b'\\'
    then codes "\\\\"
    else if c == 10
    then codes "\\n"
    else if c == 13
    then codes "\\r"
    else if c == 9
    then codes "\\t"
    else if c == 12
    then codes "\\f"
    else if c == 8
    then codes "\\b"
    else if ltb c 32
    then codes "\\u00" ++ (hex_digit (c / 16) ∷ hex_digit (c % 16) ∷ [])
    else c ∷ []

unfoldable pub escape : Text → Text
unfolding escape_char
escape [] = []
escape (c ∷ t) = escape_char c ++ escape t

unfoldable pub quoted : Text → Text
unfolding escape
quoted t = b'"' ∷ (escape t ++ b'"' ∷ [])

unfoldable pub int_text : ℤ → Text
unfolding decimal
int_text (pos n) = decimal n
int_text (negsuc n) = b'-' ∷ decimal (suc n)

abbrev bool_text : Bool → Text
bool_text true = codes "true"
bool_text false = codes "false"

module _ (float_repr : Float → Text) where
  unfoldable mutual
    unfolding quoted int_text

    pub dumps : Json → Text
    dumps null = codes "null"
    dumps (bool b) = bool_text b
    dumps (int z) = int_text z
    dumps (float f) = float_repr f
    dumps (str t) = quoted t
    dumps (arr xs) = b'[' ∷ (dump_items xs ++ b']' ∷ [])
    dumps (obj ms) = b'{' ∷ (dump_members ms ++ b'}' ∷ [])

    pub dump_items : Items → Text
    dump_items nil = []
    dump_items (cons x nil) = dumps x
    dump_items (cons x (cons y xs)) = dumps x ++ (b',' ∷ dump_items (cons y xs))

    pub dump_members : Members → Text
    dump_members end = []
    dump_members (member k v end) = quoted k ++ (b':' ∷ dumps v)
    dump_members (member k v (member l w ms)) =
        quoted k ++ (b':' ∷ (dumps v ++ (b',' ∷ dump_members (member l w ms))))
