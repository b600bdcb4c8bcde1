-- ===== src/Base/Texts.antt =====
-- Python's `str` and `bytes` as lists of numbers: a `str` may hold a lone surrogate, as in Python.
use Prim.Native.Nat.{ℕ, zero, suc, ◌+◌, ◌/◌, ◌%◌}
use Prim.Native.Char.{code}
use Prim.Native.String.{String}
use mathlib.Core.Path.{◌≡◌, refl, ap, ◌∙◌}
use mathlib.Core.Logic.{◌↔◌, inl, inr}
use mathlib.Core.Bool.{Bool, true, false, not, ◌&&◌, ◌||◌}
use mathlib.Core.Option.{Option, none, some}
use mathlib.Core.List.{List, [], ◌∷◌, ◌++◌, map}
use native.Mathlib.Omega.{arith}
use cekat_event_sdk.Base.Tests.{ltb, leb, ◌==◌, if◌then◌else◌, Bool-cases}

abbrev pub Text : Type 0
Text = List ℕ

-- The code points of a literal.
abbrev pub codes : String → Text
codes String.[] = []
codes (String.◌∷◌ c s) = code c ∷ codes s

abbrev pub text_eq : Text → Text → Bool
text_eq [] [] = true
text_eq [] (_ ∷ _) = false
text_eq (_ ∷ _) [] = false
text_eq (a ∷ s) (b ∷ t) = a == b && text_eq s t

pub text_eq_sound : (s t : Text) → text_eq s t ≡ true → s ≡ t
text_eq_sound [] [] h = refl
text_eq_sound [] (b ∷ t) h = cc
text_eq_sound (a ∷ s) [] h = cc
text_eq_sound (a ∷ s) (b ∷ t) h = ground (arith, text_eq_sound s t)

pub text_eq_refl : (s : Text) → text_eq s s ≡ true
text_eq_refl [] = refl
text_eq_refl (a ∷ s) = ground (arith, text_eq_refl s)

pub text_eq_iff : (s t : Text) → (text_eq s t ≡ true) ↔ (s ≡ t)
text_eq_iff s t = (text_eq_sound s t, λ e. rw e (text_eq_refl t))

abbrev pub is_empty : Text → Bool
is_empty [] = true
is_empty (_ ∷ _) = false

-- `text or None`
abbrev pub nonempty : Text → Option Text
nonempty [] = none
nonempty (c ∷ t) = some (c ∷ t)

abbrev pub between : ℕ → ℕ → ℕ → Bool
between lo hi c = leb lo c && leb c hi

-- str.isspace on one character: Unicode white space, and the separators U+001C to U+001F.
unfoldable pub is_space : ℕ → Bool
is_space c =
    between 9 13 c
    || between 28 32 c
    || c == 0x85
    || c == 0xA0
    || c == 0x1680
    || between 0x2000 0x200A c
    || between 0x2028 0x2029 c
    || c == 0x202F
    || c == 0x205F
    || c == 0x3000

unfoldable pub lstrip : Text → Text
lstrip [] = []
lstrip (c ∷ t) = if is_space c then lstrip t else c ∷ t

rstrip_cons : ℕ → Text → Text
rstrip_cons c [] = if is_space c then [] else c ∷ []
rstrip_cons c (d ∷ t) = c ∷ d ∷ t

rstrip : Text → Text
rstrip [] = []
rstrip (c ∷ t) = rstrip_cons c (rstrip t)

-- str.strip
unfoldable pub strip : Text → Text
unfolding lstrip rstrip rstrip_cons is_space
strip t = rstrip (lstrip t)

-- str.lower. Upper-case ASCII letters and U+212A (the Kelvin sign, to `k`) are mapped, every other
-- character stays.
unfoldable pub lower_char : ℕ → ℕ
lower_char c = if between b'A' b'Z' c then c + 32 else if c == 0x212A then b'k' else c

unfoldable pub lower : Text → Text
unfolding lower_char
lower t = map lower_char t

-- str.partition by one character: what stands before it, whether it is there, what stands after it.
pub record Partition : Type 0 where
  pub before : Text
  pub found : Bool
  pub after : Text

unfoldable pub partition : ℕ → Text → Partition
partition sep [] = record { before = []; found = false; after = [] }
partition sep (c ∷ t) =
    if c == sep
    then record { before = []; found = true; after = t }
    else let p = partition sep t in
      record { before = c ∷ p.before; found = p.found; after = p.after }

abbrev pub cons_first : ℕ → List Text → List Text
cons_first c [] = (c ∷ []) ∷ []
cons_first c (t ∷ ts) = (c ∷ t) ∷ ts

-- str.split by one character.
unfoldable pub split : ℕ → Text → List Text
split sep [] = [] ∷ []
split sep (c ∷ t) = let rest = split sep t in if c == sep then [] ∷ rest else cons_first c rest

unfoldable pub decimal_from : ℕ → ℕ → Text
decimal_from zero n = []
decimal_from (suc fuel) n =
    let more = decimal_from fuel (n / 10) in
    if ltb n 10 then (n + 48) ∷ [] else more ++ (n % 10 + 48) ∷ []

-- str of a natural number; one digit is written for each round, so n + 1 rounds are enough.
unfoldable pub decimal : ℕ → Text
unfolding decimal_from
decimal n = decimal_from (suc n) n

-- A code point that UTF-8 encodes: no surrogate.
abbrev pub is_scalar : ℕ → Bool
is_scalar c = leb c 0x10FFFF && not (between 0xD800 0xDFFF c)

-- value.encode("utf-8") succeeds
abbrev pub is_unicode : Text → Bool
is_unicode [] = true
is_unicode (c ∷ t) = is_scalar c && is_unicode t

encode_char : ℕ → List ℕ
encode_char c =
    if ltb c 0x80
    then c ∷ []
    else if ltb c 0x800
    then (0xC0 + c / 64) ∷ (0x80 + c % 64) ∷ []
    else if ltb c 0x10000
    then (0xE0 + c / 4096) ∷ (0x80 + c / 64 % 64) ∷ (0x80 + c % 64) ∷ []
    else (0xF0 + c / 262144) ∷ (0x80 + c / 4096 % 64) ∷ (0x80 + c / 64 % 64) ∷ (0x80 + c % 64) ∷ []

encode_from : Text → List ℕ
encode_from [] = []
encode_from (c ∷ t) = encode_char c ++ encode_from t

-- str.encode("utf-8"); `none` is UnicodeEncodeError.
unfoldable pub encode : Text → Option (List ℕ)
unfolding encode_from encode_char
encode t = if is_unicode t then some (encode_from t) else none

-- What `strip` gives, described without running it: no space at either end.
abbrev StartsClean : Text → Type 0
StartsClean [] = Unit
StartsClean (c ∷ t) = is_space c ≡ false

lstrip-StartsClean : (t : Text) → StartsClean (lstrip t)
unfolding lstrip
lstrip-StartsClean [] = tt
lstrip-StartsClean (c ∷ t) = elim (Bool-cases (is_space c)) [
  | inl e ↦ rw e (lstrip-StartsClean t)
  | inr e ↦ rw e e
]

lstrip_of_StartsClean : (t : Text) → StartsClean t → lstrip t ≡ t
unfolding lstrip
lstrip_of_StartsClean [] h = refl
lstrip_of_StartsClean (c ∷ t) h = rw h

rstrip-StartsClean : (t : Text) → StartsClean t → StartsClean (rstrip t)
unfolding rstrip rstrip_cons
rstrip-StartsClean [] h = tt
rstrip-StartsClean (c ∷ t) h = go (rstrip t)
  where
    go : (r : Text) → StartsClean (rstrip_cons c r)
    go [] = rw h h
    go (d ∷ r) = h

rstrip_cons-rstrip : (c : ℕ) (r : Text) → rstrip r ≡ r → rstrip (rstrip_cons c r) ≡ rstrip_cons c r
unfolding rstrip rstrip_cons
rstrip_cons-rstrip c [] h = elim (Bool-cases (is_space c)) [ inl e ↦ rw e | inr e ↦ rw (e, e) ]
rstrip_cons-rstrip c (d ∷ r) h = rw h

rstrip_idempotent : (t : Text) → rstrip (rstrip t) ≡ rstrip t
unfolding rstrip
rstrip_idempotent [] = refl
rstrip_idempotent (c ∷ t) = rstrip_cons-rstrip c (rstrip t) (rstrip_idempotent t)

pub strip_idempotent : (t : Text) → strip (strip t) ≡ strip t
unfolding strip
strip_idempotent t =
    ap rstrip (
      lstrip_of_StartsClean (rstrip (lstrip t))
        (rstrip-StartsClean (lstrip t) (lstrip-StartsClean t)))
    ∙ rstrip_idempotent (lstrip t)

-- No character of the text is white space.
abbrev pub HasNoSpace : Text → Type 0
HasNoSpace [] = Unit
HasNoSpace (c ∷ t) = (is_space c ≡ false) × HasNoSpace t

rstrip_of_HasNoSpace : (t : Text) → HasNoSpace t → rstrip t ≡ t
unfolding rstrip
rstrip_of_HasNoSpace [] h = refl
rstrip_of_HasNoSpace (c ∷ t) (h, hs) = rw (rstrip_of_HasNoSpace t hs) (go t)
  where
    go : (t : Text) → rstrip_cons c t ≡ c ∷ t
    go [] = unfold rstrip_cons in rw h
    go (d ∷ r) = unfold rstrip_cons in refl

pub strip_of_HasNoSpace : (t : Text) → HasNoSpace t → strip t ≡ t
unfolding strip
strip_of_HasNoSpace [] h = refl
strip_of_HasNoSpace (c ∷ t) h =
    ap rstrip (lstrip_of_StartsClean (c ∷ t) h.0) ∙ rstrip_of_HasNoSpace (c ∷ t) h
