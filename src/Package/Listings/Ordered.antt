-- ===== src/Package/Listings/Ordered.antt =====
-- When the paths of a manifest are in order.
use mathlib.Core.Path.{subst}
use cekat_event_sdk.Base.{
  ◌≡◌, refl, ap, ◌∙◌, Text, Bool, true, false, not, Option, none, some, List, [], ◌∷◌, text_eq_iff,
  encode, arith, Option-cases, inl, inr, All,
}
use cekat_event_sdk.Verdicts.{accept, reject_if-accept}
use cekat_event_sdk.Package.Sorting.{Keyed, sort, Ascending, sort-Ascending, sort-All}
use cekat_event_sdk.Package.Listings.{keyed, same_texts, texts_of, check_sorted}

-- The list is in the order of its UTF-8 bytes.
pub record IsInOrder (paths : List Text) : Type 0 where
  pub keys : List Keyed
  pub encoded : keyed paths ≡ some keys
  pub ascending : Ascending keys

pub not-not : (b : Bool) → not b ≡ false → b ≡ true
not-not true e = refl
not-not false e = cc

-- The texts with their own keys.
abbrev pub IsKeyed : Keyed → Type 0
IsKeyed x = encode x.1 ≡ some x.0

pub same_keys : (xs ys : List Keyed) → some xs ≡ some ys → xs ≡ ys
same_keys xs ys e = cc

pub keyed-IsKeyed : (ts : List Text) (xs : List Keyed) → keyed ts ≡ some xs → All IsKeyed xs
unfolding keyed
keyed-IsKeyed [] xs h = subst (All IsKeyed) (same_keys [] xs h) tt
keyed-IsKeyed (t ∷ ts) xs h = elim (Option-cases (encode t)) [
  | inl none_t ↦ absurd (let h' : none ≡ some xs = rw (none_t, keyed) at h in cc)
  | inr (bytes, e) ↦ elim (Option-cases (keyed ts)) [
    | inl none_ts ↦ absurd (let h' : none ≡ some xs = rw (e, none_ts, keyed) at h in cc)
    | inr (rest, es) ↦
        subst (All IsKeyed) (same_keys ((bytes, t) ∷ rest) xs (rw (e, es, keyed) at h))
          (e, keyed-IsKeyed ts rest es)
  ]
]

pub keyed-texts_of : (xs : List Keyed) → All IsKeyed xs → keyed (texts_of xs) ≡ some xs
unfolding keyed
keyed-texts_of [] h = refl
keyed-texts_of (x ∷ xs) (h, hs) = rw (h, keyed-texts_of xs hs, keyed)

pub same_texts_sound : (ts us : List Text) → same_texts ts us ≡ true → ts ≡ us
unfolding same_texts
same_texts_sound [] [] h = refl
same_texts_sound [] (u ∷ us) h = cc
same_texts_sound (t ∷ ts) [] h = cc
same_texts_sound (t ∷ ts) (u ∷ us) h =
    let head : t ≡ u = (text_eq_iff t u).0 (ground arith) in
    let tail : ts ≡ us = same_texts_sound ts us (ground arith) in rw (head, tail)

pub check_sorted-IsInOrder :
    (paths : List Text) (o : Option (List Keyed))
    → keyed paths ≡ o
    → check_sorted paths o ≡ accept tt
    → IsInOrder paths
unfolding check_sorted
check_sorted-IsInOrder paths none e h = cc
check_sorted-IsInOrder paths (some xs) e h =
    let same : paths ≡ texts_of (sort xs) =
      same_texts_sound paths (texts_of (sort xs)) (not-not _ (reject_if-accept _ _ h)) in
    record {
      keys = sort xs;
      encoded =
          ap keyed same ∙ keyed-texts_of (sort xs) (sort-All IsKeyed xs (keyed-IsKeyed paths xs e));
      ascending = sort-Ascending xs;
    }
