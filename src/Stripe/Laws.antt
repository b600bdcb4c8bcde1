-- ===== src/Stripe/Laws.antt =====
-- What the metadata helpers change, and which visitors they take.
use cekat_event_sdk.Base.{
  ◌≤◌, ◌≡◌, ◌↔◌, suc, refl, ap, ◌∙◌, Text, true, ◌&&◌, Option, none, some, [], ◌∷◌, if◌then◌else◌,
  between, nonempty, text_eq, text_eq_iff, strip, length, arith, Bool-cases, inl, inr,
}
use cekat_event_sdk.Objects.{Value, str, null}
use cekat_event_sdk.Context.{get_text, normalize_visitor_id}
use cekat_event_sdk.Stripe.{
  visitor_metadata_key, Metadata, all_visitor_chars, valid_visitor_id, put_text, put_if_some,
  merge_metadata,
}

get_text-put_text :
    (k j v : Text) (m : Metadata)
    → get_text j (put_text k v m) ≡ (if text_eq k j then some v else get_text j m)
unfolding get_text put_text
get_text-put_text k j v [] = refl
get_text-put_text k j v ((i, w) ∷ m) =
    ground (arith, text_eq_iff k j, text_eq_iff i k, text_eq_iff i j, get_text-put_text k j v m)

merged :
    (o : Option Text) (m : Metadata) (key : Text)
    → get_text key (put_if_some o m) ≡ (
        if text_eq visitor_metadata_key key
        then (elim o [ none ↦ get_text key m | some v ↦ some v ])
        else get_text key m)
merged none m key = ground arith
merged (some v) m key = get_text-put_text visitor_metadata_key key v m

-- Merging changes the visitor's key at most: it then holds the visitor if that is valid, and what
-- it held before if not; every other key keeps its value.
pub merge_metadata_lem :
    (metadata : Metadata) (visitor_id : Value) (key : Text)
    → get_text key (merge_metadata metadata visitor_id) ≡ (
        if text_eq visitor_metadata_key key
        then (elim (valid_visitor_id visitor_id) [ none ↦ get_text key metadata | some v ↦ some v ])
        else get_text key metadata)
unfolding merge_metadata
merge_metadata_lem metadata visitor_id key = merged (valid_visitor_id visitor_id) metadata key

taken :
    (s v : Text)
    → (◌≡◌ {A = Option Text}
        (if between 1 128 (length s) && all_visitor_chars s then some s else none)
        (some v))
      ↔ ((nonempty s ≡ some v) × (length v ≤ 128) × (all_visitor_chars v ≡ true))
taken [] v = (λ e. absurd (cc), λ (h, _, _). absurd (cc))
taken (c ∷ s) v = (to, from)
  where
    to :
        ◌≡◌ {A = Option Text}
          (if between 1 128 (suc (length s)) && all_visitor_chars (c ∷ s)
            then some (c ∷ s)
            else none)
          (some v)
        → (◌≡◌ {A = Option Text} (some (c ∷ s)) (some v))
          × (length v ≤ 128)
          × (all_visitor_chars v ≡ true)
    to e = elim (Bool-cases (between 1 128 (suc (length s)) && all_visitor_chars (c ∷ s))) [
      | inl h ↦
          let e' : ◌≡◌ {A = Option Text} (some (c ∷ s)) (some v) = rw h at e in
          let same : c ∷ s ≡ v = cc in (e', rw (← same) (ground arith), rw (← same) (ground arith))
      | inr h ↦ absurd (let e' : ◌≡◌ {A = Option Text} none (some v) = rw h at e in cc)
    ]

    from :
        (◌≡◌ {A = Option Text} (some (c ∷ s)) (some v))
          × (length v ≤ 128)
          × (all_visitor_chars v ≡ true)
        → ◌≡◌ {A = Option Text}
            (if between 1 128 (suc (length s)) && all_visitor_chars (c ∷ s)
              then some (c ∷ s)
              else none)
            (some v)
    from (e, l, a) =
        let same : c ∷ s ≡ v = cc in
        let size : suc (length s) ≡ length v = ap (λ (t : Text). length t) same in
        let good : all_visitor_chars (c ∷ s) ≡ true =
          ap (λ (t : Text). all_visitor_chars t) same ∙ a in
        let in_bounds : between 1 128 (suc (length s)) ≡ true = ground arith in
        rw (in_bounds, good) e

-- Stripe metadata takes exactly the normalised visitors of at most 128 characters, each a letter, a
-- digit, `_` or `-` of ASCII.
pub valid_visitor_id_iff :
    (x : Value) (v : Text)
    → (valid_visitor_id x ≡ some v)
      ↔ ((normalize_visitor_id x ≡ some v) × (length v ≤ 128) × (all_visitor_chars v ≡ true))
unfolding valid_visitor_id normalize_visitor_id
valid_visitor_id_iff (str t) v = taken (strip t) v
valid_visitor_id_iff null v = (λ e. absurd (cc), λ (e, _, _). absurd (cc))
valid_visitor_id_iff _ v = (λ e. absurd (cc), λ (e, _, _). absurd (cc))
