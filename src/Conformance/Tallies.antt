-- ===== src/Conformance/Tallies.antt =====
-- How often the records name an ID, and what is seen of them.
use cekat_event_sdk.Base.{
  ℕ, suc, ◌+◌, ◌≤◌, ◌≡◌, refl, ap, sym, ◌∙◌, Text, true, false, List, [], ◌∷◌, ltb, if◌then◌else◌,
  text_eq, text_eq_iff, arith, Bool-cases, inl, inr, All,
}
use cekat_event_sdk.Conformance.{
  ResultRecord, Fixtures, Seen, bump, see, duplicates, is_seen, missing,
}

-- The records of a fixture.
abbrev pub count : Text → List ResultRecord → ℕ
count id [] = 0
count id (r ∷ rs) = if text_eq r.id id then suc (count id rs) else count id rs

-- How often an ID was seen.
abbrev pub tally : Text → Seen → ℕ
tally id [] = 0
tally id ((name, n) ∷ rest) = if text_eq name id then n else tally id rest

pub tally-bump :
    (id key : Text) (seen : Seen)
    → tally id (bump key seen) ≡ (if text_eq key id then suc (tally id seen) else tally id seen)
unfolding bump
tally-bump id key [] = refl
tally-bump id key ((name, n) ∷ rest) = elim (Bool-cases (text_eq name key)) [
  | inl same ↦
      let name_key : text_eq name id ≡ text_eq key id =
        ap (λ t. text_eq t id) ((text_eq_iff name key).0 same) in
      elim (Bool-cases (text_eq key id)) [
        | inl hit ↦ rw (same, name_key, hit)
        | inr other ↦ rw (same, name_key, other)
      ]
  | inr differ ↦ elim (Bool-cases (text_eq name id)) [
    | inl hit ↦ rw (differ, hit, key_differs hit differ)
    | inr other ↦ rw (differ, other) (tally-bump id key rest)
  ]
]
  where
    key_differs : text_eq name id ≡ true → text_eq name key ≡ false → text_eq key id ≡ false
    key_differs hit differ = elim (Bool-cases (text_eq key id)) [
      | inl both ↦
          let joined : name ≡ key =
            (text_eq_iff name id).0 hit ∙ sym ((text_eq_iff key id).0 both) in
          let yes : text_eq name key ≡ true = (text_eq_iff name key).1 joined in absurd (cc)
      | inr other ↦ other
    ]

pub tally-see :
    (id : Text) (rs : List ResultRecord) (seen : Seen)
    → tally id (see rs seen) ≡ count id rs + tally id seen
unfolding see
tally-see id [] seen = omega arith
tally-see id (r ∷ rs) seen = elim (Bool-cases (text_eq r.id id)) [
  | inl same ↦ rw (tally-see id rs (bump r.id seen), tally-bump id r.id seen, same) (omega arith)
  | inr other ↦ rw (tally-see id rs (bump r.id seen), tally-bump id r.id seen, other)
]

pub no_duplicates : (id : Text) (seen : Seen) → duplicates seen ≡ [] → tally id seen ≤ 1
unfolding duplicates
no_duplicates id [] h = omega arith
no_duplicates id ((name, n) ∷ rest) h = elim (Bool-cases (ltb 1 n)) [
  | inl many ↦ absurd (let h' : name ∷ duplicates rest ≡ [] = rw many at h in cc)
  | inr few ↦ let later = no_duplicates id rest (rw few at h) in ground arith
]

-- Every ID that was seen was seen at least once.
abbrev pub ArePositive : Seen → Type 0
ArePositive seen = All (λ (x : Text × ℕ). 1 ≤ x.1) seen

pub bump-ArePositive : (id : Text) (seen : Seen) → ArePositive seen → ArePositive (bump id seen)
unfolding bump
bump-ArePositive id [] h = (omega arith, tt)
bump-ArePositive id ((name, n) ∷ rest) (h, hs) = elim (Bool-cases (text_eq name id)) [
  | inl same ↦ rw same (omega arith, hs)
  | inr other ↦ rw other (h, bump-ArePositive id rest hs)
]

pub see-ArePositive :
    (rs : List ResultRecord) (seen : Seen) → ArePositive seen → ArePositive (see rs seen)
unfolding see
see-ArePositive [] seen h = h
see-ArePositive (r ∷ rs) seen h = see-ArePositive rs (bump r.id seen) (bump-ArePositive r.id seen h)

pub is_seen-tally :
    (id : Text) (seen : Seen) → ArePositive seen → is_seen id seen ≡ true → 1 ≤ tally id seen
unfolding is_seen
is_seen-tally id [] p h = cc
is_seen-tally id ((name, n) ∷ rest) (p, ps) h = elim (Bool-cases (text_eq name id)) [
  | inl same ↦ rw same p
  | inr other ↦ rw other (is_seen-tally id rest ps (rw other at h))
]

pub none_missing :
    (fixtures : Fixtures) (seen : Seen)
    → missing fixtures seen ≡ []
    → All (λ (f : Text × List Text). is_seen f.0 seen ≡ true) fixtures
unfolding missing
none_missing [] seen h = tt
none_missing ((id, langs) ∷ rest) seen h = elim (Bool-cases (is_seen id seen)) [
  | inl there ↦ (there, none_missing rest seen (rw there at h))
  | inr absent ↦ absurd (let h' : id ∷ missing rest seen ≡ [] = rw absent at h in cc)
]
