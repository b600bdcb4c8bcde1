-- ===== src/Validation/Origin/Splits.antt =====
-- How urlsplit, as normalize_origin of python/src/cekat_event_sdk/validation.py uses it, takes a text
-- apart.
use cekat_event_sdk.Base.{
  ℕ, ◌≤◌, ◌≡◌, ◌≢◌, refl, ap, sym, ◌∙◌, Text, true, false, ◌&&◌, none, some, [], ◌∷◌, ◌++◌, leb,
  ◌==◌, ==_iff, lower, partition, arith, Bool-cases, Option-cases, inl, inr, ◌⊎◌, All,
}
use cekat_event_sdk.Validation.Origin.{
  split_netloc, lstrip_controls, split_scheme, starts_with_letter, all_scheme_chars, after_slashes,
  rpartition_at, extend_before, split_url,
}

-- A text that a character does not stand in.
abbrev pub Lacks : ℕ → Text → Type 0
Lacks c t = All (λ d. d ≢ c) t

split_netloc_lem :
    (t : Text) → ((split_netloc t).0 ++ (split_netloc t).1 ≡ t) × Lacks b'/' (split_netloc t).0
unfolding split_netloc
split_netloc_lem [] = (refl, tt)
split_netloc_lem (c ∷ t) =
    let (joined, lacks) = split_netloc_lem t in
    elim (Bool-cases (c == b'/')) [
      | inl slash ↦ rw slash (refl, tt)
      | inr other ↦ rw other (ap (λ u. c ∷ u) joined, (ground arith, lacks))
    ]

partition_lem :
    (sep : ℕ) (t : Text)
    → (partition sep t).found ≡ true
    → (partition sep t).before ++ sep ∷ (partition sep t).after ≡ t
unfolding partition
partition_lem sep [] h = cc
partition_lem sep (c ∷ t) h = elim (Bool-cases (c == sep)) [
  | inl here ↦ rw here (ap (λ d. d ∷ t) (sym ((==_iff c sep).0 here)))
  | inr later ↦ rw later (ap (λ u. c ∷ u) (partition_lem sep t (rw later at h)))
]

-- Without an `@` nothing is cut off.
pub rpartition_at-Lacks :
    (t : Text) → (rpartition_at t).found ≡ false → Lacks b'@' t × ((rpartition_at t).after ≡ t)
unfolding rpartition_at extend_before
rpartition_at-Lacks [] h = (tt, refl)
rpartition_at-Lacks (c ∷ t) h = elim (Bool-cases (rpartition_at t).found) [
  | inl later ↦ absurd (let h' : true ≡ false = rw later at h in cc)
  | inr none_later ↦
      let here : (c == b'@') ≡ false = rw none_later at h in
      let (lacks, _) = rpartition_at-Lacks t none_later in
      ((ground arith, lacks), rw (none_later, here))
]

after_slashes-some : (t u : Text) → after_slashes t ≡ some u → t ≡ b'/' ∷ b'/' ∷ u
unfolding after_slashes
after_slashes-some [] u h = cc
after_slashes-some (c ∷ []) u h = cc
after_slashes-some (c ∷ d ∷ t) u h = elim (Bool-cases (c == b'/' && d == b'/')) [
  | inl both ↦
      let same : t ≡ u = (let h' : some t ≡ some u = rw both at h in cc) in
      let first : c ≡ b'/' = ground arith in let second : d ≡ b'/' = ground arith in cc
  | inr other ↦ absurd (let h' : none ≡ some u = rw other at h in cc)
]

lstrip_controls_lem :
    (t : Text) → (front : Text) × All (λ c. c ≤ 32) front × (front ++ lstrip_controls t ≡ t)
unfolding lstrip_controls
lstrip_controls_lem [] = ([], tt, refl)
lstrip_controls_lem (c ∷ t) =
    let (front, low, joined) = lstrip_controls_lem t in
    elim (Bool-cases (leb c 32)) [
      | inl control ↦ rw control (c ∷ front, (ground arith, low), ap (λ u. c ∷ u) joined)
      | inr other ↦ rw other ([], tt, refl)
    ]

-- A scheme is what stands before the first colon, in lower case, or there is none.
split_scheme_lem :
    (url : Text)
    → ((raw : Text) × ((split_scheme url).0 ≡ lower raw)
        × (raw ++ b':' ∷ (split_scheme url).1 ≡ url))
      ⊎ ((split_scheme url).0 ≡ [])
unfolding split_scheme
split_scheme_lem url =
    let p = partition b':' url in
    elim (Bool-cases (p.found && starts_with_letter url && all_scheme_chars p.before)) [
      | inl scheme ↦
          let found : p.found ≡ true = ground arith in
          rw scheme (inl (p.before, refl, partition_lem b':' url found))
      | inr other ↦ rw other (inr refl)
    ]

-- The parts of a URL that has a scheme and a netloc.
pub record IsSplit (url scheme netloc path : Text) : Type 0 where
  pub front : Text
  pub raw_scheme : Text
  pub controls : All (λ c. c ≤ 32) front
  pub lower_scheme : scheme ≡ lower raw_scheme
  pub joined : front ++ (raw_scheme ++ b':' ∷ b'/' ∷ b'/' ∷ (netloc ++ path)) ≡ url
  pub no_slash : Lacks b'/' netloc

-- A URL is split into its parts, or it lacks the scheme or the netloc.
pub split_url-IsSplit :
    (url : Text)
    → IsSplit url (split_url url).scheme (split_url url).netloc (split_url url).path
      ⊎ ((split_url url).scheme ≡ [])
      ⊎ ((split_url url).netloc ≡ [])
unfolding split_url
split_url-IsSplit url =
    let (front, controls, stripped) = lstrip_controls_lem url in
    let rest = (split_scheme (lstrip_controls url)).1 in
    elim (Option-cases (after_slashes rest)) [
      | inl missing ↦ rw missing (inr (inr refl))
      | inr (t, there) ↦ rw there (elim (split_scheme_lem (lstrip_controls url)) [
        | inl (raw, lowered, found) ↦
            let (joined, no_slash) = split_netloc_lem t in
            inl (record {
              front = front;
              raw_scheme = raw;
              controls = controls;
              lower_scheme = lowered;
              joined =
                  ap (λ u. front ++ u)
                    (ap (λ u. raw ++ b':' ∷ u)
                        (ap (λ u. b'/' ∷ b'/' ∷ u) joined ∙ sym (after_slashes-some rest t there))
                      ∙ found)
                  ∙ stripped;
              no_slash = no_slash;
            })
        | inr no_scheme ↦ inr (inl no_scheme)
      ])
    ]
