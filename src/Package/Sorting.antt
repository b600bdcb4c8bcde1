-- ===== src/Package/Sorting.antt =====
-- sorted(paths, key=...) of scripts/validate-package-manifest.py: texts with their keys, in the order
-- of the keys, and equal keys in the order that they had.
use cekat_event_sdk.Base.{
  ℕ, ◌≡◌, refl, Text, Bool, true, false, ◌&&◌, ◌||◌, List, [], ◌∷◌, ◌==◌, ltb, if◌then◌else◌, arith,
  Bool-cases, inl, inr, All,
}

abbrev pub Keyed : Type 0
Keyed = List ℕ × Text

-- bytes compare byte by byte, and a prefix comes first.
unfoldable pub lex_leb : List ℕ → List ℕ → Bool
lex_leb [] u = true
lex_leb (c ∷ t) [] = false
lex_leb (c ∷ t) (d ∷ u) = ltb c d || c == d && lex_leb t u

unfoldable pub insert : Keyed → List Keyed → List Keyed
insert x [] = x ∷ []
insert x (y ∷ ys) = let later = insert x ys in if lex_leb x.0 y.0 then x ∷ y ∷ ys else y ∷ later

unfoldable pub sort : List Keyed → List Keyed
unfolding insert
sort [] = []
sort (x ∷ xs) = insert x (sort xs)

-- Each key is at most the next one.
abbrev pub Ascending : List Keyed → Type 0
Ascending [] = Unit
Ascending (x ∷ []) = Unit
Ascending (x ∷ y ∷ ys) = (lex_leb x.0 y.0 ≡ true) × Ascending (y ∷ ys)

lex_leb_total : (t u : List ℕ) → lex_leb t u ≡ false → lex_leb u t ≡ true
unfolding lex_leb
lex_leb_total [] u e = cc
lex_leb_total (c ∷ t) [] e = refl
lex_leb_total (c ∷ t) (d ∷ u) e = elim (Bool-cases (lex_leb t u)) [
  | inl le ↦ ground arith
  | inr gt ↦ let rest = lex_leb_total t u gt in ground arith
]

-- The key is at most the first key of the list.
abbrev AtMost : Keyed → List Keyed → Type 0
AtMost x [] = Unit
AtMost x (y ∷ ys) = lex_leb x.0 y.0 ≡ true

cons-Ascending : (x : Keyed) (ys : List Keyed) → AtMost x ys → Ascending ys → Ascending (x ∷ ys)
cons-Ascending x [] le h = tt
cons-Ascending x (y ∷ ys) le h = (le, h)

Ascending-tail : (x : Keyed) (ys : List Keyed) → Ascending (x ∷ ys) → AtMost x ys × Ascending ys
Ascending-tail x [] h = (tt, tt)
Ascending-tail x (y ∷ ys) h = h

insert-AtMost :
    (x y : Keyed) (ys : List Keyed) → lex_leb x.0 y.0 ≡ true → AtMost x ys → AtMost x (insert y ys)
unfolding insert
insert-AtMost x y [] le h = le
insert-AtMost x y (z ∷ zs) le h = elim (Bool-cases (lex_leb y.0 z.0)) [
  | inl first ↦ rw first le
  | inr later ↦ rw later h
]

insert-Ascending : (x : Keyed) (ys : List Keyed) → Ascending ys → Ascending (insert x ys)
unfolding insert
insert-Ascending x [] h = tt
insert-Ascending x (y ∷ ys) h = elim (Bool-cases (lex_leb x.0 y.0)) [
  | inl le ↦ rw le (le, h)
  | inr gt ↦
      let (below, rest) = Ascending-tail y ys h in
      rw gt (
        cons-Ascending y (insert x ys) (insert-AtMost y x ys (lex_leb_total x.0 y.0 gt) below)
          (insert-Ascending x ys rest))
]

pub sort-Ascending : (xs : List Keyed) → Ascending (sort xs)
unfolding sort
sort-Ascending [] = tt
sort-Ascending (x ∷ xs) = insert-Ascending x (sort xs) (sort-Ascending xs)

insert-All :
    (P : Keyed → Type 0) (x : Keyed) (ys : List Keyed) → P x → All P ys → All P (insert x ys)
unfolding insert
insert-All P x [] h hs = (h, tt)
insert-All P x (y ∷ ys) h (hy, hs) = elim (Bool-cases (lex_leb x.0 y.0)) [
  | inl le ↦ rw le (h, (hy, hs))
  | inr gt ↦ rw gt (hy, insert-All P x ys h hs)
]

pub sort-All : (P : Keyed → Type 0) (xs : List Keyed) → All P xs → All P (sort xs)
unfolding sort
sort-All P [] h = tt
sort-All P (x ∷ xs) (h, hs) = insert-All P x (sort xs) h (sort-All P xs hs)
