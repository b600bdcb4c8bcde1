-- ===== src/Verdicts.antt =====
-- The checks of scripts/validate-package-manifest.py and scripts/validate-compatibility-matrix.py: a
-- check accepts, raises the validator's own error of type `E`, or crashes with another exception.
use cekat_event_sdk.Base.{Text, Bool, true, false, Option, none, some, ◌≡◌, refl, ap}

pub data Verdict {κ} (E : Type 0) (A : Type κ) : Type κ where
  reject : E → Verdict E A
  crash : (type_name : Text) → Verdict E A
  accept : A → Verdict E A

infixl 5 ◌>>=◌ ◌>>◌
abbrev pub ◌>>=◌ {κ μ} :
    {E : Type 0} {A : Type κ} {B : Type μ} (checked : Verdict E A) (next : A → Verdict E B)
    → Verdict E B
reject e >>= next = reject e
crash name >>= next = crash name
accept value >>= next = next value

abbrev pub ◌>>◌ {μ} :
    {E : Type 0} {B : Type μ} (checked : Verdict E (Unit {0})) (after : Verdict E B) → Verdict E B
checked >> after = checked >>= λ _. after

abbrev pub reject_if : {E : Type 0} (failed : Bool) (e : E) → Verdict E (Unit {0})
reject_if false e = accept tt
reject_if true e = reject e

abbrev pub or_reject {κ} : {E : Type 0} {A : Type κ} → Option A → E → Verdict E A
or_reject none e = reject e
or_reject (some a) e = accept a

-- What a successful chain of checks went through.
pub >>=-eq-accept {κ μ} :
    {E : Type 0} {A : Type κ} {B : Type μ} (checked : Verdict E A) (next : A → Verdict E B) {b : B}
    → (checked >>= next) ≡ accept b
    → (a : A) × (checked ≡ accept a) × (next a ≡ accept b)
>>=-eq-accept (reject e) next h = cc
>>=-eq-accept (crash name) next h = cc
>>=-eq-accept (accept a) next h = (a, refl, h)

pub reject_if-accept : {E : Type 0} (b : Bool) (e : E) → reject_if b e ≡ accept tt → b ≡ false
reject_if-accept true e h = cc
reject_if-accept false e h = refl

pub accept_injective {κ} :
    {E : Type 0} {A : Type κ} {x y : A} → ◌≡◌ {A = Verdict E A} (accept x) (accept y) → x ≡ y
accept_injective e = cc

pub or_reject-accept {κ} :
    {E : Type 0} {A : Type κ} (o : Option A) (e : E) (a : A) → or_reject o e ≡ accept a → o ≡ some a
or_reject-accept none e a h = cc
or_reject-accept (some b) e a h = ap some (accept_injective h)
