-- ===== src/Validation/Origin/Accepted.antt =====
-- What base URLs normalize_origin of python/src/cekat_event_sdk/validation.py accepts, and what
-- origin it returns.
use cekat_event_sdk.Base.{
  ℕ, ◌≤◌, ◌≡◌, ◌≢◌, refl, ap, sym, ◌∙◌, Text, Bool, true, false, ◌&&◌, ◌||◌, not, Option, none,
  some, [], ◌∷◌, ◌++◌, leb, if◌then◌else◌, codes, text_eq, text_eq_iff, is_empty, lower, decimal,
  partition, arith, Bool-cases, inl, inr, ◌⊎◌, All,
}
use cekat_event_sdk.Errors.{Result, ok}
use cekat_event_sdk.Objects.{Value, str, null}
use cekat_event_sdk.Retry.{all_digits, number_from}
use cekat_event_sdk.Validation.Origin.{
  contains, has_forbidden, split_url, rpartition_at, host_info, read_port, port_suffix, is_refused,
  invalid, lowered, lower_host, host_of, port_of, lacks_http_host, has_more, is_malformed, printed,
  origin, normalize_origin,
}
use cekat_event_sdk.Validation.Origin.Splits.{
  Lacks, rpartition_at-Lacks, IsSplit, split_url-IsSplit,
}

-- A character that is no `?`, `#`, space, tab, carriage return or line feed.
abbrev pub IsAllowed : ℕ → Type 0
IsAllowed c = (c ≢ b'?') × (c ≢ b'#') × (c ≢ 32) × (c ≢ 9) × (c ≢ 13) × (c ≢ 10)

has_forbidden-false : (t : Text) → has_forbidden t ≡ false → All IsAllowed t
unfolding has_forbidden
has_forbidden-false [] h = tt
has_forbidden-false (c ∷ t) h = (
  (ground arith, ground arith, ground arith, ground arith, ground arith, ground arith),
  has_forbidden-false t (ground arith),
)

-- The port that an origin ends with, if it has one.
pub data IsPort : Text → Type 0 where
  no_port : IsPort []
  a_port : {n : ℕ} → n ≤ 65535 → IsPort (b':' ∷ decimal n)

read_port-IsPort :
    (o : Option Text) → is_refused (read_port o) ≡ false → IsPort (port_suffix (read_port o))
unfolding read_port
read_port-IsPort none h = no_port
read_port-IsPort (some t) h = elim (Bool-cases (all_digits t && leb (number_from 0 t) 65535)) [
  | inl good ↦ rw good (a_port (ground arith))
  | inr bad ↦ absurd (let h' : true ≡ false = rw bad at h in cc)
]

-- An accepted base URL, and its origin.
pub record IsOriginOf (lower_any : Text → Text) (base_url : Value) (result : Text) : Type 0 where
  pub url : Text
  pub scheme : Text
  pub netloc : Text
  pub path : Text
  pub is_text : base_url ≡ str url
  pub allowed : All IsAllowed url
  pub split : IsSplit url scheme netloc path
  pub is_http : (lower scheme ≡ codes "http") ⊎ (lower scheme ≡ codes "https")
  pub no_credentials : Lacks b'@' netloc
  pub no_path : (path ≡ []) ⊎ (path ≡ codes "/")
  pub has_host : (host_info netloc).0 ≢ []
  pub port : Text
  pub is_port : IsPort port
  pub name : Text
  pub is_name : name ≡ lowered lower_any (lower_host lower_any (host_info netloc).0)
  pub is_origin :
      result
      ≡ lower scheme
        ++ (codes "://"
            ++ ((if contains b':' name then b'[' ∷ (name ++ b']' ∷ []) else name) ++ port))

unless-invalid :
    (b : Bool) (r : Result Text) (o : Text)
    → (if b then invalid else r) ≡ ok o
    → (b ≡ false) × (r ≡ ok o)
unless-invalid true r o h = cc
unless-invalid false r o h = (refl, h)

is_empty-nil : (t : Text) → is_empty t ≡ true → t ≡ []
is_empty-nil [] h = refl
is_empty-nil (c ∷ t) h = cc

empty-host : (host_info []).0 ≡ []
unfolding host_info partition
empty-host = refl

same_result : (a b : Text) → ◌≡◌ {A = Result Text} (ok a) (ok b) → a ≡ b
same_result a b e = cc

http_or_https :
    (t : Text)
    → not (text_eq t (codes "http") || text_eq t (codes "https")) ≡ false
    → (t ≡ codes "http") ⊎ (t ≡ codes "https")
http_or_https t h = elim (Bool-cases (text_eq t (codes "http"))) [
  | inl http ↦ inl ((text_eq_iff t (codes "http")).0 http)
  | inr other ↦ inr ((text_eq_iff t (codes "https")).0 (ground arith))
]

nil_or_slash :
    (t : Text) → not (is_empty t || text_eq t (codes "/")) ≡ false → (t ≡ []) ⊎ (t ≡ codes "/")
nil_or_slash t h = elim (Bool-cases (is_empty t)) [
  | inl empty ↦ inl (is_empty-nil t empty)
  | inr other ↦ inr ((text_eq_iff t (codes "/")).0 (ground arith))
]

or-false : (a b : Bool) → a || b ≡ false → (a ≡ false) × (b ≡ false)
or-false true b e = cc
or-false false b e = (refl, e)

not-nil : (t : Text) → is_empty t ≡ false → t ≢ []
not-nil [] h e = cc
not-nil (c ∷ t) h e = cc

no_scheme :
    (scheme : Text)
    → scheme ≡ []
    → (lower scheme ≡ codes "http") ⊎ (lower scheme ≡ codes "https")
    → ⊥
unfolding lower
no_scheme scheme e (inl http) = let h : lower [] ≡ codes "http" = ap lower (sym e) ∙ http in cc
no_scheme scheme e (inr https) = let h : lower [] ≡ codes "https" = ap lower (sym e) ∙ https in cc

module _ (lower_any : Text → Text) (bracketed_netloc_ok nfkc_ok : Text → Bool) where
  origin-IsOriginOf :
      (url result : Text)
      → has_forbidden url ≡ false
      → origin lower_any bracketed_netloc_ok nfkc_ok (split_url url) ≡ ok result
      → IsOriginOf lower_any (str url) result
  unfolding origin
  origin-IsOriginOf url result fine h =
      let parts = split_url url in
      let (checked, h1) =
        unless-invalid (is_malformed lower_any bracketed_netloc_ok nfkc_ok parts) _ result h in
      let (located, h2) = unless-invalid (lacks_http_host parts) _ result h1 in
      let (bare, h3) = unless-invalid (has_more parts) _ result h2 in
      let (_, port_read) = or-false _ (is_refused (port_of parts)) checked in
      let (http, hosted) = or-false _ (is_empty (host_of parts)) located in
      let (no_user, plain) = or-false (rpartition_at parts.netloc).found _ bare in
      let (lacks, whole) = rpartition_at-Lacks parts.netloc no_user in
      let host_same : host_of parts ≡ (host_info parts.netloc).0 =
        ap (λ t. (host_info t).0) whole in
      let is_http = http_or_https (lower parts.scheme) http in
      let has_host : (host_info parts.netloc).0 ≢ [] =
        not-nil (host_info parts.netloc).0 (rw host_same at hosted) in
      let split : IsSplit url parts.scheme parts.netloc parts.path = elim (split_url-IsSplit url) [
        | inl good ↦ good
        | inr (inl e) ↦ absurd (no_scheme parts.scheme e is_http)
        | inr (inr e) ↦ absurd (has_host (ap (λ t. (host_info t).0) e ∙ empty-host))
      ] in
      record {
        url = url;
        scheme = parts.scheme;
        netloc = parts.netloc;
        path = parts.path;
        is_text = refl;
        allowed = has_forbidden-false url fine;
        split = split;
        is_http = is_http;
        no_credentials = lacks;
        no_path = nil_or_slash parts.path plain;
        has_host = has_host;
        port = port_suffix (port_of parts);
        is_port = read_port-IsPort (host_info (rpartition_at parts.netloc).after).1 port_read;
        name = lowered lower_any (lower_host lower_any (host_of parts));
        is_name = ap (λ t. lowered lower_any (lower_host lower_any t)) host_same;
        is_origin =
            sym (same_result (printed lower_any bracketed_netloc_ok nfkc_ok parts) result h3);
      }

  -- What an accepted base URL is, and its origin.
  pub normalize_origin-IsOriginOf :
      (base_url : Value) (result : Text)
      → normalize_origin lower_any bracketed_netloc_ok nfkc_ok base_url ≡ ok result
      → IsOriginOf lower_any base_url result
  unfolding normalize_origin
  normalize_origin-IsOriginOf (str url) result h =
      let (fine, h1) = unless-invalid (has_forbidden url) _ result h in
      origin-IsOriginOf url result fine h1
  normalize_origin-IsOriginOf null result h = cc
  normalize_origin-IsOriginOf _ result h = cc
