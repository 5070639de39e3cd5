-- ===== src/ProviderConfig/Resolver/Valid.antt =====
-- What a provider config that resolves is sure to have.
use signoz_operator.Prelude.{
  String, ◌≡◌, ◌≢◌, refl, Bool, true, false, Option, none, some, ◌⊎◌, inl, inr, str_eq, eq_iff,
  text_ne, if◌then◌else◌, Bool-cases, not, ◌&&◌, arith,
}
use signoz_operator.Errors.{Result, ok, err}
use signoz_operator.ProviderConfig.Spec.{HeaderAuth, ProviderConfigSpec}
use signoz_operator.ProviderConfig.Resolved.{
  Url, ResolvedHeaderAuthentication, ResolvedProviderConfigSpec,
}
use signoz_operator.ProviderConfig.Cache.{Reader, Cache}
use signoz_operator.ProviderConfig.Resolver.{
  default_header_name, Resolving, and_then, check_url, header_of, endpoint, authentication,
  resolve_fields, resolve,
}

-- The URL is one that an HTTP client can call.
pub record IsCallable (url : Url) : Type 0 where
  scheme : (url.scheme ≡ "http") ⊎ (url.scheme ≡ "https")
  host : url.host ≢ ""

-- The header has a name and a credential.
pub record IsCredential (auth : ResolvedHeaderAuthentication) : Type 0 where
  name : auth.name ≢ ""
  value : auth.value ≢ ""

pub data HasCredential : Option ResolvedHeaderAuthentication → Type 0 where
  credential : (auth : ResolvedHeaderAuthentication) → IsCredential auth → HasCredential (some auth)

pub record IsUsable (r : ResolvedProviderConfigSpec) : Type 0 where
  endpoint : IsCallable r.endpoint
  auth : HasCredential r.auth

-- A result that has the property, if it is one.
Succeeds : {A : Type 0} → (A → Type 0) → Result A → Type 0
Succeeds P (ok a) = P a
Succeeds P (err e) = Unit {0}

and_then-Succeeds :
    {A B : Type 0} (P : A → Type 0) (Q : B → Type 0) (f : A → Resolving B) (x : Result A × Cache)
    → Succeeds P x.0
    → ((a : A) (c : Cache) → P a → Succeeds Q (f a c).0)
    → Succeeds Q (and_then f x).0
unfolding Succeeds and_then
and_then-Succeeds P Q f (ok a, c) h hf = hf a c h
and_then-Succeeds P Q f (err e, c) h hf = tt

-- The stage runs, whatever it answers.
anything : {A : Type 0} (x : Result A) → Succeeds (λ _. Unit {0}) x
unfolding Succeeds
anything (ok a) = tt
anything (err e) = tt

if-Succeeds :
    {A : Type 0} (P : A → Type 0) (b : Bool) (x y : Result A)
    → (b ≡ true → Succeeds P x)
    → (b ≡ false → Succeeds P y)
    → Succeeds P (if b then x else y)
if-Succeeds P true x y hx hy = hx refl
if-Succeeds P false x y hx hy = hy refl

http_scheme :
    (scheme : String)
    → (not (str_eq scheme "http") && not (str_eq scheme "https")) ≡ false
    → (scheme ≡ "http") ⊎ (scheme ≡ "https")
http_scheme scheme h = elim (Bool-cases (str_eq scheme "http")) [
  | inl http ↦ inl ((eq_iff _ _).0 http)
  | inr other ↦ inr ((eq_iff _ _).0 (ground (arith, other, h)))
]

or_default : (name : String) → (if str_eq name "" then default_header_name else name) ≢ ""
or_default name = elim (Bool-cases (str_eq name "")) [
  | inl absent ↦ rw absent (text_ne _ _ refl)
  | inr given ↦ rw given (text_ne _ _ given)
]

of_success : {A : Type 0} (P : A → Type 0) (x : Result A) (a : A) → Succeeds P x → x ≡ ok a → P a
unfolding Succeeds
of_success P (ok b) a h e = let same : b ≡ a = cc e in rw⁻¹ same h
of_success P (err b) a h e = cc e

module _ (reader : Reader) where
  check_url-IsCallable : (url : Option Url) → Succeeds IsCallable (check_url reader url)
  unfolding Succeeds check_url
  check_url-IsCallable none = tt
  check_url-IsCallable (some url) =
      if-Succeeds IsCallable _ _ _ (λ other. tt)
        (λ http.
          if-Succeeds IsCallable _ _ _ (λ nowhere. tt)
            (λ host.
              let it : IsCallable url = record {
                scheme = http_scheme url.scheme http;
                host = text_ne _ _ host;
              } in
              it))

  header_of-IsCredential :
      (header : HeaderAuth) (value : String) → Succeeds IsCredential (header_of reader header value)
  unfolding Succeeds header_of
  header_of-IsCredential header value =
      if-Succeeds IsCredential (str_eq value "") _ _ (λ empty. tt)
        (λ given.
          let it : IsCredential (record {
            name = if str_eq header.name "" then default_header_name else header.name;
            scheme = header.scheme;
            value = value;
          }) =
            record { name = or_default header.name; value = text_ne _ _ given } in
          it)

  endpoint-IsCallable :
      (spec : ProviderConfigSpec) (c : Cache) → Succeeds IsCallable (endpoint reader spec c).0
  unfolding endpoint
  endpoint-IsCallable spec c =
      and_then-Succeeds (λ _. Unit {0}) IsCallable _ _ (anything _)
        (λ raw d _. check_url-IsCallable (reader.parse_url raw))

  authentication-IsCredential :
      (auth : Option HeaderAuth) (c : Cache)
      → Succeeds IsCredential (authentication reader auth c).0
  unfolding Succeeds authentication
  authentication-IsCredential none c = tt
  authentication-IsCredential (some a) c =
      and_then-Succeeds (λ _. Unit {0}) IsCredential _ _ (anything _)
        (λ value d _. header_of-IsCredential a value)

  resolve_fields-IsUsable :
      (spec : ProviderConfigSpec) (c : Cache) → Succeeds IsUsable (resolve_fields reader spec c).0
  unfolding Succeeds resolve_fields
  resolve_fields-IsUsable spec c =
      and_then-Succeeds IsCallable IsUsable _ _ (endpoint-IsCallable spec c) (λ url d callable.
        and_then-Succeeds IsCredential IsUsable _ _ (authentication-IsCredential spec.auth d)
          (λ auth d' known.
            and_then-Succeeds (λ _. Unit {0}) IsUsable _ _ (anything _)
              (λ tls d'' _. record { endpoint = callable; auth = credential auth known })))

  -- A provider config that resolves has an http or https URL with a host and an authentication
  -- header with a name and a value, neither of them empty, whatever its spec and the objects read.
  pub resolve-IsUsable :
      (namespace : String) (spec : ProviderConfigSpec) (r : ResolvedProviderConfigSpec)
      → (resolve reader namespace spec).0 ≡ ok r
      → IsUsable r
  unfolding Succeeds resolve
  resolve-IsUsable namespace spec r h = of_success IsUsable _ r (resolve_fields-IsUsable spec _) h
