-- ===== src/ProviderConfig/Resolver/Kept.antt =====
-- What every read of a referenced object keeps, a whole resolution keeps.
use signoz_operator.Prelude.{
  String, Bool, true, false, Option, none, some, List, [], ◌∷◌, str_eq, if◌then◌else◌,
}
use signoz_operator.Errors.{Result, ok, err}
use signoz_operator.ProviderConfig.Spec.{
  KeySelector, ValueSource, HeaderAuth, TlsSettings, ProviderConfigSpec,
}
use signoz_operator.ProviderConfig.Cache.{RefKind, Reader, Cache, referent}
use signoz_operator.ProviderConfig.Resolver.{
  Resolving, and_then, at_path, key_value, sourced, value_of, endpoint, authentication, ca_of,
  trust, read_all, new_cache, resolve_fields, resolve,
}

module _ (reader : Reader) (P : Cache → Type 0)
    (referent-P : (kind : RefKind) (name : String) (c : Cache)
      → P c
      → P (referent reader kind name c).1) where
  abbrev Keeps : {A : Type 0} → Resolving A → Type 0
  Keeps m = (c : Cache) → P c → P (m c).1

  and_then-Keeps :
      {A B : Type 0} (f : A → Resolving B) (x : Result A × Cache)
      → ((a : A) → Keeps (f a))
      → P x.1
      → P (and_then f x).1
  unfolding and_then
  and_then-Keeps f (ok a, c) hf h = hf a c h
  and_then-Keeps f (err e, c) hf h = h

  at_path-Keeps :
      {A : Type 0} (path : String) (x : Result A × Cache) → P x.1 → P (at_path reader path x).1
  unfolding at_path
  at_path-Keeps path (ok a, c) h = h
  at_path-Keeps path (err e, c) h = h

  key_value-Keeps :
      (kind : RefKind) (path : String) (ref : KeySelector) → Keeps (key_value reader kind path ref)
  unfolding key_value
  key_value-Keeps kind path ref c h =
      and_then-Keeps _ _ (λ o d g. g) (at_path-Keeps path _ (referent-P kind ref.name c h))

  sourced-Keeps : (path : String) (s m : Option KeySelector) → Keeps (sourced reader path s m)
  unfolding sourced
  sourced-Keeps path (some ref) m c h =
      and_then-Keeps _ _ (λ v d g. g) (key_value-Keeps _ _ ref c h)
  sourced-Keeps path none (some ref) c h =
      and_then-Keeps _ _ (λ v d g. g) (key_value-Keeps _ _ ref c h)
  sourced-Keeps path none none c h = h

  inline-Keeps :
      {A : Type 0} (b : Bool) (m n : Resolving A) → Keeps m → Keeps n → Keeps (if b then m else n)
  inline-Keeps true m n hm hn = hm
  inline-Keeps false m n hm hn = hn

  value_of-Keeps :
      (path inline : String) (from : Option ValueSource) → Keeps (value_of reader path inline from)
  unfolding value_of
  value_of-Keeps path inline none = inline-Keeps (str_eq inline "") _ _ (λ c h. h) (λ c h. h)
  value_of-Keeps path inline (some from) =
      sourced-Keeps path from.secret_key_ref from.config_map_key_ref

  endpoint-Keeps : (spec : ProviderConfigSpec) → Keeps (endpoint reader spec)
  unfolding endpoint
  endpoint-Keeps spec c h =
      and_then-Keeps _ _ (λ raw d g. g)
        (value_of-Keeps _ spec.endpoint.value spec.endpoint.value_from c h)

  authentication-Keeps : (auth : Option HeaderAuth) → Keeps (authentication reader auth)
  unfolding authentication
  authentication-Keeps none c h = h
  authentication-Keeps (some a) c h =
      and_then-Keeps _ _ (λ raw d g. g) (value_of-Keeps _ a.value a.value_from c h)

  ca_of-Keeps : (skip : Bool) (ref : Option KeySelector) → Keeps (ca_of reader skip ref)
  unfolding ca_of
  ca_of-Keeps skip none c h = h
  ca_of-Keeps skip (some ref) c h = and_then-Keeps _ _ (λ v d g. g) (key_value-Keeps _ _ ref c h)

  trust-Keeps : (tls : Option TlsSettings) → Keeps (trust reader tls)
  unfolding trust
  trust-Keeps none c h = h
  trust-Keeps (some t) c h =
      and_then-Keeps _ _ (λ v d g. g) (ca_of-Keeps t.insecure_skip_verify t.ca_secret_ref c h)

  pub read_all-Keeps :
      (kind : RefKind) (names : List String) (c : Cache) → P c → P (read_all reader kind names c)
  unfolding read_all
  read_all-Keeps kind [] c h = h
  read_all-Keeps kind (n ∷ ns) c h = read_all-Keeps kind ns _ (referent-P kind n c h)

  pub resolve_fields-Keeps : (spec : ProviderConfigSpec) → Keeps (resolve_fields reader spec)
  unfolding resolve_fields
  resolve_fields-Keeps spec c h =
      and_then-Keeps _ _
        (λ url d g.
          and_then-Keeps _ _
            (λ auth d' g'. and_then-Keeps _ _ (λ tls d'' g''. g'') (trust-Keeps spec.tls d' g'))
            (authentication-Keeps spec.auth d g))
        (endpoint-Keeps spec c h)

  pub resolve-Keeps :
      (namespace : String) (spec : ProviderConfigSpec)
      → P (new_cache reader namespace)
      → P (resolve reader namespace spec).1
  unfolding resolve
  resolve-Keeps namespace spec h =
      resolve_fields-Keeps spec _ (read_all-Keeps _ _ _ (read_all-Keeps _ _ _ h))
