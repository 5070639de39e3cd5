-- ===== src/ProviderConfig/Refs/Confined.antt =====
-- In which namespace a reference to a provider config reads Secrets and ConfigMaps.
use signoz_operator.Prelude.{
  String, ◌≡◌, refl, ◌||◌, Option, none, some, List, [], ◌∷◌, str_eq, eq_iff, if◌then◌else◌,
  Bool-cases, inl, inr, ◌∙◌,
}
use signoz_operator.Errors.{Error, Result, ok, err}
use signoz_operator.Core.{ProviderConfigRef}
use signoz_operator.ProviderConfig.Spec.{ProviderConfigSpec}
use signoz_operator.ProviderConfig.Cache.{
  RefKind, Referent, Read, Reader, Cache, fetch, recall, referent,
}
use signoz_operator.ProviderConfig.Resolver.{new_cache, resolve}
use signoz_operator.ProviderConfig.Resolver.Kept.{resolve-Keeps}
use signoz_operator.ProviderConfig.Resolver.Reads.{reads-record_read, namespace-record_read}
use signoz_operator.ProviderConfig.Refs.{Configs, resolve_in, resolve_ref}

-- Every read went to the namespace of the cache.
abbrev pub AllIn : String → List Read → Type 0
AllIn namespace [] = Unit {0}
AllIn namespace (r ∷ rs) = (r.namespace ≡ namespace) × AllIn namespace rs

module _ (reader : Reader) (namespace : String) where
  Confined : Cache → Type 0
  Confined c = (c.namespace ≡ namespace) × AllIn namespace c.reads

  recall-Confined :
      (kind : RefKind) (name : String) (e : Option Error) (o : Option Referent) (c : Cache)
      → Confined c
      → Confined (recall reader kind name e o c).1
  unfolding recall fetch Confined
  recall-Confined kind name (some e) o c h = h
  recall-Confined kind name none (some o) c h = h
  recall-Confined kind name none none c (home, reads) = (
    namespace-record_read reader kind name _ _ ∙ home,
    rw (reads-record_read reader kind name _ _) (home, reads),
  )

  referent-Confined :
      (kind : RefKind) (name : String) (c : Cache)
      → Confined c
      → Confined (referent reader kind name c).1
  unfolding referent
  referent-Confined kind name c h = recall-Confined kind name _ _ c h

  resolve-AllIn :
      (spec : ProviderConfigSpec) → AllIn namespace (resolve reader namespace spec).1.reads
  unfolding Confined new_cache
  resolve-AllIn spec = (resolve-Keeps reader Confined referent-Confined namespace spec (refl, tt)).1

module _ (reader : Reader) where
  resolve_in-AllIn :
      (ref : ProviderConfigRef) (what namespace : String) (config : Result ProviderConfigSpec)
      → AllIn namespace (resolve_in reader ref what namespace config).1
  unfolding resolve_in
  resolve_in-AllIn ref what namespace (ok spec) = resolve-AllIn reader namespace spec
  resolve_in-AllIn ref what namespace (err e) = tt

  -- A reference of the kind ClusterProviderConfig reads Secrets and ConfigMaps only in the
  -- operator's namespace. Every other one reads only in the namespace of the object that makes it.
  pub resolve_ref-AllIn :
      (configs : Configs) (ref : ProviderConfigRef) (resource_namespace operator_namespace : String)
      → AllIn
          (if str_eq ref.kind "ClusterProviderConfig"
            then operator_namespace
            else resource_namespace)
          (resolve_ref reader configs ref resource_namespace operator_namespace).1
  unfolding resolve_ref
  resolve_ref-AllIn configs ref resource_namespace operator_namespace =
      elim (Bool-cases (str_eq ref.kind "ClusterProviderConfig")) [
        | inl cluster ↦
            let e : ref.kind ≡ "ClusterProviderConfig" = (eq_iff _ _).0 cluster in
            rw e (resolve_in-AllIn _ _ operator_namespace _)
        | inr other ↦ elim (Bool-cases (str_eq ref.kind "" || str_eq ref.kind "ProviderConfig")) [
          | inl local ↦ rw (other, local) (resolve_in-AllIn ref _ resource_namespace _)
          | inr unknown ↦ rw (other, unknown) tt
        ]
      ]
