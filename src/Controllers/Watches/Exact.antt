-- ===== src/Controllers/Watches/Exact.antt =====
-- Which objects an event about a provider config requeues.
use Prim.Native.String
use Prim.Native.Char.{Char, code}
use text.Mathlib.TextLemmas.{append_assoc, append_cancel_left, cons-append, cons-eq-cons}
use signoz_operator.Prelude.{
  and_true, or_false, String, ◌≡◌, ◌≢◌, ◌⊎◌, refl, arith, ap, ◌∙◌, sym, Bool, true, false, ◌&&◌,
  ◌||◌, Option, none, some, List, [], ◌∷◌, listed, str_eq, eq_iff, eq_refl, if◌then◌else◌, inl, inr,
  same_truth,
}
use signoz_operator.Errors.{ok}
use signoz_operator.Core.{ProviderConfigRef}
use signoz_operator.Controllers.Watches.{
  Key, Lister, provider_config_ref_key, index_provider_config_ref, keys, requests_matching,
  requests_of, enqueue_referencers, watch_provider_configs, watch_cluster_provider_configs,
  provider_config_ref_index,
}

infixr 66 ◌<>◌
abbrev ◌<>◌ : String → String → String
s <> t = String.◌++◌ s t

abbrev first_p : Char
first_p = "P"

abbrev first_c : Char
first_c = "C"

abbrev pub select : {O : Type 0} → (O → Bool) → List O → List O
select test [] = []
select test (o ∷ os) = let rest = select test os in if test o then o ∷ rest else rest

abbrev pub in_namespace : Option String → String → Bool
in_namespace none namespace = true
in_namespace (some wanted) namespace = str_eq namespace wanted

-- What the cache of controller-runtime documents: a list holds the objects whose index has the value,
-- in the namespace if one is given.
abbrev pub IsIndexed : {O : Type 0} → Lister O → (O → ProviderConfigRef) → List O → Type 0
IsIndexed {O} lister ref objects =
    (value : String) (namespace : Option String)
    → lister.list
        (record { field = provider_config_ref_index; value = value; in_namespace = namespace })
      ≡ ok (
          ok (
            select
              (λ o.
                listed value (index_provider_config_ref (ref o))
                && in_namespace namespace (lister.key o).namespace)
              objects))

-- A provider config of a namespace, or a cluster-wide one.
pub data Config : Type 0 where
  provider_config : String → String → Config
  cluster_provider_config : String → Config

-- Does a reference from this namespace name that config?
abbrev pub names : Config → ProviderConfigRef → String → Bool
names (provider_config namespace name) ref from =
    (str_eq ref.kind "" || str_eq ref.kind "ProviderConfig")
    && (str_eq ref.name name && str_eq from namespace)
names (cluster_provider_config name) ref from =
    str_eq ref.kind "ClusterProviderConfig" && str_eq ref.name name

-- The kinds that the schema allows.
abbrev pub IsKnownKind : String → Type 0
IsKnownKind kind = (kind ≡ "") ⊎ ((kind ≡ "ProviderConfig") ⊎ (kind ≡ "ClusterProviderConfig"))

key_same :
    (kind a b : String)
    → str_eq (provider_config_ref_key kind a) (provider_config_ref_key kind b) ≡ str_eq a b
unfolding provider_config_ref_key
key_same kind a b =
    same_truth _ _
      (λ h.
        (eq_iff a b).1 (append_cancel_left "/" a b (append_cancel_left _ _ _ ((eq_iff _ _).0 h))))
      (λ h. let e : a ≡ b = (eq_iff a b).0 h in rw (e, eq_refl) refl)

heads_apart : (a b : String) → "ProviderConfig/" <> a ≢ "ClusterProviderConfig/" <> b
heads_apart a b e =
    let heads : first_p ≡ first_c =
      (cons-eq-cons.0 (
        sym (cons-append first_p "roviderConfig/" a)
        ∙ e
        ∙ cons-append first_c "lusterProviderConfig/" b)).0 in
    absurd (omega (arith, ap code heads))

key_local : (a : String) → provider_config_ref_key "ProviderConfig" a ≡ "ProviderConfig/" <> a
unfolding provider_config_ref_key
key_local a = sym (append_assoc "ProviderConfig" "/" a)

key_cluster :
    (a : String) → provider_config_ref_key "ClusterProviderConfig" a ≡ "ClusterProviderConfig/" <> a
unfolding provider_config_ref_key
key_cluster a = sym (append_assoc "ClusterProviderConfig" "/" a)

key_other :
    (a b : String)
    → str_eq
        (provider_config_ref_key "ProviderConfig" a)
        (provider_config_ref_key "ClusterProviderConfig" b)
      ≡ false
key_other a b =
    same_truth _ false
      (λ h. absurd (heads_apart a b (sym (key_local a) ∙ (eq_iff _ _).0 h ∙ key_cluster b)))
      (λ h. cc h)

other_key :
    (a b : String)
    → str_eq
        (provider_config_ref_key "ClusterProviderConfig" a)
        (provider_config_ref_key "ProviderConfig" b)
      ≡ false
other_key a b =
    same_truth _ false
      (λ h. absurd (heads_apart b a (sym (key_local b) ∙ sym ((eq_iff _ _).0 h) ∙ key_cluster a)))
      (λ h. cc h)

key_default :
    (a : String) → provider_config_ref_key "" a ≡ provider_config_ref_key "ProviderConfig" a
unfolding provider_config_ref_key
key_default a = refl

-- The test of the index is the test whether the reference names the config.
abbrev indexed : Config → ProviderConfigRef → String → Bool
indexed (provider_config namespace name) ref from =
    listed (provider_config_ref_key "ProviderConfig" name) (index_provider_config_ref ref)
    && in_namespace (some namespace) from
indexed (cluster_provider_config name) ref from =
    listed (provider_config_ref_key "ClusterProviderConfig" name) (index_provider_config_ref ref)
    && in_namespace none from

indexed-names :
    (config : Config) (ref : ProviderConfigRef) (from : String)
    → IsKnownKind ref.kind
    → indexed config ref from ≡ names config ref from
unfolding index_provider_config_ref
indexed-names (provider_config namespace name) ref from (inl e) =
    rw
      (
        e,
        key_default ref.name,
        key_same "ProviderConfig" ref.name name,
        or_false (str_eq ref.name name),
      )
      refl
indexed-names (provider_config namespace name) ref from (inr (inl e)) =
    rw (e, key_same "ProviderConfig" ref.name name, or_false (str_eq ref.name name)) refl
indexed-names (provider_config namespace name) ref from (inr (inr e)) =
    rw (e, other_key ref.name name) refl
indexed-names (cluster_provider_config name) ref from (inl e) =
    rw (e, key_default ref.name, key_other ref.name name) refl
indexed-names (cluster_provider_config name) ref from (inr (inl e)) =
    rw (e, key_other ref.name name) refl
indexed-names (cluster_provider_config name) ref from (inr (inr e)) =
    rw (e, key_same "ClusterProviderConfig" ref.name name, or_false (str_eq ref.name name))
      (and_true (str_eq ref.name name))

module _ {O : Type 0} (lister : Lister O) (ref : O → ProviderConfigRef) where
  -- The objects of this kind that the event of a config requeues.
  abbrev pub requeued : Config → List Key
  requeued (provider_config namespace name) =
      watch_provider_configs lister (record { namespace = namespace; name = name })
  requeued (cluster_provider_config name) =
      watch_cluster_provider_configs lister (record { namespace = ""; name = name })

  select_same :
      (test other : O → Bool) (os : List O)
      → ((o : O) → test o ≡ other o)
      → select test os ≡ select other os
  select_same test other [] same = refl
  select_same test other (o ∷ os) same = rw (same o, select_same test other os same) refl

  requeued-indexed :
      (objects : List O) (config : Config)
      → IsIndexed lister ref objects
      → requeued config
        ≡ keys lister (select (λ o. indexed config (ref o) (lister.key o).namespace) objects)
  unfolding watch_provider_configs watch_cluster_provider_configs enqueue_referencers
      requests_matching requests_of
  requeued-indexed objects (provider_config namespace name) h =
      rw (h (provider_config_ref_key "ProviderConfig" name) (some namespace)) refl
  requeued-indexed objects (cluster_provider_config name) h =
      rw (h (provider_config_ref_key "ClusterProviderConfig" name) none) refl

  -- With what the cache documents of an index, and with references of the kinds that the schema
  -- allows, the event of a provider config requeues exactly the objects whose reference names it: a
  -- namespaced config those of its namespace that name it with its kind or with none, and a
  -- cluster-wide one those of every namespace that name it with its kind.
  pub requeued-names :
      (objects : List O) (config : Config)
      → IsIndexed lister ref objects
      → ((o : O) → IsKnownKind (ref o).kind)
      → requeued config
        ≡ keys lister (select (λ o. names config (ref o) (lister.key o).namespace) objects)
  requeued-names objects config h known =
      requeued-indexed objects config h
      ∙ ap (keys lister) (select_same _ _ objects (λ o. indexed-names config (ref o) _ (known o)))
