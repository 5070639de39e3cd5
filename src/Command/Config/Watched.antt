-- ===== src/Command/Config/Watched.antt =====
-- Which namespaces the cache watches.
use signoz_operator.Prelude.{
  String, ◌≡◌, refl, ◌∙◌, Bool, true, false, not, ◌&&◌, ◌||◌, Option, none, some, List, [], ◌∷◌,
  Dict, get, put, get-put, str_eq, eq_refl, if◌then◌else◌, Bool-cases, inl, inr, or_true,
}
use signoz_operator.Core.{ProviderConfigRef}
use signoz_operator.ProviderConfig.Cache.{Read, Reader}
use signoz_operator.ProviderConfig.Refs.{Configs, resolve_ref}
use signoz_operator.ProviderConfig.Refs.Confined.{AllIn, resolve_ref-AllIn}
use signoz_operator.Command.Config.{
  Config, Host, CacheOptions, add_namespaces, namespaces_of, build_cache_options,
}

abbrev pub is_empty : List String → Bool
is_empty [] = true
is_empty (s ∷ ss) = false

abbrev is_some : {A : Type 0} → Option A → Bool
is_some none = false
is_some (some a) = true

abbrev covers : Option (Dict (Unit {0})) → String → Bool
covers none namespace = true
covers (some m) namespace = is_some (get m namespace)

-- Does the cache watch that namespace?
abbrev pub watches : CacheOptions → String → Bool
watches o namespace = covers o.default_namespaces namespace

same_branch : (b : Bool) → (if b then true else true) ≡ true
same_branch true = refl
same_branch false = refl

module _ (host : Host) where
  -- Is the namespace one of the list, without the spaces around it? An entry of spaces names none.
  abbrev pub asked : List String → String → Bool
  asked [] namespace = false
  asked (ns ∷ rest) namespace =
      (not (str_eq (host.trim_space ns) "") && str_eq (host.trim_space ns) namespace)
      || asked rest namespace

  either :
      (here there : Bool) (o : Option (Unit {0}))
      → (there || is_some (if here then some tt else o)) ≡ ((here || there) || is_some o)
  either true there o = or_true there
  either false there o = refl

  get-add_namespaces :
      (list : List String) (m : Dict (Unit {0})) (namespace : String)
      → is_some (get (add_namespaces host list m) namespace)
        ≡ (asked list namespace || is_some (get m namespace))
  unfolding add_namespaces
  get-add_namespaces [] m namespace = refl
  get-add_namespaces (ns ∷ rest) m namespace =
      let name = host.trim_space ns in
      elim (Bool-cases (str_eq name "")) [
        | inl blank ↦ rw blank (get-add_namespaces rest m namespace)
        | inr named ↦ rw named (
            get-add_namespaces rest (put m name tt) namespace
            ∙ rw (get-put m name namespace tt)
                (either (str_eq name namespace) (asked rest namespace) _))
      ]

  covers-namespaces_of :
      (list : List String) (operator_namespace namespace : String)
      → covers (namespaces_of host list operator_namespace) namespace ≡ (
          if is_empty list
          then true
          else asked list namespace || str_eq operator_namespace namespace)
  unfolding namespaces_of get
  covers-namespaces_of [] operator_namespace namespace = refl
  covers-namespaces_of (ns ∷ rest) operator_namespace namespace =
      rw (get-put (add_namespaces host (ns ∷ rest) []) operator_namespace namespace tt)
        (elim (Bool-cases (str_eq operator_namespace namespace)) [
          | inl own ↦ rw (own, or_true (asked (ns ∷ rest) namespace)) refl
          | inr other ↦ rw other (get-add_namespaces (ns ∷ rest) [] namespace)
        ])

  -- Without a list the cache watches every namespace. With one it watches those that the list names,
  -- spaces around a name aside, and the operator's, and no others.
  pub build_cache_options-watches :
      (c : Config) (namespace : String)
      → watches (build_cache_options host c) namespace ≡ (
          if is_empty c.watch_namespaces
          then true
          else asked c.watch_namespaces namespace || str_eq c.operator_namespace namespace)
  unfolding build_cache_options
  build_cache_options-watches c namespace =
      covers-namespaces_of c.watch_namespaces c.operator_namespace namespace

  operator_namespace-watched :
      (c : Config) → watches (build_cache_options host c) c.operator_namespace ≡ true
  operator_namespace-watched c =
      build_cache_options-watches c c.operator_namespace
      ∙ rw (eq_refl c.operator_namespace, or_true (asked c.watch_namespaces c.operator_namespace))
          (same_branch (is_empty c.watch_namespaces))

  either_watched :
      (c : Config) (namespace : String) (cluster : Bool)
      → watches (build_cache_options host c) namespace ≡ true
      → watches (build_cache_options host c) (if cluster then c.operator_namespace else namespace)
        ≡ true
  either_watched c namespace true watched = operator_namespace-watched c
  either_watched c namespace false watched = watched

  -- Every one of these reads goes to a namespace that the cache watches.
  abbrev pub AllWatched : CacheOptions → List Read → Type 0
  AllWatched o [] = Unit {0}
  AllWatched o (r ∷ rs) = (watches o r.namespace ≡ true) × AllWatched o rs

  all_watched :
      (o : CacheOptions) (namespace : String) (reads : List Read)
      → watches o namespace ≡ true
      → AllIn namespace reads
      → AllWatched o reads
  all_watched o namespace [] watched h = tt
  all_watched o namespace (r ∷ rs) watched (home, h) =
      (rw home watched, all_watched o namespace rs watched h)

  -- For an object of a namespace that the cache watches, resolving its reference reads Secrets and
  -- ConfigMaps only in namespaces that the cache watches, whatever the list of namespaces: a
  -- cluster-wide config reads in the operator's, which is always watched.
  pub resolve_ref-AllWatched :
      (c : Config) (reader : Reader) (configs : Configs) (ref : ProviderConfigRef)
      (namespace : String)
      → watches (build_cache_options host c) namespace ≡ true
      → AllWatched
          (build_cache_options host c)
          (resolve_ref reader configs ref namespace c.operator_namespace).1
  resolve_ref-AllWatched c reader configs ref namespace watched =
      all_watched _ _ _
        (either_watched c namespace (str_eq ref.kind "ClusterProviderConfig") watched)
        (resolve_ref-AllIn reader configs ref namespace c.operator_namespace)
