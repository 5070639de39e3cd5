-- ===== src/ProviderConfig/Resolver/Reads.antt =====
-- How often one resolution reads each object of the API server.
use signoz_operator.Prelude.{
  listed, ◌≤◌, String, ◌≡◌, refl, arith, true, Option, none, some, List, [], ◌∷◌, get, str_eq,
  eq_iff, eq_refl, Bool-cases, inl, inr,
}
use signoz_operator.Errors.{Error, Result, ok, err}
use signoz_operator.ProviderConfig.Spec.{ProviderConfigSpec, secret_names, config_map_names}
use signoz_operator.ProviderConfig.Cache.{
  RefKind, secret_kind, config_map_kind, Referent, Reader, Cache, slots_of, record_read, fetch,
  recall, referent,
}
use signoz_operator.ProviderConfig.Cache.Once.{
  same_kind, times_read, is_known, Counted, referent-Counted,
}
use signoz_operator.ProviderConfig.Resolver.{read_all, new_cache, resolve_fields, resolve}
use signoz_operator.ProviderConfig.Resolver.Kept.{
  read_all-Keeps, resolve_fields-Keeps, resolve-Keeps,
}

-- The names that a spec references, in the order in which they are read.
abbrev pub names_of : Reader → ProviderConfigSpec → RefKind → List String
names_of reader spec secret_kind = reader.range (secret_names spec)
names_of reader spec config_map_kind = reader.range (config_map_names spec)

AllCounted : Cache → Type 0
AllCounted c = (k : RefKind) (n : String) → Counted c k n

-- The object was read, and no object was read twice.
WasRead : RefKind → String → Cache → Type 0
unfolding AllCounted
WasRead kind name c = AllCounted c × (1 ≤ times_read kind name c.reads)

same_kind_refl : (kind : RefKind) → same_kind kind kind ≡ true
same_kind_refl secret_kind = refl
same_kind_refl config_map_kind = refl

times_read_le : (c : Cache) (k : RefKind) (n : String) → Counted c k n → times_read k n c.reads ≤ 1
times_read_le c k n h = elim (Bool-cases (is_known k n c)) [
  | inl known ↦ let once : times_read k n c.reads ≡ 1 = rw known at h in omega (arith, once)
  | inr unknown ↦ let never : times_read k n c.reads ≡ 0 = rw unknown at h in omega (arith, never)
]

known_once :
    (c : Cache) (k : RefKind) (n : String)
    → Counted c k n
    → is_known k n c ≡ true
    → times_read k n c.reads ≡ 1
known_once c k n h known = rw known at h

module _ (reader : Reader) where
  pub reads-record_read :
      (kind : RefKind) (name : String) (answer : Result Referent) (c : Cache)
      → (record_read reader kind name answer c).1.reads ≡ c.reads
  unfolding record_read
  reads-record_read secret_kind name (ok o) c = refl
  reads-record_read secret_kind name (err e) c = refl
  reads-record_read config_map_kind name (ok o) c = refl
  reads-record_read config_map_kind name (err e) c = refl

  pub namespace-record_read :
      (kind : RefKind) (name : String) (answer : Result Referent) (c : Cache)
      → (record_read reader kind name answer c).1.namespace ≡ c.namespace
  unfolding record_read
  namespace-record_read secret_kind name (ok o) c = refl
  namespace-record_read secret_kind name (err e) c = refl
  namespace-record_read config_map_kind name (ok o) c = refl
  namespace-record_read config_map_kind name (err e) c = refl

  module _ (kind : RefKind) (name : String) (k : RefKind) (n : String) where
    recall_grows :
        (e : Option Error) (o : Option Referent) (c : Cache)
        → times_read k n c.reads ≤ times_read k n (recall reader kind name e o c).1.reads
    unfolding recall fetch
    recall_grows (some e) o c = omega arith
    recall_grows none (some o) c = omega arith
    recall_grows none none c = rw (reads-record_read kind name _ _) (omega arith)

    referent_grows :
        (c : Cache) → times_read k n c.reads ≤ times_read k n (referent reader kind name c).1.reads
    unfolding referent
    referent_grows c = recall_grows _ _ c

  recall_reads :
      (kind : RefKind) (name : String) (e : Option Error) (o : Option Referent) (c : Cache)
      → get (slots_of kind c).errs name ≡ e
      → get (slots_of kind c).objects name ≡ o
      → Counted c kind name
      → 1 ≤ times_read kind name (recall reader kind name e o c).1.reads
  unfolding recall fetch
  recall_reads kind name (some e) o c p q h = omega (arith, known_once c kind name h (rw p refl))
  recall_reads kind name none (some o) c p q h =
      omega (arith, known_once c kind name h (rw (p, q) refl))
  recall_reads kind name none none c p q h =
      rw (reads-record_read kind name _ _) (rw (same_kind_refl kind, eq_refl) (omega arith))

  AllCounted-referent :
      (kind : RefKind) (name : String) (c : Cache)
      → AllCounted c
      → AllCounted (referent reader kind name c).1
  unfolding AllCounted
  AllCounted-referent kind name c h = referent-Counted reader name kind c h

  WasRead-referent :
      (k : RefKind) (n : String) (kind : RefKind) (name : String) (c : Cache)
      → WasRead k n c
      → WasRead k n (referent reader kind name c).1
  unfolding WasRead
  WasRead-referent k n kind name c (h, read) =
      (AllCounted-referent kind name c h, omega (arith, referent_grows kind name k n c))

  referent-WasRead :
      (kind : RefKind) (name : String) (c : Cache)
      → AllCounted c
      → WasRead kind name (referent reader kind name c).1
  unfolding WasRead referent AllCounted
  referent-WasRead kind name c h =
      (AllCounted-referent kind name c h, recall_reads kind name _ _ c refl refl (h kind name))

  read_all-WasRead :
      (kind : RefKind) (names : List String) (name : String) (c : Cache)
      → listed name names ≡ true
      → AllCounted c
      → WasRead kind name (read_all reader kind names c)
  unfolding read_all
  read_all-WasRead kind [] name c p h = cc
  read_all-WasRead kind (n ∷ ns) name c p h = elim (Bool-cases (str_eq n name)) [
    | inl here ↦
        let e : n ≡ name = (eq_iff n name).0 here in
        read_all-Keeps reader (WasRead kind name) (WasRead-referent kind name) kind ns _
          (rw e (referent-WasRead kind name c h))
    | inr there ↦
        read_all-WasRead kind ns name _ (ground (arith, there, p)) (AllCounted-referent kind n c h)
  ]

  new_cache-AllCounted : (namespace : String) → AllCounted (new_cache reader namespace)
  unfolding AllCounted new_cache get
  new_cache-AllCounted namespace secret_kind n = refl
  new_cache-AllCounted namespace config_map_kind n = refl

  fields_read :
      (k : RefKind) (n : String) (spec : ProviderConfigSpec) (c : Cache)
      → WasRead k n c
      → times_read k n (resolve_fields reader spec c).1.reads ≡ 1
  unfolding WasRead AllCounted
  fields_read k n spec c h =
      let (all, read) = resolve_fields-Keeps reader (WasRead k n) (WasRead-referent k n) spec c h in
      omega (arith, read, times_read_le _ k n (all k n))

  -- In one resolution no Secret and no ConfigMap is read twice, whatever the answers, not even one
  -- whose read failed.
  pub resolve-reads_once :
      (namespace : String) (spec : ProviderConfigSpec) (kind : RefKind) (name : String)
      → times_read kind name (resolve reader namespace spec).1.reads ≤ 1
  unfolding AllCounted
  resolve-reads_once namespace spec kind name = times_read_le _ kind name (
      resolve-Keeps reader AllCounted AllCounted-referent namespace spec
        (new_cache-AllCounted namespace) kind name)

  -- Each Secret and ConfigMap that is in the spec's list of names is read exactly once, also if the
  -- resolution fails at a field before it.
  pub resolve-reads_all :
      (namespace : String) (spec : ProviderConfigSpec) (kind : RefKind) (name : String)
      → listed name (names_of reader spec kind) ≡ true
      → times_read kind name (resolve reader namespace spec).1.reads ≡ 1
  unfolding resolve
  resolve-reads_all namespace spec secret_kind name p = fields_read secret_kind name spec _ (
      read_all-Keeps reader (WasRead secret_kind name) (WasRead-referent secret_kind name) _ _ _
        (read_all-WasRead secret_kind _ name _ p (new_cache-AllCounted namespace)))
  resolve-reads_all namespace spec config_map_kind name p =
      fields_read config_map_kind name spec _ (
        read_all-WasRead config_map_kind _ name _ p (
          read_all-Keeps reader AllCounted AllCounted-referent _ _ _
            (new_cache-AllCounted namespace)))
