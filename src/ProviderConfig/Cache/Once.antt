-- ===== src/ProviderConfig/Cache/Once.antt =====
-- No referenced object is read twice in one resolution.
use signoz_operator.Prelude.{
  ℕ, ◌+◌, String, ◌≡◌, refl, arith, Bool, true, false, ◌||◌, ◌&&◌, Option, none, some, List, [],
  ◌∷◌, get, get-put, str_eq, eq_iff, if◌then◌else◌, Bool-cases, inl, inr,
}
use signoz_operator.Errors.{Error, Result, ok, err}
use signoz_operator.ProviderConfig.Cache.{
  RefKind, secret_kind, config_map_kind, Referent, Read, Reader, Cache, slots_of, read_error,
  record_read, fetch, recall, referent,
}

abbrev pub same_kind : RefKind → RefKind → Bool
same_kind secret_kind secret_kind = true
same_kind config_map_kind config_map_kind = true
same_kind _ _ = false

-- How often this object was read.
abbrev pub times_read : RefKind → String → List Read → ℕ
times_read kind name [] = 0
times_read kind name (r ∷ rs) =
    (if same_kind r.kind kind && str_eq r.name name then 1 else 0) + times_read kind name rs

abbrev pub is_set : {A : Type 0} → Option A → Bool
is_set none = false
is_set (some a) = true

-- Is the object, or its failure, remembered?
abbrev pub is_known : RefKind → String → Cache → Bool
is_known kind name c =
    is_set (get (slots_of kind c).errs name) || is_set (get (slots_of kind c).objects name)

-- Exactly the objects that are remembered were read, once each.
abbrev pub Counted : Cache → RefKind → String → Type 0
Counted c kind name = times_read kind name c.reads ≡ (if is_known kind name c then 1 else 0)

is_known_reads :
    (k : RefKind) (n : String) (c : Cache) (reads : List Read)
    → is_known k n (record c { reads = reads }) ≡ is_known k n c
is_known_reads secret_kind n c reads = refl
is_known_reads config_map_kind n c reads = refl

module _ (reader : Reader) (name : String) where
  first_read :
      (kind : RefKind) (c : Cache) (k : RefKind) (n : String)
      → is_known kind name c ≡ false
      → Counted c k n
      → (if same_kind kind k && str_eq name n then 1 else 0) + times_read k n c.reads
        ≡ (if (same_kind kind k && str_eq name n) || is_known k n c then 1 else 0)
  first_read secret_kind c secret_kind n fresh h = elim (Bool-cases (str_eq name n)) [
    | inl same ↦
        let e : name ≡ n = (eq_iff name n).0 same in
        let none_read : times_read secret_kind n c.reads ≡ 0 = rw (rw e at fresh) at h in
        rw same (omega (arith, none_read))
    | inr other ↦ rw other (omega (arith, h))
  ]
  first_read config_map_kind c config_map_kind n fresh h = elim (Bool-cases (str_eq name n)) [
    | inl same ↦
        let e : name ≡ n = (eq_iff name n).0 same in
        let none_read : times_read config_map_kind n c.reads ≡ 0 = rw (rw e at fresh) at h in
        rw same (omega (arith, none_read))
    | inr other ↦ rw other (omega (arith, h))
  ]
  first_read secret_kind c config_map_kind n fresh h = omega arith
  first_read config_map_kind c secret_kind n fresh h = omega arith

  record_read-Counted :
      (kind : RefKind) (answer : Result Referent) (c : Cache) (k : RefKind) (n : String)
      → times_read k n c.reads
        ≡ (if (same_kind kind k && str_eq name n) || is_known k n c then 1 else 0)
      → Counted (record_read reader kind name answer c).1 k n
  unfolding record_read
  record_read-Counted secret_kind (ok o) c secret_kind n h =
      ground (arith, get-put c.secrets.objects name n o)
  record_read-Counted secret_kind (err e) c secret_kind n h =
      ground
        (arith, get-put c.secrets.errs name n (read_error reader secret_kind c.namespace name e))
  record_read-Counted config_map_kind (ok o) c config_map_kind n h =
      ground (arith, get-put c.config_maps.objects name n o)
  record_read-Counted config_map_kind (err e) c config_map_kind n h = ground (
    arith,
    get-put c.config_maps.errs name n (read_error reader config_map_kind c.namespace name e),
  )
  record_read-Counted secret_kind (ok o) c config_map_kind n h = h
  record_read-Counted secret_kind (err e) c config_map_kind n h = h
  record_read-Counted config_map_kind (ok o) c secret_kind n h = h
  record_read-Counted config_map_kind (err e) c secret_kind n h = h

  -- A read of an object that is not remembered is its first.
  fetch-Counted :
      (kind : RefKind) (c : Cache)
      → is_known kind name c ≡ false
      → ((k : RefKind) (n : String) → Counted c k n)
      → (k : RefKind) (n : String) → Counted (fetch reader kind name c).1 k n
  unfolding fetch
  fetch-Counted kind c fresh h k n =
      record_read-Counted kind _ _ k n
        (rw (is_known_reads k n c _) (first_read kind c k n fresh (h k n)))

  recall-Counted :
      (kind : RefKind) (e : Option Error) (o : Option Referent) (c : Cache)
      → get (slots_of kind c).errs name ≡ e
      → get (slots_of kind c).objects name ≡ o
      → ((k : RefKind) (n : String) → Counted c k n)
      → (k : RefKind) (n : String) → Counted (recall reader kind name e o c).1 k n
  unfolding recall
  recall-Counted kind (some e) o c p q h = h
  recall-Counted kind none (some o) c p q h = h
  recall-Counted kind none none c p q h = fetch-Counted kind c (rw (p, q)) h

  pub referent-Counted :
      (kind : RefKind) (c : Cache)
      → ((k : RefKind) (n : String) → Counted c k n)
      → (k : RefKind) (n : String) → Counted (referent reader kind name c).1 k n
  unfolding referent
  referent-Counted kind c h = recall-Counted kind _ _ c refl refl h
