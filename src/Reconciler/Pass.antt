-- ===== src/Reconciler/Pass.antt =====
-- The reconciler of common_reconciler.go with its collaborators, and the state of one pass. What
-- the API server, the provider config resolver and SigNoz answer is an arbitrary function of all
-- calls made so far, newest first, and of the arguments; each call is recorded with its answer.
use signoz_operator.Prelude.{ℕ, String, Option, none, some, List, ℤ, RawMessage, Formatting}
use signoz_operator.Errors.{Error, Result}
use signoz_operator.Kube.{Kube}
use signoz_operator.Core.{ProviderConfigRef, SigNozResource}
use signoz_operator.ProviderConfig.Resolved.{ResolvedProviderConfigSpec}
use signoz_operator.Clients.{Client}
use signoz_operator.Resources.Object.{Object, Kind}

-- A context by the timeouts set on it, the innermost first; none for context.WithoutCancel.
pub record Context : Type 0 where
  pub timeouts : List ℤ

-- ctrl.Result and the error of a pass.
pub record Return : Type 0 where
  pub requeue_after : ℤ
  pub error : Option Error

-- A call with its answer. The API server answers a write with the object as it stands then.
pub data Event (T : Type 0) : Type 0 where
  updated : Context → Object T → Result (Object T) → Event T
  patched : Context → Object T → Object T → Result (Object T) → Event T
  status_updated : Context → Object T → Result (Object T) → Event T
  resolved :
      Context → ProviderConfigRef → String → String → Result ResolvedProviderConfigSpec → Event T
  found : Context → Client → Object T → Result (List (Option SigNozResource)) → Event T
  created : Context → Client → Object T → Result (Option SigNozResource) → Event T
  read : Context → Client → Object T → Option SigNozResource → Result RawMessage → Event T
  remote_updated : Context → Client → Object T → Option SigNozResource → Option Error → Event T
  remote_deleted : Context → Client → Object T → Option SigNozResource → Option Error → Event T

-- client.Client: Update, Patch with the object before the change, and Status().Update.
pub record KubeClient (T : Type 0) : Type 0 where
  pub update : List (Event T) → Context → Object T → Result (Object T)
  pub patch : List (Event T) → Context → Object T → Object T → Result (Object T)
  pub update_status : List (Event T) → Context → Object T → Result (Object T)

-- providerconfig.Resolver's ResolveRef.
pub record Resolver (T : Type 0) : Type 0 where
  pub resolve_ref :
      List (Event T)
      → Context
      → ProviderConfigRef
      → String
      → String
      → Result ResolvedProviderConfigSpec

-- resources.Adapter.
pub record Adapter (T : Type 0) : Type 0 where
  pub find : List (Event T) → Context → Client → Object T → Result (List (Option SigNozResource))
  pub create : List (Event T) → Context → Client → Object T → Result (Option SigNozResource)
  pub read :
      List (Event T) → Context → Client → Object T → Option SigNozResource → Result RawMessage
  pub update : List (Event T) → Context → Client → Object T → Option SigNozResource → Option Error
  pub delete : List (Event T) → Context → Client → Object T → Option SigNozResource → Option Error

-- commonReconciler. The clock, the kind of the object and the library helpers stand here too.
pub record CommonReconciler (T : Type 0) : Type 0 where
  pub client : KubeClient T
  pub resolver : Resolver T
  pub adapter : Adapter T
  pub default_interval : ℤ
  pub default_retry_interval : ℤ
  pub default_timeout : ℤ
  pub requeue_after_on_not_found : ℤ
  pub operator_namespace : String
  pub clock : List (Event T) → ℕ
  pub kind : Kind T
  pub kube : Kube
  pub formatting : Formatting

-- NewCommonReconciler sets requeue_after_on_not_found to one second.
abbrev pub new_common_reconciler :
    {T : Type 0}
    → KubeClient T
    → Resolver T
    → Adapter T
    → ℤ
    → ℤ
    → ℤ
    → String
    → (List (Event T) → ℕ)
    → Kind T
    → Kube
    → Formatting
    → CommonReconciler T
new_common_reconciler c r a interval retry_interval timeout namespace clock kind kube fmt = record {
  client = c;
  resolver = r;
  adapter = a;
  default_interval = interval;
  default_retry_interval = retry_interval;
  default_timeout = timeout;
  requeue_after_on_not_found = ℤ.pos 1_000_000_000;
  operator_namespace = namespace;
  clock = clock;
  kind = kind;
  kube = kube;
  formatting = fmt;
}

-- The object in memory and the calls made, newest first.
pub record Pass (T : Type 0) : Type 0 where
  pub obj : Object T
  pub calls : List (Event T)

abbrev pub Step : Type 0 → Type 0 → Type 0
Step T A = Pass T → A × Pass T

module _ {T A : Type 0} where
  abbrev pub pure : A → Step T A
  pure a s = (a, s)

  abbrev pub gets : (Pass T → A) → Step T A
  gets f s = (f s, s)

module _ {T A B : Type 0} where
  infixl 5 ◌>>=◌
  abbrev pub ◌>>=◌ : Step T A → (A → Step T B) → Step T B
  ◌>>=◌ m f s = let (a, s') = m s in f a s'

module _ {T B : Type 0} where
  infixl 5 ◌>>◌
  abbrev pub ◌>>◌ : Step T (Unit {0}) → Step T B → Step T B
  ◌>>◌ m k s = k (m s).1

module _ {T : Type 0} where
  abbrev pub modify : (Object T → Object T) → Step T (Unit {0})
  modify f s = (tt, record s { obj = f s.obj })

-- The returns of the methods.
abbrev pub done : Return
done = record { requeue_after = ℤ.pos 0; error = none }

abbrev pub requeue : ℤ → Return
requeue d = record { requeue_after = d; error = none }

abbrev pub failed : Error → Return
failed e = record { requeue_after = ℤ.pos 0; error = some e }
