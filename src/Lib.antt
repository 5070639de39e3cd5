-- ===== src/Lib.antt =====
-- Verification of the SigNoz operator, the Kubernetes operator that mirrors custom resources
-- (dashboards, rules, users, roles and others) into a SigNoz instance through its HTTP API.
--
-- The parts of the program and the files that model them:
--   Errors      internal/errors: reasons, codes, the error with what it wraps, and the error of
--               an HTTP response (Errors/Http has its theorems).
--   Kube        the condition and finalizer helpers of the API machinery, which are parameters;
--               Kube/Laws has their documented behaviour, as named hypotheses.
--   Core        api/resources/v1alpha1/core.go: the spec and status that every resource shares.
--   Resources   internal/resources: outcomes and reasons (Reason), the conditions that an
--               outcome sets (Condition), and the interface of an object (Object).
--   ProviderConfig
--               api/resources/v1alpha1/providerconfig_types.go (Spec), internal/providerconfig
--               (Resolved, Status) and its resolvers (Cache, Resolver, Refs).
--   Clients     internal/clients/signoz.go: the client, and its method Exchange with its
--               libraries as parameters; Exchange/Contract says what its interface promises.
--   Adapters    internal/resources/adapters: the exchanges with SigNoz (Exchange), the lookups
--               by identity (Find, Kinds) and the shared transport (Transport).
--   Reconciler  internal/resources/reconcilers/common_reconciler.go: Pass has the collaborators
--               and the state of a pass, Calls the calls that it makes, Existing, New and
--               Finalize the methods for an object that is known, new or deleted, and Reconcile
--               the whole pass.
--   JsonBody    internal/jsonbody: JSON values (Value), the comparison (Diff), dotted paths
--               (Paths), and Render, ExtractFields and Hash (Render). go-cmp, gjson and
--               encoding/json are parameters.
--   Objects     internal/resources/objects: the methods that the ten generated files share, and
--               the ten objects (Kinds).
--   Specs       api/resources/v1alpha1: the typed specs of the ten kinds and the JSON of their
--               struct tags: six in Kinds, the four larger ones in a module each.
--   Controllers internal/controller/resources: which objects an event requeues (Watches), and
--               Reconcile and SetupWithManager of each controller (Reconcilers).
--   Command     cmd and internal/config: the configuration and what is built of it (Config), the
--               merge of flags and environment (Flags), and the start of the manager (Run).
--   Samples     concrete collaborators and objects; Examples has the theorems at these.
-- How they interact: a pass (Reconciler) resolves the provider config of its object into a
-- client, asks the object (Resources/Object) for its identity and body, calls SigNoz through the
-- adapter, writes the object through the API server, and turns what it met into one outcome,
-- whose conditions (Resources/Condition) it writes to the object's status. The errors that it
-- meets come from Errors. The objects (Objects) render and compare their bodies by JsonBody, the
-- adapter's requests go through the client (Clients), and Command starts the manager whose
-- Controllers call the passes.
--
-- The environment. The API server, SigNoz, the resolver and the clock of a pass are functions of
-- the calls made so far, newest first, so an answer may be anything at any time, also another
-- one for the same call. A method is a function from the state of the pass (the object in memory
-- and the calls made) to its return and the next state. A theorem about the calls is thus a
-- theorem about every interleaving with other writers that the answers can show. The reader of
-- the resolver is modelled the same way.
--
-- Conventions. A pointer that may be nil is an `Option`, a Go map an association list, and a
-- duration an integer. A method that branches on a result is split where it does, so that
-- `after_read` is what onExistingObject does after its read. Each function is structural; the
-- walk over the pages of a list runs on fuel, one unit for each page, and Adapters/Find/Pages
-- says how much is enough. Instants and generations are natural numbers.
--
-- Not modelled: log lines; the deep copies of the API types, since the values of the model are not
-- shared; what controller-runtime does with a controller once it is built; and the test doubles.
pub mod Prelude
pub mod Errors
pub mod Kube
pub mod Core
pub mod Resources
pub mod ProviderConfig
pub mod Clients
pub mod Adapters
pub mod JsonBody
pub mod Objects
pub mod Specs
pub mod Reconciler
pub mod Controllers
pub mod Command
pub mod Samples
mod Examples
