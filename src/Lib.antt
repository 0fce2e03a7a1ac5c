-- ===== src/Lib.antt =====
-- A model of servicer, a platform that lets tenants order and run managed services on Kubernetes,
-- in the parts that decide who may do what and what happens to a running service.
--
-- The program has two halves that meet in the API server: the BFF (internal/bff), which answers
-- users and stores resources, and the controllers (internal/controllers), which reconcile them. An
-- action on a service (backup, failover, ...) is submitted to the BFF, may have to be approved there,
-- and is executed by the controller of the action requests, which records each step in the status.
--
-- Prelude: tests, lists, texts (`strings.TrimSpace`, `Split`, `EqualFold`) and maps.
-- Json, Api: JSON values, and the resources of api/v1alpha1 with the fields that are used.
-- Auth: internal/bff/auth.go, the actor and the role checks; Auth.Expander is `roleExpander`. Its
--   recursion takes fuel, one more than the index has roles: each role of the index is entered once,
--   so the walk is never deeper.
-- Identity: internal/bff/authenticator.go, `resolveActor` with `matchUser`, `bindingAppliesToActor` and
--   `tenantVisibleLegacy`: the actor that a login becomes, from the users, groups, role bindings and
--   tenants of the cluster. It uses Auth.Expander; that no walk runs out of fuel is proved there.
-- Tenancy: internal/bff/authorization.go, the checks of single resources and the filters of lists.
-- Approval: internal/bff/writes.go, `handleSubmitAction` and `handleActionApproval`.
-- Limiter: internal/bff/security.go, `memoryLoginLimiter`. The mutex makes each operation atomic.
-- Pagination: internal/bff/pagination.go, and the cut of a list to a page in repositories.go.
-- Action: internal/controllers/actionrequest_controller.go, from `Reconcile` on. Action.Status has
--   the functions that a status patch applies, Action.Resolve `resolveAction`, Action.Backup the
--   reading of CloudNativePG backups, Action.World the API server as the reconciler meets it, with
--   conflicts, errors, clients' edits and stale reads as a sequence of events, and the executions so
--   far; Action.Reconcile the reconciler, as a function from that world to the next. The reconciler
--   reads its action requests through the cache of the manager (cmd/manager/main.go), which may lag
--   behind the API server: a `stale` event is a read of whatever such a cache holds, and theorems
--   that need each read to see what is stored say so. Action.Reconcile.Stale is about the reads that
--   do not. The other resources are read from a parameter, so a read may be of any time. The rounds
--   of `retry.RetryOnConflict` are a number of the environment, and theorems that need a round say
--   so.
-- Failover: the same file, the failover of Valkey and of MySQL. The rounds of the patch are a list.
-- Webhook: api/v1alpha1/webhook_validation.go. Webhook.Problems is `field.ErrorList`, Webhook.Checks
--   has the checks and defaults that kinds share, Webhook.Access, Catalog, Tenants, Instances and
--   Policies the kinds; Webhook.Admission puts them together as the webhooks of sixteen kinds, and its
--   children follow an object through creation and updates.
-- Policy: internal/controllers/policy_evaluator.go. Policy.Rules is one rule, Policy.Context the values
--   it sees, Policy.Constraints a plan's constraints, Policy.Evaluator `evaluateInstancePolicies`.
-- Quota: internal/controllers/quota_profiles.go and `enforceProjectQuota` of
--   internal/controllers/serviceinstance_controller.go, with the count as an `int32`.
-- Packages: internal/controllers/operator_package_dependencies.go, the operator packages that a cluster
--   needs and whether they are there; Packages.Install is `reconcilePackages` of
--   internal/controllers/clustertarget_controller.go, with the target cluster as a parameter.
-- Provision: internal/controllers/serviceinstance_controller.go, from the references of an instance to
--   its rendered artifacts. Provision.Gates has the checks of `Reconcile` in their order, which use
--   Policy, Quota and Packages; a call that ends early is an error value with the status it writes.
-- Examples: each theorem at a concrete input.
--
-- Parameters of the model: the reads of the cluster, the clock, `apimeta.SetStatusCondition`,
-- `equality.Semantic.DeepEqual` (sound where a theorem says so), what the merge patch of
-- `client.MergeFrom` makes of a stored status, `encoding/json` for the parameters
-- of MySQL and of policies, `fmt.Sprint`, `strconv.ParseFloat` and `float64`, the environment's
-- variables, the label syntax of `validation`, the tables of the adapters, what an execution does
-- at its product, and the adapters. Texts of messages,
-- log lines, metrics and annotations are left out.
--
-- Not modelled: the products' manifests (internal/adapters), the other controllers, sessions and the
-- protocols of identity providers (the rest of internal/bff/authenticator.go), the HTTP layer, Git delivery
-- (internal/deliveryrepo), and the entry points (cmd): they are mostly I/O through libraries.
pub mod Prelude
pub mod Json
pub mod Api
pub mod Auth
pub mod Tenancy
pub mod Failover
pub mod Action
pub mod Approval
pub mod Limiter
pub mod Pagination
pub mod Examples
pub mod Identity
pub mod Webhook
pub mod Policy
pub mod Quota
pub mod Packages
pub mod Provision
