-- ===== src/Webhook.antt =====
-- api/v1alpha1/webhook_validation.go: what the admission webhooks fill in, and what they let in.
-- An object is its specification, with the object's name where a webhook reads it. A Go map is its
-- entries in the order in which a `range` happens to give them. Of a problem that a webhook reports the
-- type and the field are kept, the bad value and the text are not.
pub mod Problems
pub mod Checks
pub mod Access
pub mod Catalog
pub mod Tenants
pub mod Instances
pub mod Policies
pub mod Admission
