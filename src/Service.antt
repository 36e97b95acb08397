-- ===== src/Service.antt =====
-- pkg/service/service.go: jobs and their keys, the state of a query, the URL of a resource, the
-- job handler.
mod Examples
pub mod Url
pub mod Jobs
pub mod Handler
pub mod Changes
pub mod Keys
pub mod Queries
pub mod Instance
pub mod Construct
