-- ===== src/Proxy.antt =====
-- crates/hub/src/main.rs, jobs.rs and capability.rs: the endpoints that send an action to a device,
-- or grant it. Endpoints has them, Jobs the requests about a job, Calls
-- what is to hold of each request; Gated is a proof.
mod Endpoints
mod Jobs
mod Calls
mod Gated
mod Examples
