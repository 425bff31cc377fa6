-- ===== src/Api.antt =====
-- The HTTP handlers of internal/api/handlers. A response is its status code and its message; the
-- writing of JSON is left out. `parse_uuid` is `uuid.Parse`, and a request's body comes as what the
-- JSON decoder makes of it.
pub mod Hosts
pub mod Agents
pub mod Scopes
pub mod Registration
pub mod Rejection
