-- ===== src/Rest.antt =====
-- v2/apiserver/internal/lib/restmachinery: how endpoints answer, and the filter on tokens.
pub mod Endpoints
pub mod TokenAuth
pub mod Requests
