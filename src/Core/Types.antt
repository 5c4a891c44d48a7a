-- ===== src/Core/Types.antt =====
-- The data of v2/apiserver/internal/core, passed on from one module for each source file.
mod Workers
mod Jobs
mod Projects
mod Events
unfoldable pub use Workers.*
unfoldable pub use Jobs.*
unfoldable pub use Projects.*
unfoldable pub use Events.*
