-- ===== src/Authx/Mongo.antt =====
-- v2/apiserver/internal/authx/mongodb: the stores.
pub mod Pages
pub mod UsersStore
pub mod ServiceAccountsStore
pub mod SessionsStore
pub mod RolesStore
