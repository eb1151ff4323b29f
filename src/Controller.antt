-- ===== src/Controller.antt =====
-- internal/controller: the metadata of the cluster, and the commands that change it.
pub mod Assignment
pub mod Commands
pub mod Bootstrap
mod Examples
