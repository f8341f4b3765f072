-- ===== src/Pihole.antt =====
-- backend/internal/pihole: the client of one Pi-hole, the cluster of them and its cursors.
pub mod Rule
pub mod Types
pub mod Cursor
pub mod Client
pub mod Cluster
