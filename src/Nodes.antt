-- ===== src/Nodes.antt =====
-- The administered Pi-hole nodes: their rows in the database (backend/internal/store/pihole.go),
-- the service that keeps the cluster in step with them (service/piholeservice), the handler in
-- front of it (handler/piholehandler), and the clients made at the start (app/client.go).
pub mod Store
pub mod Service
pub mod Handler
pub mod Sample
mod Tests
