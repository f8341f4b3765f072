-- ===== src/Api.antt =====
-- The handlers of backend/internal/handler but those of nodes and users: domainrulehandler with
-- service/domainruleservice and queryloghandler with service/querylogservice, where the services only
-- pass the calls on, authhandler and setuphandler (Logins), eventshandler with eventsservice
-- (Events), and parts of frontendhandler (Frontend).
pub mod DomainRules
pub mod QueryLogs
pub mod Logins
pub mod Events
pub mod Frontend
