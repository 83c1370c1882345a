-- ===== src/Service/Permissions.antt =====
-- The administrative requests of internal/service/auth and what their actors are allowed.
use nexus_control.Service.Sessions.{Service}
