-- ===== src/Network/Process/Start.antt =====
-- How far main gets.
use cs.Network.Routes.{Routes}
