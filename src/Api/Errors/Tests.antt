-- ===== src/Api/Errors/Tests.antt =====
-- An error that nobody planned.
use lux_ledger_demo.Common.{codes}
use lux_ledger_demo.Common.Json.{Json, str, obj, field, end}

abbrev broken : Json
broken = obj (field (codes "message") (str (codes "connect ECONNREFUSED")) end)
