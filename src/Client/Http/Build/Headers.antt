-- ===== src/Client/Http/Build/Headers.antt =====
-- The headers of a client that was built.
use jsonrpseex.Client.Http.Build.{Client}
