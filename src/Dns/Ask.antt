-- ===== src/Dns/Ask.antt =====
-- Which server is asked for a name.
use antop.Addr.{Addr}
use antop.Node.{Node}
