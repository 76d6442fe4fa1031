-- ===== src/Argproc/Total.antt =====
-- argproc/argproc.go: no proc string makes the parsers loop.
use scat.Argproc.Ends.{Ends}
