-- ===== src/Socks/Tests.antt =====
-- A packet on concrete input.
use proxy_py.Base.{◌≡◌, arith, Bytes, ok}
use proxy_py.Bytes.{codes}
use proxy_py.Socks.{parse, pack, new_packet}
use proxy_py.Socks.RoundTrip.{request, parse-pack}

parse-pack_example :
    (raw : Bytes) × (pack (request 1 80 127 0 0 1 (codes "me")) ≡ ok raw)
    × (parse new_packet raw ≡ ok (request 1 80 127 0 0 1 (codes "me")))
parse-pack_example = parse-pack 1 80 127 0 0 1 (codes "me") (omega arith) (omega arith)
