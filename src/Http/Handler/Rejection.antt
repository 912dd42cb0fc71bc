-- ===== src/Http/Handler/Rejection.antt =====
-- A first request that the parser does not accept.
use proxy_py.Base.{
  ℕ, ◌+◌, ◌≡◌, refl, ap, ◌∙◌, true, false, none, some, arith, ◌==◌, Bytes, Raised, Result, ok,
  raise,
}
use proxy_py.Bytes.{is_empty}
use proxy_py.Core.Connection.{queue, recv, has_buffer}
use proxy_py.Core.Server.{after_data}
use proxy_py.Http.Message.{complete}
use proxy_py.Http.Parser.{parse, is_state}
use proxy_py.Http.Responses.{bad_request, response_of}
use proxy_py.Http.Handler.{
  HttpHandler, Plugins, queue_packet, after_recv, after_handled, handle_data, parse_first_request,
  handle_readables,
}

pub recv-some :
    (receive : ℕ → Result Bytes) (size : ℕ) (raw : Bytes)
    → receive size ≡ ok raw
    → is_empty raw ≡ false
    → recv receive size ≡ ok (some raw)
unfolding recv
recv-some receive size raw got some_data = rw got (rw some_data refl)

suc_not_zero : (n : ℕ) → (n + 1 == 0) ≡ false
suc_not_zero n = ground arith

module _ {P : Type 0} where
  handle_data-rejected :
      (fuel : ℕ) (plugins : Plugins P) (agent raw : Bytes) (h : HttpHandler P) (e : Raised)
      → is_state h.request.state complete ≡ false
      → parse fuel h.request raw none ≡ some (raise e)
      → handle_data fuel plugins agent raw h
        ≡ some (
          queue_packet
              (bad_request agent)
              (record h { request = plugins.half_parsed h.request raw }),
          ok true,
        )
  unfolding handle_data parse_first_request response_of
  handle_data-rejected fuel plugins agent raw h e fresh refused = rw fresh (rw refused refl)

  pub closes :
      (packet : Bytes) (h : HttpHandler P)
      → some (after_handled (queue_packet packet h, ok true))
        ≡ some (
            ok (
              record h {
                server = record {
                  work = queue packet h.server.work;
                  must_flush_before_shutdown = true;
                };
              },
              false,
            ))
  unfolding queue_packet after_data has_buffer queue
  closes packet h = rw (suc_not_zero h.server.work.num_buffer) refl

  -- Whatever the parser raises on a first request: the handler of the events goes on with the same plugin and with
  -- whatever the parser has left in the request, the answer to a bad request stands behind what the client is
  -- owed, and the connection will close once all of it has been sent. What the socket gives is not empty.
  pub handle_readables-rejected :
      (fuel : ℕ) (plugins : Plugins P) (agent : Bytes) (receive : ℕ → Result Bytes)
      (client_recvbuf_size : ℕ) (h : HttpHandler P) (raw : Bytes) (e : Raised)
      → is_state h.request.state complete ≡ false
      → receive client_recvbuf_size ≡ ok raw
      → is_empty raw ≡ false
      → parse fuel h.request raw none ≡ some (raise e)
      → handle_readables fuel plugins agent receive client_recvbuf_size true h
        ≡ some (
            ok (
              record h {
                server = record {
                  work = queue (bad_request agent) h.server.work;
                  must_flush_before_shutdown = true;
                };
                request = plugins.half_parsed h.request raw;
              },
              false,
            ))
  unfolding handle_readables
  handle_readables-rejected fuel plugins agent receive client_recvbuf_size h raw e fresh got
        some_data refused =
      ap (after_recv fuel plugins agent h) (recv-some receive client_recvbuf_size raw got some_data)
      ∙ rw (handle_data-rejected fuel plugins agent raw h e fresh refused, after_recv)
          (closes (bad_request agent) (record h { request = plugins.half_parsed h.request raw }))
