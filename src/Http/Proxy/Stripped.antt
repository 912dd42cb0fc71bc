-- ===== src/Http/Proxy/Stripped.antt =====
-- The credentials for the proxy do not go on to the server.
use mathlib.Core.Path.{subst}
use proxy_py.Base.{
  ◌∷◌, ◌++◌, ap, ◌∙◌, Option, some, List, [], true, bytes_eq, ◌≡◌, refl, ◌⊎◌, inl, inr, ℕ, false,
  none, bytes_eq, Bytes, Raised, Result, ok, raise,
}
use proxy_py.Dict.{get, put, remove}
use proxy_py.Bytes.{codes, lower}
use proxy_py.Dict.Laws.{Absent, Absent-remove, remove-Absent, put-Absent, All-remove, All-put}
use proxy_py.Http.Message.{
  Message, complete, Headers, headers_or_empty, add_header, del_header, del_headers,
}
use proxy_py.Http.Message.Headers.{HasDict, removed, del_header-HasDict}
use proxy_py.Http.Packet.{
  Fields, build, build_http_request, sent_fields, has_name, get_body_or_chunks, path_or_root,
}
use proxy_py.Http.Parser.{is_state}
use proxy_py.Http.Proxy.Data.{pipelined_request, asked_pipelined, send_pipelined}
use proxy_py.Http.Packet.Names.{
  named-present, Packet, build-Packet, sent_fields-Absent, Carries, IsKeyed, build-Carries,
}
use proxy_py.Http.Handler.{Reply, answer}
use proxy_py.Http.Proxy.State.{
  shared_of, Flags, ProxyPlugins, HttpProxy, ask, reply_of, queue_upstream,
}
use proxy_py.Http.Proxy.Request.{via_headers, forward, send_built}

abbrev pub authorization : Bytes
authorization = codes "proxy-authorization"

abbrev pub connection : Bytes
connection = codes "proxy-connection"

-- The headers of a message, one to a name, and each under its name in lower case.
abbrev pub IsSound : Message → Type 0
IsSound m = HasDict m × IsKeyed (headers_or_empty m.headers)

abbrev Lacks : Bytes → Message → Type 0
Lacks key m = Absent key (headers_or_empty m.headers)

del_header-Lacks : (m : Message) (key : Bytes) → HasDict m → Lacks (lower key) (del_header m key)
unfolding del_header
del_header-Lacks m key h =
    rw (removed (lower key) m.headers) (Absent-remove (lower key) (headers_or_empty m.headers) h)

del_header-still :
    (m : Message) (key other : Bytes) → Lacks other m → Lacks other (del_header m key)
unfolding del_header
del_header-still m key other h =
    rw (removed (lower key) m.headers) (remove-Absent (lower key) other _ h)

del_header-IsKeyed :
    (m : Message) (key : Bytes)
    → IsKeyed (headers_or_empty m.headers)
    → IsKeyed (headers_or_empty (del_header m key).headers)
unfolding del_header
del_header-IsKeyed m key h =
    rw (removed (lower key) m.headers) (All-remove _ (lower key) (headers_or_empty m.headers) h)

-- What goes to the server has neither of the two headers, and is still under lower case names.
via_headers-Lacks :
    (agent : Bytes) (m : Message)
    → IsSound m
    → Lacks authorization (via_headers agent m)
      × Lacks connection (via_headers agent m)
      × IsKeyed (headers_or_empty (via_headers agent m).headers)
unfolding via_headers del_headers proxy_py.Http.Message.add_headers add_header lower
    proxy_py.Bytes.lower_byte
via_headers-Lacks agent m (dict, keyed) =
    let first = del_header m authorization in
    let second = del_header first connection in
    (
      put-Absent (codes "via") authorization _ (headers_or_empty second.headers) (λ e. cc)
          (del_header-still first connection authorization (del_header-Lacks m authorization dict)),
      put-Absent (codes "via") connection _ (headers_or_empty second.headers) (λ e. cc)
          (del_header-Lacks first connection (del_header-HasDict m authorization dict)),
      All-put _ (codes "via") _ (headers_or_empty second.headers) refl
          (del_header-IsKeyed first connection (del_header-IsKeyed m authorization keyed)),
    )

-- The headers that go to the server.
abbrev pub forwarded : Bytes → Headers → Headers
forwarded agent hs =
    put (codes "via") (codes "Via", codes "1.1 " ++ agent)
      (remove connection (remove authorization hs))

via_headers-forwarded :
    (agent : Bytes) (m : Message)
    → headers_or_empty (via_headers agent m).headers ≡ forwarded agent (headers_or_empty m.headers)
unfolding via_headers del_headers proxy_py.Http.Message.add_headers add_header del_header lower
    proxy_py.Bytes.lower_byte
via_headers-forwarded agent m =
    ap (put (codes "via") (codes "Via", codes "1.1 " ++ agent))
      (removed connection _ ∙ ap (remove connection) (removed authorization m.headers))

module _ (flags : Flags) (agent : Bytes) where
  -- The fields that the server gets of a request.
  abbrev pub fields_of : Message → Fields
  fields_of m =
      sent_fields flags.disable_headers none (forwarded agent (headers_or_empty m.headers)) []

  lacks_names :
      (m : Message)
      → IsSound m
      → (has_name authorization (fields_of m) ≡ false) × (has_name connection (fields_of m) ≡ false)
  lacks_names m sound =
      let (lacks, lacks', keyed) = via_headers-Lacks agent m sound in
      subst
        (λ hs.
          (has_name authorization (sent_fields flags.disable_headers none hs []) ≡ false)
          × (has_name connection (sent_fields flags.disable_headers none hs []) ≡ false))
        (via_headers-forwarded agent m)
        (
          sent_fields-Absent authorization flags.disable_headers _ keyed lacks,
          sent_fields-Absent connection flags.disable_headers _ keyed lacks',
        )

module _ {Q : Type 0} (flags : Flags) (agent : Bytes) where
  -- Either the packet of the request, with these fields, is all that the server is owed anew, or none can be built and
  -- nothing is sent.
  abbrev pub Forwarded : ℕ → HttpProxy Q → HttpProxy Q × Reply → Type 0
  Forwarded i p r =
      ((method : Bytes) × (version : Bytes) × (body : Option Bytes) × (p.request.method
          ≡ some method)
        × (p.request.version ≡ some version)
        × (get_body_or_chunks p.request ≡ ok body)
        × (r.0.pool
            ≡ (queue_upstream i
                (build_http_request agent method (path_or_root p.request.path) version none
                  (fields_of flags agent p.request) body false true)
                p).pool)
        × (r.1 ≡ answer false)
        × (has_name authorization (fields_of flags agent p.request) ≡ false)
        × (has_name connection (fields_of flags agent p.request) ≡ false))
      ⊎ ((e : Raised) × (r.0.pool ≡ p.pool)
          × (r.1 ≡ reply_of e)
          × (build agent flags.disable_headers false none (via_headers agent p.request) ≡ raise e))

  -- The packet has the method, path, version and body of the request.
  Forwarded-Packet :
      (i : ℕ) (p : HttpProxy Q) (raw : Bytes)
      → IsSound p.request
      → Packet agent flags.disable_headers (via_headers agent p.request) raw
      → Forwarded i p (send_built i (record p { request = via_headers agent p.request }) (ok raw))
  unfolding via_headers del_headers proxy_py.Http.Message.add_headers add_header del_header
      get_body_or_chunks queue_upstream
  Forwarded-Packet i p raw sound
        (method, version, body, has_method, has_version, has_body, same_raw) =
      let (lacks, lacks') = lacks_names flags agent p.request sound in
      inl (
        method,
        version,
        body,
        has_method,
        has_version,
        has_body,
        ap (λ b. (queue_upstream i b p).pool)
            (same_raw
              ∙ ap
                  (λ hs.
                    build_http_request agent method (path_or_root p.request.path) version none
                      (sent_fields flags.disable_headers none hs []) body false true)
                  (via_headers-forwarded agent p.request)),
        refl,
        lacks,
        lacks',
      )

  pub forward-Forwarded :
      (i : ℕ) (p : HttpProxy Q) → IsSound p.request → Forwarded i p (forward flags agent i p)
  unfolding forward
  forward-Forwarded i p sound =
      by_build (build agent flags.disable_headers false none (via_headers agent p.request)) refl
    where
      by_build :
          (r : Result Bytes)
          → build agent flags.disable_headers false none (via_headers agent p.request) ≡ r
          → Forwarded i p (send_built i (record p { request = via_headers agent p.request }) r)
      by_build (raise e) q = inr (e, refl, refl, q)
      by_build (ok raw) q =
          Forwarded-Packet i p raw sound
            (build-Packet agent flags.disable_headers (via_headers agent p.request) raw q)

module _ {Q : Type 0} (plugins : ProxyPlugins Q) (agent : Bytes) where
  -- Either a packet with the header is all that the server is owed anew, or none can be built and nothing is sent.
  abbrev pub Leaked : ℕ → Message → HttpProxy Q → HttpProxy Q × Reply → Type 0
  Leaked i m p r =
      ((raw : Bytes) × (r.0.pool ≡ (queue_upstream i raw p).pool)
        × (r.1 ≡ answer false)
        × Carries agent authorization true raw)
      ⊎ ((e : Raised) × (r.0.pool ≡ p.pool)
          × (r.1 ≡ reply_of e)
          × (build agent [] false none m ≡ raise e))

  -- A later request on the same connection, whose headers stand under their names in lower case, and where no
  -- plugin stands between: its `Proxy-Authorization` header is in the packet that goes to the server,
  -- unless no packet can be built.
  pub pipelined_request-Leaked :
      (i : ℕ) (m : Message) (p : HttpProxy Q) (x : Bytes × Bytes)
      → is_state m.state complete ≡ true
      → p.plugins ≡ []
      → IsKeyed (headers_or_empty m.headers)
      → get authorization (headers_or_empty m.headers) ≡ some x
      → Leaked i m p (pipelined_request plugins agent i m p)
  unfolding pipelined_request queue_upstream ask
  pipelined_request-Leaked i m p x done none_there keyed e =
      rw done (by_plugins p.plugins none_there)
    where
      by_build :
          (r : Result Bytes)
          → build agent [] false none m ≡ r
          → Leaked i m p
              (send_pipelined i m (record p { plugins = []; pipeline_request = some m }) r)
      by_build (raise y) q = inr (y, refl, refl, q)
      by_build (ok raw) q = inl (
        raw,
        refl,
        refl,
        subst (λ b. Carries agent authorization b raw)
            (named-present authorization (headers_or_empty m.headers) x keyed e)
            (build-Carries agent authorization [] m raw q),
      )

      by_plugins :
          (qs : List Q)
          → qs ≡ []
          → Leaked i m p
              (asked_pipelined i agent p (ask plugins.handle_client_request qs (shared_of p) m))
      by_plugins [] q = by_build (build agent [] false none m) refl
      by_plugins (y ∷ qs) q = absurd (nonempty q)
        where
          nonempty : y ∷ qs ≡ [] → ⊥
          nonempty e = cc
