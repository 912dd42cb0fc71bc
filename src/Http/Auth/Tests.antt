-- ===== src/Http/Auth/Tests.antt =====
-- Credentials on concrete input.
use proxy_py.Base.{none, some, [], ◌∷◌}
use proxy_py.Bytes.{codes}
use proxy_py.Http.Message.{Message, empty_message, request_parser}
use proxy_py.Http.Auth.{before_upstream_connection}
use proxy_py.Http.Auth.Credentials.{Authorized, Decides, before_upstream_connection_lem}

abbrev with_code : Message
with_code = record (empty_message request_parser none) {
  headers =
      some ((codes "proxy-authorization", (codes "Proxy-Authorization", codes "Basic dTpw")) ∷ []);
}

before_upstream_connection_lem_example :
    Decides
      (Authorized (codes "dTpw") with_code)
      (before_upstream_connection (some (codes "dTpw")) with_code)
before_upstream_connection_lem_example =
    before_upstream_connection_lem (codes "dTpw") with_code (λ e. cc e)
