-- ===== src/Http/Proxy/Examples.antt =====
-- A proxy that asks for credentials: its plugins, its pool with one server, and what it is sent.
use proxy_py.Base.{
  ℕ, Bool, true, false, Option, none, some, List, [], ◌∷◌, number_eq, bytes_eq, Bytes, ok,
}
use proxy_py.Base.Int.{pos, int_eq, pair_eq}
use proxy_py.Bytes.{codes}
use proxy_py.Core.Connection.{new_connection}
use proxy_py.Core.Pool.{Server, Pool, new_pool}
use proxy_py.Http.Message.{
  Message, empty_message, request_parser, response_parser, complete, http_1_1,
}
use proxy_py.Http.Proxy.State.{
  Shared, Flags, ProxyPlugins, HttpProxy, Heard, Passed, goes_on, passes,
}
use proxy_py.Http.Proxy.Connect.{Network}
use proxy_py.Http.Proxy.Request.{Interception, wrapped, generated}
use proxy_py.Http.Proxy.Plugged.{auth_method}

abbrev pub agent : Bytes
agent = codes "proxy.py"

abbrev pub flags_of : Bool → Flags
flags_of pooled = record {
  enable_conn_pool = pooled;
  tls_interception_enabled = false;
  disable_headers = [];
  max_sendbuf_size = none;
  server_recvbuf_size = 64;
}

abbrev pub as_is : ℕ → Shared → Message → Heard ℕ
as_is q shared m = record { plugin = q; shared = shared; request = m; said = goes_on }

abbrev pub handed_on : ℕ → Shared → Bytes → Passed ℕ
handed_on q shared raw = record { plugin = q; shared = shared; passing = passes raw }

-- A plugin that wants credentials, and is idle otherwise.
abbrev pub credentials : ProxyPlugins ℕ
credentials = record {
  before_upstream_connection = auth_method (some (codes "abc"));
  handle_client_request = as_is;
  handle_client_data = handed_on;
  handle_upstream_chunk = handed_on;
  resolve_dns = λ q host port. ok (q, none, none);
  do_intercept = λ q m. true;
  get_descriptors = λ q. ([], []);
  read_from_descriptors = λ fs q shared. ok (q, shared, false);
  write_to_descriptors = λ fs q shared. ok (q, shared, false);
  on_upstream_connection_close = λ q. q;
}

abbrev pub network : Network
network = record { opened = λ a source. ok 5; order = λ is. is; fresh = 1 }

abbrev pub interception : Interception
interception = record {
  with_server = wrapped;
  certificate = generated;
  with_client = wrapped;
  send = λ raw. ok 1;
}

abbrev pub request : Message
request = record (empty_message request_parser none) {
  state = complete;
  method = some (codes "GET");
  version = some http_1_1;
  host = some (codes "example.com");
  port = some (pos 80);
  path = some (codes "/");
}

abbrev pub with_credentials : Message
with_credentials = record request {
  headers = some (
      (codes "proxy-authorization", (codes "Proxy-Authorization", codes "Basic abc"))
      ∷ (codes "accept", (codes "Accept", codes "text/html"))
      ∷ []);
}

abbrev pub connected : Server
connected = record {
  state = new_connection;
  addr = (codes "example.com", pos 80);
  fileno = some 5;
  shut = false;
  finished = false;
}

abbrev pub one_server : Pool
one_server = record new_pool { objects = (0, connected) ∷ []; connections = (pos 5, 0) ∷ [] }

abbrev pub proxy_of : Message → Option ℕ → List ℕ → HttpProxy ℕ
proxy_of m upstream plugins = record {
  client = new_connection;
  request = m;
  upstream = upstream;
  pool = one_server;
  response = empty_message response_parser none;
  pipeline_request = none;
  pipeline_response = none;
  plugins = plugins;
}

-- The request as the server gets it.
abbrev pub packet : Bytes
packet = codes "GET / HTTP/1.1\r\nAccept: text/html\r\nVia: 1.1 proxy.py\r\n\r\n"
