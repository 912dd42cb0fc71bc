-- ===== src/Lib.antt =====
-- A verification library for proxy.py, an HTTP proxy and web server with plugins.
--
-- The program reads bytes from a client into `TcpConnection` (proxy/core/connection/connection.py)
-- under a `BaseTcpServerHandler` (proxy/core/base/tcp_server.py), which is called with the events of
-- its descriptors. The bytes go to `HttpParser` (proxy/http/parser/parser.py), which uses `ChunkParser`
-- (proxy/http/parser/chunk.py), `ProxyProtocol` (proxy/http/parser/protocol.py) and `Url`
-- (proxy/http/url.py). After an upgrade they are frames (proxy/http/websocket/frame.py). What happens
-- is told to subscribers by `EventDispatcher` (proxy/core/event/dispatcher.py).
--
-- Base: numbers, lists, tests and results. A call that raises is a `Result`; the state that an
--   exception leaves half changed is not kept. A call that may run for ever is a `Run`, where `none`
--   says that the fuel has run out.
-- Bytes, Number, Dict: the methods of Python's bytes, int and dict that the program uses. A byte is
--   a number; that it is below 256 is a premise where it matters. The limit that newer versions
--   of Python set to the digits of a numeral is not modelled.
-- Http.Chunk: `ChunkParser.parse`, `process`, `to_chunks`, and `find_http_line` of
--   proxy/common/utils.py. `parse` gives its loop fuel from the length of its input; what happens
--   when that is not enough is the subject of Http.Chunk.Termination.
-- Http.Websocket: `WebsocketFrame.build`, `parse`, `apply_mask`. `secrets.token_bytes` is a parameter.
-- Http.Url: `Url.from_bytes`, `_parse` and `__str__`. Http.ProxyProtocol: `ProxyProtocol.parse`.
-- Http.Message: the attributes of `HttpParser`, its headers, `update_body` and its properties.
--   `gzip.compress` is a parameter.
-- Http.Parser: `HttpParser.parse`, `_process_line`, `_process_headers`, `_process_header` and
--   `_process_body`. The loops over lines have fuel from the length of the input, and every round takes a
--   line; the loop of `parse` has its fuel as an argument, since it need not end.
-- Http.Packet: the builders of packets in proxy/common/utils.py, and `HttpParser.build` and
--   `build_response`. The program's own agent string is a parameter.
-- Http.Auth: `AuthPlugin` of proxy/http/proxy/auth.py. Socks: `Socks4Packet` of proxy/socks/packet.py.
-- Http.Responses: proxy/http/responses.py, and the responses of the exceptions in
--   proxy/http/exception/. Http.Handler: `HttpProtocolHandler` of proxy/http/handler.py, over the
--   parser and Core.Server; its child Events is `get_events`. The methods of the plugins are
--   parameters, and so are the fuel of the parser and what the parser leaves in a request when it raises.
-- Http.Proxy: `HttpProxyPlugin` of proxy/http/proxy/server.py, with `enable_events` off: State holds its
--   attributes and its loops over the plugins, Connect `connect_upstream`, Request
--   `on_request_complete` and `intercept`, Data `on_client_data`, Io what the event loop calls; Plugged puts
--   it under Http.Handler, with `AuthPlugin` among its plugins. The connection to a server stands
--   among the objects of Core.Pool, whether the pool keeps it or not. A
--   request that a plugin returns takes the place of the one that the handler holds, and a plugin
--   that raises on bytes of the server is told apart by `HttpProtocolException` alone. The plugins share
--   the connection of the client and the pool, save where they are told of the end. The names of
--   hosts decode, and a timeout is one with `ETIMEDOUT`.
-- Http.Web: `HttpWebServerPlugin` of proxy/http/server/web.py. The loop over the frames of a websocket
--   has a round of fuel for each byte, and every frame takes at least two.
-- Core.Connection: `TcpConnection`. What the socket does with a call is a parameter; its child Wire says what
--   the sockets have been given and have taken.
-- Core.Server: `get_events`, `handle_events`, `handle_writables` and `handle_readables`. The
--   `handle_data` of an implementation is a parameter.
-- Core.Upstream: `TcpUpstreamConnectionHandler` of proxy/core/base/tcp_upstream.py; what a class does
--   with the data of the server is a parameter.
-- Core.Tunnel: `BaseTcpTunnelHandler` of proxy/core/base/tcp_tunnel.py, over Core.Server; each round has
--   the events and the sockets of the client and of the server.
-- Core.Dispatcher: `handle_event` and `_broadcast`. `Connection.send` is a parameter.
--
-- Core.Pool: `UpstreamConnectionPool` of proxy/core/connection/pool.py, over the `TcpServerConnection`
--   of server.py beside it. The objects are kept by identity, so that the two indexes share them.
--   What opening a socket gives, and the order in which a set is walked, are parameters.
-- Core.Selector: `selectors.DefaultSelector` of the standard library, as far as the event loop calls
--   it. What the operating system accepts is a parameter.
-- Core.Threadless: `Threadless` of proxy/core/work/threadless.py: `_update_work_events`,
--   `_update_conn_pool_events`, `_update_selector`, `_cleanup`, `_cleanup_inactive`; in its child
--   Selected also `_selected_events`, `_create_tasks` and the end of `_run_once`. The works are a
--   parameter: what they ask for, and whether they are inactive. An exception ends the loop.
-- Sets: Python's set, as a list. Tls: the parsers of proxy/core/tls/, `TlsParser` in Tls.Record,
--   `TlsHandshake` in Tls.Handshake, the two hello messages in Tls.Hello and their text in Tls.Pretty.
--
-- Not modelled: the access log and the events of the proxy, the reverse proxy, the threaded mode, the executors
-- around the event loop, and the SOCKS handler; nor processes, threads, logging, the command line,
-- openssl and paramiko, which are calls of other libraries.
pub mod Base
pub mod Bytes
pub mod Number
pub mod Dict
pub mod Http
pub mod Core
pub mod Socks
pub mod Sets
pub mod Tls
