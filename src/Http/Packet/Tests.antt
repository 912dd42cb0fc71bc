-- ===== src/Http/Packet/Tests.antt =====
-- Runs of the builders on concrete input.
use proxy_py.Base.{bytes_eq, ◌≡◌, refl, false, none, some, [], ◌∷◌, same, ok}
use proxy_py.Bytes.{codes, lower}
use proxy_py.Dict.{put}
use proxy_py.Number.{digits}
use proxy_py.Http.Chunk.{join}
use proxy_py.Http.Message.{empty_message, request_parser, is_request}
use proxy_py.Http.Packet.{
  build, build_http_request, build_http_pkt, build_http_header, header_lines, sent_fields,
  get_body_or_chunks, has_name,
}

-- A message whose header is not written `Content-Length` is built with the length twice.
twice :
    build [] [] false none (record (empty_message request_parser none) {
      method = some (codes "POST");
      version = some (codes "HTTP/1.1");
      headers = some ((codes "content-length", (codes "content-length", codes "5")) ∷ []);
      body = some (codes "hello");
    })
    ≡ ok (codes "POST / HTTP/1.1\r\ncontent-length: 5\r\nContent-Length: 5\r\n\r\nhello")
unfolding build build_http_request build_http_pkt build_http_header header_lines sent_fields
    get_body_or_chunks has_name is_request same lower put digits join
twice = refl
