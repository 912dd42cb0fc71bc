-- ===== src/Http/Handler/Events.antt =====
-- `get_events` of `HttpProtocolHandler`: what the handler and its plugin wait for.
pub mod Union
use proxy_py.Base.{
  true, false, ◌||◌, Option, none, some, List, [], ◌∷◌, if◌then◌else◌, ◌>>=◌, Result, ok,
}
use proxy_py.Base.Int.{int_eq, ℤ}
use proxy_py.Dict.{get, put}
use proxy_py.Core.Server
use proxy_py.Core.Server.{Events, Handler}

-- `SelectableEvents`
abbrev pub EventDict : Type 0
EventDict = List (ℤ × Events)

abbrev pub or_nothing : Option Events → Events
or_nothing none = record { read = false; write = false }
or_nothing (some e) = e

unfoldable pub add_reads : List ℤ → EventDict → EventDict
add_reads [] events = events
add_reads (f ∷ fs) events =
    add_reads fs (put f (record (or_nothing (get f events)) { read = true }) events)

unfoldable pub add_writes : List ℤ → EventDict → EventDict
add_writes [] events = events
add_writes (f ∷ fs) events =
    add_writes fs (put f (record (or_nothing (get f events)) { write = true }) events)

-- What the base class waits for on the descriptor of the client.
unfoldable pub client_events : ℤ → Handler → EventDict
client_events client h =
    let e = Server.get_events h in if e.read || e.write then (client, e) ∷ [] else []

-- `get_events`, with the `get_descriptors` of the plugin, if there is one.
unfoldable pub get_events : ℤ → Handler → Option (Result (List ℤ × List ℤ)) → Result EventDict
get_events client h none = ok (client_events client h)
get_events client h (some descriptors) = descriptors >>= λ (reads, writes).
    ok (add_writes writes (add_reads reads (client_events client h)))
