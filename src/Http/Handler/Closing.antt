-- ===== src/Http/Handler/Closing.antt =====
-- When the connection of a client ends.
use proxy_py.Base.{
  ℕ, ◌≡◌, refl, ap, sym, ◌∙◌, ◌⊎◌, inl, inr, Bool, true, false, not, ◌&&◌, Option, none, some,
  if◌then◌else◌, Bytes, ◌>>=◌, Run, then_run, Raised, Result, Returns, Returns-bind, Returns-ok,
  Bool-cases, ok, raise,
}
use mathlib.Core.Path.{subst}
use proxy_py.Core.Connection.{Connection, Socket, flush, has_buffer}
use proxy_py.Core.Server
use proxy_py.Core.Server.{Handler, Round}
use proxy_py.Core.Server.Writes.{FlushDone, handle_writables-FlushDone, handle_writables-raise}
use proxy_py.Http.Message.{Message}
use proxy_py.Http.Handler.{
  HttpHandler, Plugins, write_events, handle_writables, plugin_writes, plugin_io, read_events, ends,
  handle_events, heard_chunk, after_flush, is_os_error,
}

-- The flush to the client has failed, or it was awaited and has sent the last of the buffer.
abbrev pub FlushEnds : Socket → Option ℕ → Handler → Type 0
FlushEnds send max_sendbuf_size h =
    ((e : Raised) × (flush send max_sendbuf_size h.work ≡ raise e) × (is_os_error e ≡ true))
    ⊎ FlushDone send max_sendbuf_size h

-- The plugin's `write_to_descriptors` has returned `True`.
abbrev pub PluginEnds : {P : Type 0} → Plugins P → Type 0
PluginEnds {P} plugins =
    (p : P) × (work : Connection) × (m : Message) × (q : P) × (work' : Connection) × (m' : Message)
    × (plugins.write_to_descriptors p work m ≡ ok (q, work', m', true))

-- Reading is over, and nothing is left to send.
abbrev pub IsOver : {P : Type 0} → HttpHandler P → Type 0
IsOver h = (h.reads_teared ≡ true) × (has_buffer h.server.work ≡ false)

module _ {P : Type 0} (plugins : Plugins P) where
  heard_chunk-server :
      (h : HttpHandler P) (o : Option P)
      → Returns (λ (u : HttpHandler P). u.server ≡ h.server) (heard_chunk plugins h o)
  heard_chunk-server h none = refl
  heard_chunk-server h (some p) =
      Returns-bind (λ (u : HttpHandler P). u.server ≡ h.server)
        (plugins.on_response_chunk p h.server.work.buffer) _ (λ q e. refl)

  module _ (send : Socket) (max_sendbuf_size : Option ℕ) (writable : Bool) where
    after_flush-FlushEnds :
        (u : HttpHandler P) (x : Result (Handler × Bool))
        → ((e : Raised) → x ≡ raise e → flush send max_sendbuf_size u.server.work ≡ raise e)
        → Returns (λ (r : Handler × Bool). r.1 ≡ true → FlushDone send max_sendbuf_size u.server) x
        → Returns
            (λ (r : HttpHandler P × Bool). r.1 ≡ true → FlushEnds send max_sendbuf_size u.server)
            (after_flush u x)
    after_flush-FlushEnds u (ok (s, torn)) raises done = λ e. inr (done e)
    after_flush-FlushEnds u (raise e) raises done = elim (Bool-cases (is_os_error e)) [
      | inl y ↦ rw y (λ t. inl (e, raises e refl, y))
      | inr n ↦ rw n tt
    ]

    handle_writables-FlushEnds :
        (h : HttpHandler P)
        → Returns
            (λ (r : HttpHandler P × Bool). r.1 ≡ true → FlushEnds send max_sendbuf_size h.server)
            (handle_writables plugins send max_sendbuf_size writable h)
    unfolding handle_writables
    handle_writables-FlushEnds h = elim (Bool-cases (writable && has_buffer h.server.work)) [
      | inr n ↦ rw n (λ t. cc)
      | inl y ↦ rw y (
          Returns-bind
            (λ (r : HttpHandler P × Bool). r.1 ≡ true → FlushEnds send max_sendbuf_size h.server)
            (heard_chunk plugins h h.plugin) _
            (λ u e.
              subst
                (λ s.
                  Returns
                    (λ (r : HttpHandler P × Bool). r.1 ≡ true → FlushEnds send max_sendbuf_size s)
                    (after_flush u
                      (Server.handle_writables send max_sendbuf_size writable u.server)))
                (Returns-ok (λ (u : HttpHandler P). u.server ≡ h.server) _ u
                  (heard_chunk-server h h.plugin) e)
                (after_flush-FlushEnds u _
                  (λ x. handle_writables-raise send max_sendbuf_size writable u.server x)
                  (handle_writables-FlushDone send max_sendbuf_size writable u.server))))
    ]

    plugin_writes-PluginEnds :
        (h : HttpHandler P)
        → Returns
            (λ (r : HttpHandler P × Bool). r.1 ≡ true → PluginEnds plugins)
            (plugin_writes plugins false h)
    plugin_writes-PluginEnds h = by_plugin h.plugin
      where
        by_plugin :
            (o : Option P)
            → Returns
                (λ (r : HttpHandler P × Bool). r.1 ≡ true → PluginEnds plugins)
                (plugin_io plugins.write_to_descriptors h o >>= λ (u, torn).
                  ok (record u { writes_teared = torn }, torn))
        by_plugin none = λ t. cc
        by_plugin (some p) = by_io (plugins.write_to_descriptors p h.server.work h.request) refl
          where
            by_io :
                (x : Result (P × Connection × Message × Bool))
                → plugins.write_to_descriptors p h.server.work h.request ≡ x
                → Returns
                    (λ (r : HttpHandler P × Bool). r.1 ≡ true → PluginEnds plugins)
                    ((x >>= λ (q, work, m, teardown). ok (
                      record h {
                        server = record (h.server) { work = work };
                        request = m;
                        plugin = some q;
                      },
                      teardown,
                    ))
                      >>= λ (u, torn). ok (record u { writes_teared = torn }, torn))
            by_io (raise e) k = tt
            by_io (ok (q, work, m, torn)) k =
                λ t. (p, h.server.work, h.request, q, work, m, k ∙ ap (λ b. ok (q, work, m, b)) t)

    write_events-Ends :
        (h : HttpHandler P)
        → Returns
            (λ (r : HttpHandler P × Bool).
              r.1 ≡ true → FlushEnds send max_sendbuf_size h.server ⊎ PluginEnds plugins)
            (write_events plugins send max_sendbuf_size writable h)
    unfolding write_events
    write_events-Ends h =
        Returns-bind
          (λ (r : HttpHandler P × Bool).
            r.1 ≡ true → FlushEnds send max_sendbuf_size h.server ⊎ PluginEnds plugins)
          (handle_writables plugins send max_sendbuf_size writable h) _
          (λ (u, torn) e. by_torn torn u (
            Returns-ok
              (λ (r : HttpHandler P × Bool). r.1 ≡ true → FlushEnds send max_sendbuf_size h.server)
              _ (u, torn) (handle_writables-FlushEnds h) e))
      where
        by_torn :
            (torn : Bool) (u : HttpHandler P)
            → (torn ≡ true → FlushEnds send max_sendbuf_size h.server)
            → Returns
                (λ (r : HttpHandler P × Bool).
                  r.1 ≡ true → FlushEnds send max_sendbuf_size h.server ⊎ PluginEnds plugins)
                (plugin_writes plugins torn (record u { writes_teared = torn }))
        by_torn true u k = λ t. inl (k refl)
        by_torn false u k =
            by_right _ (plugin_writes-PluginEnds (record u { writes_teared = false }))
          where
            by_right :
                (x : Result (HttpHandler P × Bool))
                → Returns (λ (r : HttpHandler P × Bool). r.1 ≡ true → PluginEnds plugins) x
                → Returns
                    (λ (r : HttpHandler P × Bool).
                      r.1 ≡ true → FlushEnds send max_sendbuf_size h.server ⊎ PluginEnds plugins)
                    x
            by_right (raise e) k = tt
            by_right (ok r) k = λ t. inr (k t)

  ends-IsOver :
      (x : Run (HttpHandler P)) (u : HttpHandler P)
      → then_run x (λ v. some (ok (ends v))) ≡ some (ok (u, true))
      → IsOver u
  ends-IsOver none u e = absurd (no_result e)
    where
      no_result : ◌≡◌ {A = Run (HttpHandler P × Bool)} none (some (ok (u, true))) → ⊥
      no_result q = cc
  ends-IsOver (some (raise x)) u e = absurd (no_result e)
    where
      no_result : ◌≡◌ {A = Run (HttpHandler P × Bool)} (some (raise x)) (some (ok (u, true))) → ⊥
      no_result q = cc
  ends-IsOver (some (ok v)) u e =
      let (same, over) = result e in
      let (reads, empty) = both v.reads_teared (has_buffer v.server.work) over in
      (
        ap (λ (w : HttpHandler P). w.reads_teared) (sym same) ∙ reads,
        ap (λ (w : HttpHandler P). has_buffer w.server.work) (sym same) ∙ empty,
      )
    where
      result :
          {b : Bool}
          → ◌≡◌ {A = Run (HttpHandler P × Bool)} (some (ok (v, b))) (some (ok (u, true)))
          → (v ≡ u) × (b ≡ true)
      result q = (cc, cc)

      both : (a b : Bool) → (a && not b) ≡ true → (a ≡ true) × (b ≡ false)
      both true false q = (refl, refl)
      both true true q = cc
      both false b q = cc

  -- Whatever the plugin, the client and the sockets do: when a round of events ends the connection, then the flush to the
  -- client has failed, or was awaited and has sent the last of the buffer, or the plugin's `write_to_descriptors`
  -- has returned `True`, or reading is over and nothing is left to send to the client.
  pub handle_events-Ended :
      (fuel : ℕ) (agent : Bytes) (max_sendbuf_size : Option ℕ) (client_recvbuf_size : ℕ) (r : Round)
      (h u : HttpHandler P)
      → handle_events fuel plugins agent max_sendbuf_size client_recvbuf_size r h
        ≡ some (ok (u, true))
      → FlushEnds r.send max_sendbuf_size h.server ⊎ (PluginEnds plugins ⊎ IsOver u)
  unfolding handle_events
  handle_events-Ended fuel agent max_sendbuf_size client_recvbuf_size r h u e =
      by_write (write_events plugins r.send max_sendbuf_size r.writable h)
        (write_events-Ends r.send max_sendbuf_size r.writable h) e
    where
      by_write :
          (x : Result (HttpHandler P × Bool))
          → Returns
              (λ (q : HttpHandler P × Bool).
                q.1 ≡ true → FlushEnds r.send max_sendbuf_size h.server ⊎ PluginEnds plugins)
              x
          → then_run (some x) (λ (v, torn).
            if torn
            then some (ok (v, true))
            else then_run
                (read_events fuel plugins agent r.receive client_recvbuf_size r.readable v)
                (λ w. some (ok (ends w))))
            ≡ some (ok (u, true))
          → FlushEnds r.send max_sendbuf_size h.server ⊎ (PluginEnds plugins ⊎ IsOver u)
      by_write (raise x) k q = absurd (no_result q)
        where
          no_result :
              ◌≡◌ {A = Run (HttpHandler P × Bool)} (some (raise x)) (some (ok (u, true))) → ⊥
          no_result y = cc
      by_write (ok (v, true)) k q = elim (k refl) [ inl a ↦ inl a | inr b ↦ inr (inl b) ]
      by_write (ok (v, false)) k q = inr (
          inr (
            ends-IsOver (read_events fuel plugins agent r.receive client_recvbuf_size r.readable v)
              u q))
