-- ===== src/Http/Proxy/Guarded.antt =====
-- A request that a plugin refuses reaches no server.
use proxy_py.Base.{
  ℕ, false, if◌then◌else◌, ◌≡◌, ◌≢◌, ◌∙◌, refl, ◌⊎◌, inl, inr, Option, none, some, List, [], ◌∷◌,
  Bytes,
}
use proxy_py.Core.Pool.{Pool}
use proxy_py.Http.Message.{Message}
use proxy_py.Http.Handler.{Reply, answer}
use proxy_py.Http.Proxy.State.{
  Shared, shared_of, after_ask, Flags, ProxyPlugins, HttpProxy, Asked, Heard, Said, goes_on, stops,
  rejects, fails, ask, ask_rest,
}
use proxy_py.Http.Proxy.Connect.{Network}
use proxy_py.Http.Proxy.Request.{
  Interception, asked_before, asked_request, client_request, establish, forward,
  on_request_complete, to_upstream,
}

module _ {Q : Type 0} (method : Q → Shared → Message → Heard Q) (Bad : Message → Type 0) where
  -- Some plugin goes on with no bad request, and those before it make no bad request a good one.
  abbrev pub Guards : List Q → Type 0
  Guards [] = ⊥
  Guards (q ∷ qs) =
      ((shared : Shared) (m : Message) → Bad m → (method q shared m).said ≢ goes_on)
      ⊎ (((shared : Shared) (m : Message) → Bad m → Bad (method q shared m).request) × Guards qs)

  ask_rest-stops :
      (h : Heard Q) (said : Said) (qs : List Q) (rest : Asked Q)
      → said ≢ goes_on
      → (ask_rest h said qs rest).3 ≢ goes_on
  ask_rest-stops h goes_on qs rest ne = absurd (ne refl)
  ask_rest-stops h stops qs rest ne = ne
  ask_rest-stops h (rejects e) qs rest ne = ne
  ask_rest-stops h (fails e) qs rest ne = ne

  ask_rest-later :
      (h : Heard Q) (said : Said) (qs : List Q) (rest : Asked Q)
      → rest.3 ≢ goes_on
      → (ask_rest h said qs rest).3 ≢ goes_on
  ask_rest-later h goes_on qs rest ne = ne
  ask_rest-later h stops qs rest ne = λ e. cc
  ask_rest-later h (rejects x) qs rest ne = λ e. cc
  ask_rest-later h (fails x) qs rest ne = λ e. cc

  pub ask-Guards :
      (qs : List Q) (shared : Shared) (m : Message)
      → Guards qs
      → Bad m
      → (ask method qs shared m).3 ≢ goes_on
  unfolding ask
  ask-Guards [] shared m g bad = absurd g
  ask-Guards (q ∷ qs) shared m (inl refuses) bad =
      ask_rest-stops (method q shared m) (method q shared m).said qs _ (refuses shared m bad)
  ask-Guards (q ∷ qs) shared m (inr (keeps, g)) bad =
      ask_rest-later (method q shared m) (method q shared m).said qs _ (
        ask-Guards qs (method q shared m).shared (method q shared m).request g (keeps shared m bad))

module _ {Q : Type 0} (method : Q → Shared → Message → Heard Q) where
  -- The method takes nothing from the pool, and gives nothing back.
  abbrev pub KeepsPool : Type 0
  KeepsPool = (q : Q) (shared : Shared) (m : Message) → (method q shared m).shared.1 ≡ shared.1

  ask_rest-pool :
      (h : Heard Q) (said : Said) (qs : List Q) (rest : Asked Q) (pool : Pool)
      → h.shared.1 ≡ pool
      → rest.1.1 ≡ pool
      → (ask_rest h said qs rest).1.1 ≡ pool
  ask_rest-pool h goes_on qs rest pool e e' = e'
  ask_rest-pool h stops qs rest pool e e' = e
  ask_rest-pool h (rejects x) qs rest pool e e' = e
  ask_rest-pool h (fails x) qs rest pool e e' = e

  ask-pool :
      KeepsPool
      → (qs : List Q) (shared : Shared) (m : Message) → (ask method qs shared m).1.1 ≡ shared.1
  unfolding ask
  ask-pool keeps [] shared m = refl
  ask-pool keeps (q ∷ qs) shared m =
      let h = method q shared m in
      ask_rest-pool h h.said qs _ shared.1 (keeps q shared m)
        (ask-pool keeps qs h.shared h.request ∙ keeps q shared m)

module _ {Q : Type 0} where
  -- Nothing has been connected, and what the pool holds is as it was.
  abbrev pub Unconnected : HttpProxy Q → HttpProxy Q → Type 0
  Unconnected p q = (q.upstream ≡ none) × (q.pool ≡ p.pool)

module _ {Q : Type 0} (flags : Flags) (plugins : ProxyPlugins Q) (agent : Bytes) (network : Network)
    (tls : Interception) (before_keeps : KeepsPool plugins.before_upstream_connection)
    (request_keeps : KeepsPool plugins.handle_client_request) where
  to_upstream-none :
      (p : HttpProxy Q)
      → p.upstream ≡ none
      → Unconnected p (to_upstream flags plugins agent tls p).0
  unfolding to_upstream
  to_upstream-none p e = by_upstream p.upstream e
    where
      by_upstream :
          (o : Option ℕ)
          → o ≡ none
          → Unconnected p
              (elim o as (λ _. HttpProxy Q × Reply) [
                | none ↦ (p, answer false)
                | some i ↦
                    if p.request.is_https_tunnel
                    then establish flags plugins tls p
                    else forward flags agent i p
              ]).0
      by_upstream none q = (e, refl)
      by_upstream (some i) q = cc

  client_request-none :
      (p : HttpProxy Q)
      → p.upstream ≡ none
      → Unconnected p (client_request flags plugins agent tls p).0
  unfolding client_request
  client_request-none p e =
      by_said (ask plugins.handle_client_request p.plugins (shared_of p) p.request)
        (ask-pool plugins.handle_client_request request_keeps p.plugins (shared_of p) p.request)
    where
      by_said :
          (a : Asked Q)
          → a.1.1 ≡ p.pool
          → Unconnected p (asked_request flags plugins agent tls p a).0
      by_said (qs, shared, m, goes_on) same =
          let u = to_upstream-none (after_ask p (qs, shared, m, goes_on)) e in (u.0, u.1 ∙ same)
      by_said (qs, shared, m, stops) same = (e, same)
      by_said (qs, shared, m, rejects x) same = (e, same)
      by_said (qs, shared, m, fails x) same = (e, same)

  -- Plugins that take nothing from the pool for a request and give nothing back, where some plugin lets no bad request pass
  -- its `before_upstream_connection`, and those before it make none good: for a bad request the proxy connects
  -- to no server and takes nothing from the pool, whatever else the plugins do.
  pub on_request_complete-Unconnected :
      (Bad : Message → Type 0) (p : HttpProxy Q)
      → Guards plugins.before_upstream_connection Bad p.plugins
      → Bad p.request
      → p.upstream ≡ none
      → Unconnected p (on_request_complete flags plugins agent network tls p).0
  unfolding on_request_complete
  on_request_complete-Unconnected Bad p guards bad e =
      by_said (ask plugins.before_upstream_connection p.plugins (shared_of p) p.request)
        (ask-Guards plugins.before_upstream_connection Bad p.plugins (shared_of p) p.request guards
          bad)
        (ask-pool plugins.before_upstream_connection before_keeps p.plugins (shared_of p) p.request)
    where
      by_said :
          (a : Asked Q)
          → a.3 ≢ goes_on
          → a.1.1 ≡ p.pool
          → Unconnected p (asked_before flags plugins agent network tls p a).0
      by_said (qs, shared, m, goes_on) ne same = absurd (ne refl)
      by_said (qs, shared, m, stops) ne same =
          let u = client_request-none (after_ask p (qs, shared, m, stops)) e in (u.0, u.1 ∙ same)
      by_said (qs, shared, m, rejects x) ne same = (e, same)
      by_said (qs, shared, m, fails x) ne same = (e, same)
