-- ===== src/Server/Watched.antt =====
-- Which connections `serve` watches.
use mathlib.Core.List.{append-nil, append_assoc}
use rayo.Base.{ℕ, Bool, ◌+◌, ◌≡◌, sym, ◌∙◌, true, List, [], ◌∷◌, ◌++◌, arith}
use rayo.Server.{
  Event, connected, accept_failed, signalled, ended, Serving, end_connection, drain_connections,
  serve_from, serve, streams_before,
}

module _ (is_drained : List ℕ → List ℕ → Bool) where
  drain_connections-watched :
      (events : List Event) (s : Serving)
      → (drain_connections is_drained events s).watched ≡ s.watched
  unfolding drain_connections
  drain_connections-watched [] s = ground arith
  drain_connections-watched (ended stream failed ∷ events) s =
      ground (arith, drain_connections-watched events (end_connection stream failed s))
  drain_connections-watched (connected stream ∷ events) s = drain_connections-watched events s
  drain_connections-watched (accept_failed ∷ events) s = drain_connections-watched events s
  drain_connections-watched (signalled ∷ events) s = drain_connections-watched events s

  serve_from-watched :
      (events : List Event) (s : Serving)
      → (serve_from is_drained events s).watched ≡ s.watched ++ streams_before events
  unfolding serve_from
  serve_from-watched [] s = sym (append-nil s.watched)
  serve_from-watched (connected stream ∷ events) s =
      serve_from-watched events (record s { watched = s.watched ++ stream ∷ [] })
      ∙ append_assoc s.watched (stream ∷ []) (streams_before events)
  serve_from-watched (accept_failed ∷ events) s =
      serve_from-watched events (record s { errors = s.errors + 1 })
  serve_from-watched (signalled ∷ events) s =
      drain_connections-watched events (record s { stopped = true }) ∙ sym (append-nil s.watched)
  serve_from-watched (ended stream failed ∷ events) s =
      serve_from-watched events (end_connection stream failed s)

  -- The server watches exactly the connections that it accepted before the shutdown signal, each once
  -- and in their order; failed accepts and connections that end in between lose none.
  pub serve-watched :
      (events : List Event) → (serve is_drained events).watched ≡ streams_before events
  unfolding serve
  serve-watched events = serve_from-watched events _
