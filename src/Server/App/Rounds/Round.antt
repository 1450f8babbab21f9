-- ===== src/Server/App/Rounds/Round.antt =====
-- src/server/server_app.h: a whole round with no new client.
use kvmemo.Base.{
  ℕ, Str, List, map, ◌≡◌, refl, ap, ◌∙◌, Option, some, none, Outcome, returns, arith, lookup, ℕ_eq,
  is_some, true, false, subst,
}
use kvmemo.Eviction.Policy.{EvictionPolicy}
use kvmemo.Net.Connection.{Connection}
use kvmemo.Net.Sockets.{Fd, Sockets, SocketLaws, ApartLaws}
use kvmemo.Protocol.Buffer.{Buffer}
use kvmemo.Server.Dispatcher.{Times}
use kvmemo.Server.App.{App}
use kvmemo.Server.App.Rounds.{IsReady}
use kvmemo.Server.App.Rounds.Clients.{RoundSettles, process_each-RoundSettles}
use kvmemo.Server.App.Rounds.Keyed.{Keyed}
use kvmemo.Server.App.Rounds.Loop.{EnoughFuel, contains-keys, keys-Distinct}
use kvmemo.Server.App.Select.{process_each, is_set, process_connections, selected, returning}

module _ (hash : Str → ℕ) {P W : Type 0} (policy : EvictionPolicy P) (sys : Sockets W)
    (overread : Buffer → Outcome (Unit {0}) × Buffer) (laws : SocketLaws sys)
    (apart : ApartLaws sys laws) where
  -- The descriptors that a round watches.
  abbrev pub watched : App P → List ℕ
  watched a = map (λ p. p.0) a.server.connections

  selected_each :
      (fuel : ℕ) (times : ℕ → ℕ → Times) (a : App P) (p : Option (List Fd) × W) (ready : List Fd)
      → p.0 ≡ some ready
      → is_set hash policy sys overread a.server.listen_fd ready ≡ false
      → selected hash policy sys overread fuel times a p
        ≡ returning hash policy sys overread
            (process_each hash policy sys overread fuel times ready a.active_fds a p.1)
  selected_each fuel times a (none, w) ready e quiet = absurd (cc e)
  selected_each fuel times a (some l, w) ready e quiet =
      let same : ready ≡ l = ground (arith, e) in
      subst
        (λ l.
          selected hash policy sys overread fuel times a (some l, w)
          ≡ returning hash policy sys overread
              (process_each hash policy sys overread fuel times ready a.active_fds a w))
        same (rw quiet refl)

  -- Let `select` of a round report some connections of a valid server and no new client, where
  -- every connection has the descriptor of its key, a call for one descriptor writes nothing to
  -- another one, and the fuel is more than the bytes that any connection can hold after one read.
  -- The round returns. For each connection reported, the loop over those before it ends in a valid
  -- state in which it and what was sent to it are as they were, such that after the whole round,
  -- whatever follows: if its `read` in that state gives bytes, its output has grown by exactly the
  -- responses to its own frames, run on the engine of that state, and its other bytes stay; if one
  -- of these commands throws, or `read` fails or gives nothing, it is gone.
  pub process_connections-RoundSettles :
      (fuel : ℕ) (times : ℕ → ℕ → Times) (a : App P) (w : W) (ready : List Fd) (q : ℕ)
      (c : Connection)
      → (sys.select a.server.listen_fd (watched a) w).0 ≡ some ready
      → is_set hash policy sys overread a.server.listen_fd ready ≡ false
      → is_set hash policy sys overread (some q) ready ≡ true
      → IsReady hash a
      → EnoughFuel hash policy sys overread laws fuel a
      → Keyed a
      → lookup q a.server.connections ≡ some c
      → (s : RoundSettles hash policy sys overread laws apart fuel times ready
          (watched a)
          q
          c
          (record a { active_fds = watched a })
          (sys.select a.server.listen_fd (watched a) w).1)
        × (process_connections hash policy sys overread fuel times a w
            ≡ some (returns tt, s.0, s.1))
  unfolding process_connections
  process_connections-RoundSettles fuel times a w ready q c e quiet r v h k found =
      let a1 = record a { active_fds = watched a } in
      let p = sys.select a.server.listen_fd (watched a) w in
      let s =
        process_each-RoundSettles hash policy sys overread laws apart fuel times ready (watched a) q
          c a1 p.1 (keys-Distinct a.server.connections v.unique)
          (contains-keys q a.server.connections ∙ ap is_some found) r
          (record { engine_valid = v.engine_valid; unique = v.unique; valid = v.valid })
          (λ i g. h.1 i) (λ i g. k i) found in
      (s, selected_each fuel times a1 p ready e quiet ∙ ap (returning hash policy sys overread) s.9)
