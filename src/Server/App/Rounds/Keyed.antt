-- ===== src/Server/App/Rounds/Keyed.antt =====
-- src/server/server_app.h: every connection is kept under its own descriptor, in every round.
use kvmemo.Base.{
  ℕ, suc, Str, List, [], ◌∷◌, map, ◌≡◌, refl, sym, ap, ◌∙◌, subst, Option, none, some, Outcome,
  returns, throws, arith, lookup, ℕ_eq, Option-cases, Bool-cases, inl, inr, Distinct, contains,
  Bool, true, false, if◌then◌else◌,
}
use kvmemo.Base.Assoc
use kvmemo.Core.Engine.{Engine}
use kvmemo.Eviction.Policy.{EvictionPolicy}
use kvmemo.Net.Connection as Connection
use kvmemo.Net.Connection.{Connection}
use kvmemo.Net.Connections as Manager
use kvmemo.Net.Sockets.{Fd, Sockets, SocketLaws}
use kvmemo.Net.TcpServer
use kvmemo.Net.TcpServer.{TcpServer, admitted}
use kvmemo.Protocol.Buffer.{Buffer}
use kvmemo.Server.Dispatcher.{Times}
use kvmemo.Server.App.{App, connection_safe_process, drop_connection}
use kvmemo.Server.App.Apart.{HasFd}
use kvmemo.Server.App.Isolation.{Others}
use kvmemo.Server.App.Rounds.{IsReady, HasFuel}
use kvmemo.Server.App.Rounds.Loop.{
  AllFuel, one-Ends, EnoughFuel, with_client, with_client-IsReady, with_client-fuel, keys-Distinct,
}
use kvmemo.Server.App.Select.{
  process_each, is_set, process_connections, selected, accepted, returning,
}
use kvmemo.Server.App.Settled.{Settled, Outcomes, connection_safe_process-Settled}

abbrev pub Keyed : {P : Type 0} → App P → Type 0
Keyed a = (q : ℕ) → HasFd q a

module _ (hash : Str → ℕ) {P W : Type 0} (policy : EvictionPolicy P) (sys : Sockets W)
    (overread : Buffer → Outcome (Unit {0}) × Buffer) (laws : SocketLaws sys) where
  gone-HasFd : (fd : ℕ) (a : App P) → lookup fd a.server.connections ≡ none → HasFd fd a
  gone-HasFd fd a e c h = absurd (cc (e, h))

  Outcomes-HasFd :
      (fd : ℕ) (c : Connection) (w : W) (spec : Outcome (Unit {0}) × Str × Engine P) (left : Str)
      (a' : App P) (w' : W)
      → c.fd ≡ some fd
      → Outcomes hash policy sys laws fd c w spec left a' w'
      → HasFd fd a'
  Outcomes-HasFd fd c w (throws x, out, e) left a' w' k h d g = gone-HasFd fd a' h d g
  Outcomes-HasFd fd c w (returns u, out, e) left a' w' k (c', found, f, o, i) d g =
      let same : d ≡ c' = ground (arith, found, g) in ap (λ x. x.fd) same ∙ f ∙ k

  Settled-HasFd :
      (fuel : ℕ) (times : ℕ → Times) (fd : ℕ) (c : Connection) (w : W) (e : Engine P)
      (o : Option Str) (a' : App P) (w' : W)
      → c.fd ≡ some fd
      → Settled hash policy sys laws fuel times fd c w e o a' w'
      → HasFd fd a'
  Settled-HasFd fuel times fd c w e none a' w' k h = gone-HasFd fd a' h
  Settled-HasFd fuel times fd c w e (some []) a' w' k h = gone-HasFd fd a' h
  Settled-HasFd fuel times fd c w e (some (b ∷ bytes)) a' w' k h =
      Outcomes-HasFd fd c w _ _ a' w' k h

  unknown-HasFd :
      (fuel : ℕ) (times : ℕ → Times) (fd : ℕ) (a : App P) (w : W) (a' : App P) (w' : W)
      → lookup fd a.server.connections ≡ none
      → connection_safe_process hash policy sys overread fuel times fd a w ≡ some (a', w')
      → HasFd fd a'
  unfolding connection_safe_process drop_connection
  unknown-HasFd fuel times fd a w a' w' e p = gone-HasFd fd a' (ground (arith, e, p))

  one-Keyed :
      (fuel : ℕ) (times : ℕ → Times) (fd : ℕ) (a : App P) (w : W) (a' : App P) (w' : W)
      → IsReady hash a
      → HasFuel hash fuel fd a
      → Keyed a
      → connection_safe_process hash policy sys overread fuel times fd a w ≡ some (a', w')
      → HasFd fd a'
  one-Keyed fuel times fd a w a' w' v h k p = elim (Option-cases (lookup fd a.server.connections)) [
    | inl e ↦ unknown-HasFd fuel times fd a w a' w' e p
    | inr (c, e) ↦
        let (a1, w1, p1, s) =
          connection_safe_process-Settled hash policy sys laws overread fuel times fd a w c e
            (v.valid fd c e) h in
        let same : a1 ≡ a' = ground (arith, p, p1) in
        subst (HasFd fd) same
          (Settled-HasFd fuel times fd c w a.engine (sys.read c.fd 4096 w).0 a1 w1 (k fd c e) s)
  ]

  step-Keyed :
      (fuel : ℕ) (times : ℕ → Times) (b : Bool) (fd : ℕ) (a : App P) (w : W) (a' : App P) (w' : W)
      → IsReady hash a
      → HasFuel hash fuel fd a
      → Keyed a
      → Others hash policy sys fd a a'
      → (if b
          then connection_safe_process hash policy sys overread fuel times fd a w
          else some (a, w))
        ≡ some (a', w')
      → Keyed a'
  step-Keyed fuel times false fd a w a' w' v h k others p q =
      let same : a ≡ a' = ground (arith, p) in subst (HasFd q) same (k q)
  step-Keyed fuel times true fd a w a' w' v h k others p q = elim (ℕ_eq.dec fd q) [
    | yes same ↦ subst (λ n. HasFd n a') same (one-Keyed fuel times fd a w a' w' v h k p)
    | no other ↦ λ c e. k q c (sym (others q other) ∙ e)
  ]

  -- The loop over the connections keeps every connection under its own descriptor.
  pub process_each-Keyed :
      (fuel : ℕ) (times : ℕ → ℕ → Times) (ready : List Fd) (fds : List ℕ) (a : App P) (w : W)
      (a' : App P) (w' : W)
      → Distinct fds
      → IsReady hash a
      → AllFuel hash policy sys overread laws fuel fds a
      → Keyed a
      → process_each hash policy sys overread fuel times ready fds a w ≡ some (a', w')
      → Keyed a'
  unfolding process_each contains
  process_each-Keyed fuel times ready [] a w a' w' d v h k p q =
      let same : a ≡ a' = ground (arith, p) in subst (HasFd q) same (k q)
  process_each-Keyed fuel times ready (fd ∷ fds) a w a' w' d v h k p q =
      let b = is_set hash policy sys overread (some fd) ready in
      let (a1, w1, p1, v1, others) =
        one-Ends hash policy sys overread laws fuel (times 0) b fd a w v (h fd (ground arith)) in
      process_each-Keyed fuel (λ i. times (suc i)) ready fds a1 w1 a' w' d.1 v1
        (λ q i c e. h q (ground arith) c (sym (others q (λ same. cc (d.0, i, same))) ∙ e))
        (step-Keyed fuel (times 0) b fd a w a1 w1 v (h fd (ground arith)) k others p1)
        (sym (rw (p1, process_each) refl) ∙ p) q

  returning-Keyed :
      (o : Option (App P × W)) (r : Outcome (Unit {0})) (a' : App P) (w' : W)
      → ((a1 : App P) (w1 : W) → o ≡ some (a1, w1) → Keyed a1)
      → returning hash policy sys overread o ≡ some (r, a', w')
      → Keyed a'
  returning-Keyed none r a' w' h p = absurd (cc p)
  returning-Keyed (some (a1, w1)) r a' w' h p =
      let same : a1 ≡ a' = ground (arith, p) in subst Keyed same (h a1 w1 refl)

  with_client-Keyed :
      (fd : ℕ) (a : App P) → Keyed a → Keyed (with_client hash policy sys overread laws fd a)
  unfolding Manager.add
  with_client-Keyed fd a k q c e =
      ground
        (arith, e, k q c, Assoc.lookup-emplace fd q (Connection.new (some fd)) a.server.connections)

  accepted-Keyed :
      (fuel : ℕ) (times : ℕ → ℕ → Times) (ready : List Fd) (a : App P) (new : Fd × W)
      (r : Outcome (Unit {0})) (a' : App P) (w' : W)
      → Distinct a.active_fds
      → IsReady hash a
      → EnoughFuel hash policy sys overread laws fuel a
      → Keyed a
      → accepted hash policy sys overread fuel times ready a (admitted sys new a.server)
        ≡ some (r, a', w')
      → Keyed a'
  accepted-Keyed fuel times ready a (none, w) r a' w' d v h k p =
      let same : a ≡ a' = ground (arith, p) in subst Keyed same k
  accepted-Keyed fuel times ready a (some fd, w) r a' w' d v h k p =
      returning-Keyed _ r a' w'
        (λ a1 w1 e.
          process_each-Keyed fuel times ready a.active_fds
            (with_client hash policy sys overread laws fd a) _ a1 w1 d
            (with_client-IsReady hash policy sys overread laws fd a v)
            (λ q i. with_client-fuel hash policy sys overread laws fuel fd a h q)
            (with_client-Keyed fd a k) e)
        p

  selected-Keyed :
      (fuel : ℕ) (times : ℕ → ℕ → Times) (a : App P) (p : Option (List Fd) × W)
      (r : Outcome (Unit {0})) (a' : App P) (w' : W)
      → Distinct a.active_fds
      → IsReady hash a
      → EnoughFuel hash policy sys overread laws fuel a
      → Keyed a
      → selected hash policy sys overread fuel times a p ≡ some (r, a', w')
      → Keyed a'
  unfolding TcpServer.accept
  selected-Keyed fuel times a (none, w) r a' w' d v h k p =
      let same : a ≡ a' = ground (arith, p) in subst Keyed same k
  selected-Keyed fuel times a (some ready, w) r a' w' d v h k p =
      elim (Bool-cases (is_set hash policy sys overread a.server.listen_fd ready)) [
        | inl b ↦
            accepted-Keyed fuel times ready a (sys.accept a.server.listen_fd w) r a' w' d v h k
              (sym (rw b refl) ∙ p)
        | inr b ↦
            returning-Keyed _ r a' w'
              (λ a1 w1 e.
                process_each-Keyed fuel times ready a.active_fds a w a1 w1 d v (λ q i. h.1 q) k e)
              (sym (rw b refl) ∙ p)
      ]

  -- A round keeps every connection under its own descriptor.
  pub process_connections-Keyed :
      (fuel : ℕ) (times : ℕ → ℕ → Times) (a : App P) (w : W) (r : Outcome (Unit {0})) (a' : App P)
      (w' : W)
      → IsReady hash a
      → EnoughFuel hash policy sys overread laws fuel a
      → Keyed a
      → process_connections hash policy sys overread fuel times a w ≡ some (r, a', w')
      → Keyed a'
  unfolding process_connections
  process_connections-Keyed fuel times a w r a' w' v h k p =
      let fds = map (λ (p : ℕ × Connection). p.0) a.server.connections in
      selected-Keyed fuel times (record a { active_fds = fds })
        (sys.select a.server.listen_fd fds w) r a' w' (keys-Distinct a.server.connections v.unique)
        (record { engine_valid = v.engine_valid; unique = v.unique; valid = v.valid }) h k p
