-- ===== src/Server/App/Rounds/Clients.antt =====
-- src/server/server_app.h: several clients in one round. Each gets the answers to its own bytes.
use kvmemo.Base.{
  ℕ, suc, Str, List, [], ◌∷◌, ◌++◌, ◌≡◌, refl, sym, ap, ◌∙◌, some, Outcome, arith, lookup, ℕ_eq,
  Distinct, contains, true, subst,
}
use kvmemo.Eviction.Policy.{EvictionPolicy}
use kvmemo.Net.Connection.{Connection}
use kvmemo.Net.Sockets.{Fd, Sockets, SocketLaws, ApartLaws}
use kvmemo.Protocol.Buffer.{Buffer}
use kvmemo.Server.Dispatcher.{Times}
use kvmemo.Server.App.{App}
use kvmemo.Server.App.Isolation.{Others, connection_safe_process-Others}
use kvmemo.Server.App.Rounds.{IsReady, connection_safe_process-Ends}
use kvmemo.Server.App.Rounds.Loop.{AllFuel, one-Ends}
use kvmemo.Server.App.Select.{process_each, is_set}
use kvmemo.Server.App.Settled.{Settled, Settled-later, connection_safe_process-Settled}
use kvmemo.Server.App.Rounds.Quiet.{AllFds, one-Apart, rest_fuel, rest_fds, process_each-quiet}

module _ (hash : Str → ℕ) {P W : Type 0} (policy : EvictionPolicy P) (sys : Sockets W)
    (overread : Buffer → Outcome (Unit {0}) × Buffer) (laws : SocketLaws sys)
    (apart : ApartLaws sys laws) where
  open laws use {sent}

  -- The rest of the round, after the turn of a client.
  after_turn :
      (fuel : ℕ) (times : ℕ → ℕ → Times) (ready : List Fd) (fds : List ℕ) (q : ℕ) (c : Connection)
      (a a1 : App P) (w w1 : W)
      → Distinct (q ∷ fds)
      → IsReady hash a1
      → Others hash policy sys q a a1
      → AllFuel hash policy sys overread laws fuel (q ∷ fds) a
      → AllFds hash policy sys overread laws apart (q ∷ fds) a
      → lookup q a.server.connections ≡ some c
      → Settled hash policy sys laws fuel (times 0) q c w a.engine (sys.read c.fd 4096 w).0 a1 w1
      → (a' : App P) × (w' : W) × (process_each hash policy sys overread fuel
            (λ k. times (suc k))
            ready
            fds
            a1
            w1
          ≡ some (a', w'))
        × Settled hash policy sys laws fuel (times 0) q c w a.engine (sys.read c.fd 4096 w).0 a' w'
  unfolding contains
  after_turn fuel times ready fds q c a a1 w w1 d v1 others h f e s =
      let (a', w', p, same, silent) =
        process_each-quiet hash policy sys overread laws apart fuel (λ k. times (suc k)) ready fds q
          a1 w1 d.1 d.0 v1
          (rest_fuel hash policy sys overread laws apart fuel q fds a a1 others d h)
          (rest_fds hash policy sys overread laws apart fuel q fds a a1 others d f) in
      let fd : c.fd ≡ some q = f q (ground arith) c e in
      (
        a',
        w',
        p,
        Settled-later hash policy sys laws fuel (times 0) q c w a.engine (sys.read c.fd 4096 w).0 a1
            a' w1 w' same (ap (λ d. sent d w') fd ∙ silent ∙ ap (λ d. sent d w1) (sym fd)) s,
      )

  -- The turn of a client in a round: the descriptors before and after its own, the state and the
  -- system that the round has reached by then, and the readings of the clock.
  abbrev pub RoundSettles :
      ℕ → (ℕ → ℕ → Times) → List Fd → List ℕ → ℕ → Connection → App P → W → Type 0
  RoundSettles fuel times ready fds q c a w =
      (a' : App P) × (w' : W) × (t : ℕ → Times) × (a1 : App P) × (w1 : W) × (before : List ℕ)
      × (after : List ℕ) × (fds ≡ before ++ q ∷ after)
      × (process_each hash policy sys overread fuel times ready before a w ≡ some (a1, w1))
      × (process_each hash policy sys overread fuel times ready fds a w ≡ some (a', w'))
      × IsReady hash a1
      × (lookup q a1.server.connections ≡ some c)
      × (sent (some q) w1 ≡ sent (some q) w)
      × Settled hash policy sys laws fuel t q c w1 a1.engine (sys.read c.fd 4096 w1).0 a' w'

  own_turn :
      (fuel : ℕ) (times : ℕ → ℕ → Times) (ready : List Fd) (fds : List ℕ) (q : ℕ) (c : Connection)
      (a : App P) (w : W)
      → Distinct (q ∷ fds)
      → is_set hash policy sys overread (some q) ready ≡ true
      → IsReady hash a
      → AllFuel hash policy sys overread laws fuel (q ∷ fds) a
      → AllFds hash policy sys overread laws apart (q ∷ fds) a
      → lookup q a.server.connections ≡ some c
      → RoundSettles fuel times ready (q ∷ fds) q c a w
  unfolding process_each contains
  own_turn fuel times ready fds q c a w d r v h f e =
      let enough = h q (ground arith) in
      let (a1, w1, p, s) =
        connection_safe_process-Settled hash policy sys laws overread fuel (times 0) q a w c e
          (v.valid q c e) enough in
      let (a0, w0, p0, v0) =
        connection_safe_process-Ends hash policy sys overread laws fuel (times 0) q a w v enough in
      let same : a0 ≡ a1 = ground (arith, p, p0) in
      let others =
        connection_safe_process-Others hash policy sys overread fuel (times 0) q a w a1 w1 p in
      let (a', w', rest, settled) =
        after_turn fuel times ready fds q c a a1 w w1 d (subst (IsReady hash) same v0) others h f e
          s in
      (
        a',
        w',
        times 0,
        a,
        w,
        [],
        fds,
        refl,
        refl,
        rw (r, process_each, p) rest,
        v,
        e,
        refl,
        settled,
      )

  -- Each ready connection of the loop is settled at its turn.
  pub process_each-RoundSettles :
      (fuel : ℕ) (times : ℕ → ℕ → Times) (ready : List Fd) (fds : List ℕ) (q : ℕ) (c : Connection)
      (a : App P) (w : W)
      → Distinct fds
      → contains q fds ≡ true
      → is_set hash policy sys overread (some q) ready ≡ true
      → IsReady hash a
      → AllFuel hash policy sys overread laws fuel fds a
      → AllFds hash policy sys overread laws apart fds a
      → lookup q a.server.connections ≡ some c
      → RoundSettles fuel times ready fds q c a w
  unfolding process_each contains
  process_each-RoundSettles fuel times ready [] q c a w d i r v h f e = absurd (cc i)
  process_each-RoundSettles fuel times ready (fd ∷ fds) q c a w d i r v h f e =
      elim (ℕ_eq.dec fd q) [
        | yes same ↦
            subst (λ n. RoundSettles fuel times ready (n ∷ fds) q c a w) (sym same)
              (own_turn fuel times ready fds q c a w (subst (λ n. Distinct (n ∷ fds)) same d) r v
                (subst (λ n. AllFuel hash policy sys overread laws fuel (n ∷ fds) a) same h)
                (subst (λ n. AllFds hash policy sys overread laws apart (n ∷ fds) a) same f) e)
        | no other ↦
            let b = is_set hash policy sys overread (some fd) ready in
            let (a1, w1, p, v1, others) =
              one-Ends hash policy sys overread laws fuel (times 0) b fd a w v
                (h fd (ground arith)) in
            let (kept, silent) =
              one-Apart hash policy sys overread laws apart fuel (times 0) b fd a w
                (f fd (ground arith)) a1 w1 p q other in
            let (a', w', t, a2, w2, before, after, parts, reached, rest, v2, e2, silent2, settled) =
              process_each-RoundSettles fuel (λ k. times (suc k)) ready fds q c a1 w1 d.1
                (ground (arith, i, other)) r v1
                (rest_fuel hash policy sys overread laws apart fuel fd fds a a1 others d h)
                (rest_fds hash policy sys overread laws apart fuel fd fds a a1 others d f)
                (kept ∙ e) in
            (
              a',
              w',
              t,
              a2,
              w2,
              fd ∷ before,
              after,
              ap (λ l. fd ∷ l) parts,
              rw (p, process_each) reached,
              rw (p, process_each) rest,
              v2,
              e2,
              silent2 ∙ silent,
              settled,
            )
      ]
