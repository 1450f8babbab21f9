-- ===== src/Server/App/Apart.antt =====
-- src/server/server_app.h: a call for one connection writes nothing to another client.
use kvmemo.Base.{
  ℕ, zero, suc, Str, [], ◌∷◌, ◌≡◌, ◌≢◌, refl, sym, ◌∙◌, subst, Option, none, some, Outcome, returns,
  throws, arith, lookup, ℕ_eq, Option-cases, inl, inr,
}
use kvmemo.Base.Assoc
use kvmemo.Core.Engine.{Engine}
use kvmemo.Eviction.Policy.{EvictionPolicy}
use kvmemo.Net.Connection as Connection
use kvmemo.Net.Connection.{Connection, read_from_socket, write_to_socket, received, sent_off}
use kvmemo.Net.Sockets.{Fd, Sockets, SocketLaws, ApartLaws}
use kvmemo.Protocol.Buffer.{Buffer, append, readable}
use kvmemo.Protocol.Framing.{next_frame}
use kvmemo.Server.Dispatcher.{Times}
use kvmemo.Server.App.{
  App, Session, serve, framed, answered, flushed, answer_frame, finished, handled, drop_connection,
  connection_safe_process,
}
use kvmemo.Server.App.Isolation.{with_session}

fd-sent_off : (n : Option ℕ) (c : Connection) → (sent_off n c).1.fd ≡ c.fd
fd-sent_off none c = refl
fd-sent_off (some zero) c = refl
fd-sent_off (some (suc n)) c = refl

fd-received :
    (overread : Buffer → Outcome (Unit {0}) × Buffer) (o : Option Str) (c : Connection)
    → (received overread o c).1.fd ≡ c.fd
fd-received overread none c = refl
fd-received overread (some []) c = refl
fd-received overread (some (b ∷ bytes)) c = refl

-- The connection at a key has that descriptor.
abbrev pub HasFd : {P : Type 0} → ℕ → App P → Type 0
HasFd fd a = (c : Connection) → lookup fd a.server.connections ≡ some c → c.fd ≡ some fd

module _ (hash : Str → ℕ) {P W : Type 0} (policy : EvictionPolicy P) (sys : Sockets W)
    (laws : SocketLaws sys) (apart : ApartLaws sys laws) (q : Fd) where
  open laws use {sent}

  -- The session has the descriptor and what was sent to `q` of another one.
  abbrev Kept : Fd → W → Session P W → Type 0
  Kept fd w s = (s.connection.fd ≡ fd) × (sent q s.world ≡ sent q w)

  abbrev AllKept : Fd → W → Option (Outcome (Unit {0}) × Session P W) → Type 0
  AllKept fd w o = (r : Outcome (Unit {0})) (s' : Session P W) → o ≡ some (r, s') → Kept fd w s'

  flushed-Kept :
      (fd : Fd) (w : W) (rest : Session P W → Option (Outcome (Unit {0}) × Session P W))
      (e : Engine P) (p : Outcome (Unit {0}) × Connection × W)
      → (p.1.fd ≡ fd) × (sent q p.2 ≡ sent q w)
      → ((s : Session P W) → Kept fd w s → AllKept fd w (rest s))
      → AllKept fd w (flushed hash policy sys rest e p)
  flushed-Kept fd w rest e (throws x, c, w') k h r s' g = ground (arith, g, k)
  flushed-Kept fd w rest e (returns _, c, w') k h r s' g =
      h (record { connection = c; engine = e; world = w' }) k r s' g

  write-Kept :
      (c : Connection) (w : W)
      → c.fd ≢ q
      → let (r, c', w') = write_to_socket sys c w in (c'.fd ≡ c.fd) × (sent q w' ≡ sent q w)
  unfolding write_to_socket
  write-Kept c w n = (fd-sent_off _ c, apart.apart_write c.fd q (readable c.output_buffer) w n)

  answered-Kept :
      (fd : Fd) (w : W) (rest : Session P W → Option (Outcome (Unit {0}) × Session P W))
      (c : Connection) (w' : W) (a : Outcome Str × Engine P)
      → fd ≢ q
      → (c.fd ≡ fd) × (sent q w' ≡ sent q w)
      → ((s : Session P W) → Kept fd w s → AllKept fd w (rest s))
      → AllKept fd w (answered hash policy sys rest c w' a)
  answered-Kept fd w rest c w' (throws x, e) n k h r s' g = ground (arith, g, k)
  answered-Kept fd w rest c w' (returns wire, e) n k h r s' g =
      let c' = record c { output_buffer = append wire c.output_buffer } in
      let p = write-Kept c' w' (λ same. n (sym k.0 ∙ same)) in
      flushed-Kept fd w rest e (write_to_socket sys c' w') (p.0 ∙ k.0, p.1 ∙ k.1) h r s' g

  framed-Kept :
      (fd : Fd) (w : W) (rest : Session P W → Option (Outcome (Unit {0}) × Session P W)) (t : Times)
      (s : Session P W) (f : Outcome (Option Str) × Buffer)
      → fd ≢ q
      → Kept fd w s
      → ((s : Session P W) → Kept fd w s → AllKept fd w (rest s))
      → AllKept fd w (framed hash policy sys rest t s f)
  framed-Kept fd w rest t s (throws x, b) n k h r s' g = ground (arith, g, k)
  framed-Kept fd w rest t s (returns none, b) n k h r s' g = ground (arith, g, k)
  framed-Kept fd w rest t s (returns (some frame), b) n k h r s' g =
      answered-Kept fd w rest (record s.connection { input_buffer = b }) s.world
        (answer_frame hash policy t frame s.engine) n k h r s' g

  serve-Kept :
      (fd : Fd) (w : W) (fuel : ℕ) (times : ℕ → Times) (s : Session P W)
      → fd ≢ q
      → Kept fd w s
      → AllKept fd w (serve hash policy sys fuel times s)
  unfolding serve
  serve-Kept fd w zero times s n k = (λ r s' g. absurd (cc g))
  serve-Kept fd w (suc fuel) times s n k =
      framed-Kept fd w (serve hash policy sys fuel (λ i. times (suc i))) (times 0) s
        (next_frame s.connection.input_buffer) n k
        (λ s' k'. serve-Kept fd w fuel (λ i. times (suc i)) s' n k')

  abbrev Silent : W → Option (App P × W) → Type 0
  Silent w o = (a' : App P) (w' : W) → o ≡ some (a', w') → sent q w' ≡ sent q w

  sent-close :
      (fd : ℕ) (c : Connection) (w : W)
      → c.fd ≡ some fd
      → some fd ≢ q
      → sent q (Connection.close sys c w).1 ≡ sent q w
  unfolding Connection.close
  sent-close fd c w e n = rw e (apart.apart_close fd q w n)

  drop-Silent :
      (fd : ℕ) (a : App P) (w w0 : W)
      → HasFd fd a
      → some fd ≢ q
      → sent q w ≡ sent q w0
      → Silent w0 (some (drop_connection hash policy sys fd a w))
  unfolding drop_connection
  drop-Silent fd a w w0 h n k a' w' g = elim (Option-cases (lookup fd a.server.connections)) [
    | inl e ↦ ground (arith, e, g, k)
    | inr (c, e) ↦ ground (arith, e, g, k, sent-close fd c w (h c e) n)
  ]

  finished-Silent :
      (fd : ℕ) (a : App P) (w : W) (o : Option (Outcome (Unit {0}) × Session P W))
      → some fd ≢ q
      → AllKept (some fd) w o
      → Silent w (finished hash policy sys fd a o)
  finished-Silent fd a w none n h a' w' g = absurd (cc g)
  finished-Silent fd a w (some (returns u, s)) n h a' w' g =
      ground (arith, g, (h (returns u) s refl).1)
  finished-Silent fd a w (some (throws x, s)) n h a' w' g =
      let k = h (throws x) s refl in
      drop-Silent fd (with_session hash policy sys fd a s) s.world w
        (λ c e.
          subst (λ d. d.fd ≡ some fd) {x = s.connection} {y = c}
            (ground (arith, e, Assoc.lookup-insert fd fd s.connection a.server.connections)) k.0)
        n k.1 a' w' g

  handled-Silent :
      (fuel : ℕ) (times : ℕ → Times) (fd : ℕ) (a : App P) (w : W)
      (p : Outcome (Option ℕ) × Connection × W)
      → HasFd fd a
      → some fd ≢ q
      → (p.1.fd ≡ some fd) × (sent q p.2 ≡ sent q w)
      → Silent w (handled hash policy sys fuel times fd a p)
  handled-Silent fuel times fd a w (throws x, c, w1) h n k a' w' g =
      drop-Silent fd a w1 w h n k.1 a' w' g
  handled-Silent fuel times fd a w (returns none, c, w1) h n k a' w' g =
      drop-Silent fd a w1 w h n k.1 a' w' g
  handled-Silent fuel times fd a w (returns (some zero), c, w1) h n k a' w' g =
      drop-Silent fd a w1 w h n k.1 a' w' g
  handled-Silent fuel times fd a w (returns (some (suc m)), c, w1) h n k a' w' g =
      finished-Silent fd a w _ n
        (serve-Kept (some fd) w fuel times
          (record { connection = c; engine = a.engine; world = w1 }) n k)
        a' w' g

  read-Kept :
      (overread : Buffer → Outcome (Unit {0}) × Buffer) (fd : ℕ) (c : Connection) (w : W)
      → c.fd ≡ some fd
      → some fd ≢ q
      → let p = read_from_socket sys overread c w in (p.1.fd ≡ some fd) × (sent q p.2 ≡ sent q w)
  unfolding read_from_socket
  read-Kept overread fd c w e n = (
    fd-received overread (sys.read c.fd 4096 w).0 c ∙ e,
    apart.apart_read c.fd q 4096 w (λ same. n (sym e ∙ same)),
  )

  -- A call for one connection writes nothing to another descriptor.
  pub sent-connection_safe_process :
      (overread : Buffer → Outcome (Unit {0}) × Buffer) (fuel : ℕ) (times : ℕ → Times) (fd : ℕ)
      (a : App P) (w : W)
      → HasFd fd a
      → some fd ≢ q
      → (a' : App P) (w' : W)
      → connection_safe_process hash policy sys overread fuel times fd a w ≡ some (a', w')
      → sent q w' ≡ sent q w
  unfolding connection_safe_process
  sent-connection_safe_process overread fuel times fd a w h n a' w' g =
      elim (Option-cases (lookup fd a.server.connections)) [
        | inl e ↦
            drop-Silent fd a w w h n refl a' w' (sym (rw (e, connection_safe_process) refl) ∙ g)
        | inr (c, e) ↦
            handled-Silent fuel times fd a w (read_from_socket sys overread c w) h n
              (read-Kept overread fd c w (h c e) n) a' w'
              (sym (rw (e, connection_safe_process) refl) ∙ g)
      ]
