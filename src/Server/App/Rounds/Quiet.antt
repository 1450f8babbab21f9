-- ===== src/Server/App/Rounds/Quiet.antt =====
-- src/server/server_app.h: what the loop over the ready connections leaves to the other clients.
use kvmemo.Base.{
  ℕ, suc, Str, List, [], ◌∷◌, ◌≡◌, ◌≢◌, refl, sym, ◌∙◌, some, Outcome, arith, lookup, ℕ_eq,
  Distinct, contains, Bool, true, false, if◌then◌else◌,
}
use kvmemo.Eviction.Policy.{EvictionPolicy}
use kvmemo.Net.Sockets.{Fd, Sockets, SocketLaws, ApartLaws}
use kvmemo.Protocol.Buffer.{Buffer}
use kvmemo.Server.Dispatcher.{Times}
use kvmemo.Server.App.{App, connection_safe_process}
use kvmemo.Server.App.Apart.{HasFd, sent-connection_safe_process}
use kvmemo.Server.App.Isolation.{Others, connection_safe_process-Others}
use kvmemo.Server.App.Rounds.{IsReady}
use kvmemo.Server.App.Rounds.Loop.{AllFuel, one-Ends}
use kvmemo.Server.App.Select.{process_each, is_set}

module _ (hash : Str → ℕ) {P W : Type 0} (policy : EvictionPolicy P) (sys : Sockets W)
    (overread : Buffer → Outcome (Unit {0}) × Buffer) (laws : SocketLaws sys)
    (apart : ApartLaws sys laws) where
  open laws use {sent}

  -- Every connection of the list has the descriptor of its key.
  abbrev pub AllFds : List ℕ → App P → Type 0
  AllFds fds a = (q : ℕ) → contains q fds ≡ true → HasFd q a

  -- What a step for `fd` leaves to another client `q`.
  abbrev pub Apart : ℕ → ℕ → App P → W → App P → W → Type 0
  Apart fd q a w a' w' =
      fd ≢ q
      → (lookup q a'.server.connections ≡ lookup q a.server.connections)
        × (sent (some q) w' ≡ sent (some q) w)

  pub one-Apart :
      (fuel : ℕ) (times : ℕ → Times) (b : Bool) (fd : ℕ) (a : App P) (w : W)
      → HasFd fd a
      → (a' : App P) (w' : W)
      → (if b
          then connection_safe_process hash policy sys overread fuel times fd a w
          else some (a, w))
        ≡ some (a', w')
      → (q : ℕ) → Apart fd q a w a' w'
  one-Apart fuel times false fd a w f a' w' p q n = ground (arith, p)
  one-Apart fuel times true fd a w f a' w' p q n = (
    connection_safe_process-Others hash policy sys overread fuel times fd a w a' w' p q n,
    sent-connection_safe_process hash policy sys laws apart (some q) overread fuel times fd a w f
        (λ e. n (cc e)) a' w' p,
  )

  -- After the first step the rest of the list is as ready as it was.
  module _ (fuel fd : ℕ) (fds : List ℕ) (a a' : App P) (others : Others hash policy sys fd a a')
      (d : Distinct (fd ∷ fds)) where
    pub rest_fuel :
        AllFuel hash policy sys overread laws fuel (fd ∷ fds) a
        → AllFuel hash policy sys overread laws fuel fds a'
    unfolding contains
    rest_fuel h q i c e = h q (ground arith) c (sym (others q (λ same. cc (d.0, i, same))) ∙ e)

    pub rest_fds : AllFds (fd ∷ fds) a → AllFds fds a'
    unfolding contains
    rest_fds h q i c e = h q (ground arith) c (sym (others q (λ same. cc (d.0, i, same))) ∙ e)

  -- A client that is not in the list keeps its connection and what was sent to it.
  pub process_each-quiet :
      (fuel : ℕ) (times : ℕ → ℕ → Times) (ready : List Fd) (fds : List ℕ) (q : ℕ) (a : App P)
      (w : W)
      → Distinct fds
      → contains q fds ≡ false
      → IsReady hash a
      → AllFuel hash policy sys overread laws fuel fds a
      → AllFds fds a
      → (a' : App P) × (w' : W) × (process_each hash policy sys overread fuel times ready fds a w
          ≡ some (a', w'))
        × (lookup q a'.server.connections ≡ lookup q a.server.connections)
        × (sent (some q) w' ≡ sent (some q) w)
  unfolding process_each contains
  process_each-quiet fuel times ready [] q a w d out v h f = (a, w, refl, refl, refl)
  process_each-quiet fuel times ready (fd ∷ fds) q a w d out v h f =
      let b = is_set hash policy sys overread (some fd) ready in
      let (a1, w1, p, v1, others) =
        one-Ends hash policy sys overread laws fuel (times 0) b fd a w v (h fd (ground arith)) in
      let (same, silent) =
        one-Apart fuel (times 0) b fd a w (f fd (ground arith)) a1 w1 p q (ground (arith, out)) in
      let (a', w', e, same', silent') =
        process_each-quiet fuel (λ k. times (suc k)) ready fds q a1 w1 d.1 (ground (arith, out)) v1
          (rest_fuel fuel fd fds a a1 others d h) (rest_fds fuel fd fds a a1 others d f) in
      (a', w', rw (p, process_each) e, same' ∙ same, silent' ∙ silent)
