-- ===== src/Net/TcpServer/Opening.antt =====
-- src/net/tcp_server.h: how the server starts to listen.
use kvmemo.Base.{
  ◌%◌, ◌≡◌, refl, none, some, Bool, true, false, ◌&&◌, is_some, returns, throws, runtime_error,
  if◌then◌else◌,
}
use kvmemo.Net.Sockets.{Fd, Sockets}
use kvmemo.Net.TcpServer.{TcpServer, create_socket, bind, listen, start, checked, opened, then_next}

module _ {W : Type 0} (sys : Sockets W) where
  -- `Start` returns exactly if a socket can be made, bound and listened to, each in the state that
  -- the call before has left; otherwise it throws `runtime_error`. The descriptor is the one of
  -- the new socket, and the connections stay.
  pub start_lem :
      (s : TcpServer) (w : W)
      → let (fd, w1) = sys.socket w in
        let (bound, w2) = sys.bind fd (s.port % 65536) w1 in
        let listens = (sys.listen fd 128 w2).0 in
        let (r, s', w') = start sys s w in
        (r ≡ (if is_some fd && bound && listens then returns tt else throws runtime_error))
        × (s'.listen_fd ≡ fd)
        × (s'.connections ≡ s.connections)
  unfolding start create_socket bind listen
  start_lem s w = go (sys.socket w)
    where
      go :
          (p : Fd × W)
          → let (bound, w2) = sys.bind p.0 (s.port % 65536) p.1 in
            let listens = (sys.listen p.0 128 w2).0 in
            let (r, s', w') =
              then_next sys (opened sys p s) λ s' w'. then_next sys (bind sys s' w') (listen sys) in
            (r ≡ (if is_some p.0 && bound && listens then returns tt else throws runtime_error))
            × (s'.listen_fd ≡ p.0)
            × (s'.connections ≡ s.connections)
      go (none, w1) = (refl, refl, refl)
      go (some fd, w1) = second (sys.bind (some fd) (s.port % 65536) w1)
        where
          s1 : TcpServer
          s1 = record s { listen_fd = some fd }

          third :
              (p : Bool × W)
              → let (r, s', w') = checked sys p s1 in
                (r ≡ (if p.0 then returns tt else throws runtime_error))
                × (s'.listen_fd ≡ some fd)
                × (s'.connections ≡ s.connections)
          third (true, w) = (refl, refl, refl)
          third (false, w) = (refl, refl, refl)

          second :
              (p : Bool × W)
              → let (r, s', w') = then_next sys (checked sys p s1) (listen sys) in
                (r ≡ (
                  if p.0 && (sys.listen (some fd) 128 p.1).0
                  then returns tt
                  else throws runtime_error))
                × (s'.listen_fd ≡ some fd)
                × (s'.connections ≡ s.connections)
          second (true, w2) = third (sys.listen (some fd) 128 w2)
          second (false, w2) = (refl, refl, refl)
