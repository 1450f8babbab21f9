-- ===== src/Net/Connection/Pipe.antt =====
-- src/net/connection.h: no byte of the output is lost or sent twice.
use kvmemo.Base.{
  ℕ, ◌≤◌, zero, suc, Str, [], ◌∷◌, ◌++◌, ◌≡◌, refl, ap, ◌∙◌, Option, none, some, returns, length,
  take, drop,
}
use mathlib.Core.List.{append_assoc}
use kvmemo.Net.Sockets.{Sockets, SocketLaws, written}
use kvmemo.Net.Connection.{Connection, sent_off, write_to_socket}
use kvmemo.Protocol.Buffer.{readable}
use kvmemo.Protocol.Buffer.Queue as Queue
use kvmemo.Protocol.Buffer.Queue.{readable-append, readable-consume}

abbrev pub IsValid : Connection → Type 0
IsValid c = Queue.IsValid c.input_buffer × Queue.IsValid c.output_buffer

take-drop : (n : ℕ) (xs : Str) → take n xs ++ drop n xs ≡ xs
take-drop zero xs = refl
take-drop (suc n) [] = refl
take-drop (suc n) (x ∷ xs) = ap (◌∷◌ x) (take-drop n xs)

sent_off_lem :
    (n : Option ℕ) (c : Connection)
    → IsValid c
    → ((m : ℕ) → n ≡ some m → m ≤ length (readable c.output_buffer))
    → let (r, c') = sent_off n c in
      (r ≡ returns tt)
      × IsValid c'
      × (c'.fd ≡ c.fd)
      × (c'.input_buffer ≡ c.input_buffer)
      × (written n (readable c.output_buffer) ++ readable c'.output_buffer
          ≡ readable c.output_buffer)
sent_off_lem none c v h = (refl, v, refl, refl, refl)
sent_off_lem (some zero) c v h = (refl, v, refl, refl, refl)
sent_off_lem (some (suc n)) c v h =
    let k = (readable-consume (suc n) c.output_buffer v.1).0 (h (suc n) refl) in
    (
      k.0,
      (v.0, k.2),
      refl,
      refl,
      ap (λ l. take (suc n) (readable c.output_buffer) ++ l) k.1
          ∙ take-drop (suc n) (readable c.output_buffer),
    )

module _ {W : Type 0} (sys : Sockets W) (laws : SocketLaws sys) where
  open laws use {sent}

  -- What was sent, and what is still to be sent.
  abbrev pub output : Connection → W → Str
  output c w = sent c.fd w ++ readable c.output_buffer

  -- `WriteToSocket` of a valid connection does not throw and keeps it valid, with its descriptor
  -- and its input. No byte of the output is lost or sent twice, however many bytes the system
  -- takes.
  pub output-write_to_socket :
      (c : Connection) (w : W)
      → IsValid c
      → let (r, c', w') = write_to_socket sys c w in
        (r ≡ returns tt)
        × IsValid c'
        × (c'.fd ≡ c.fd)
        × (c'.input_buffer ≡ c.input_buffer)
        × (output c' w' ≡ output c w)
  unfolding write_to_socket
  output-write_to_socket c w v =
      let n = (sys.write c.fd (readable c.output_buffer) w).0 in
      let w' = (sys.write c.fd (readable c.output_buffer) w).1 in
      let c' = (sent_off n c).1 in
      let s = sent_off_lem n c v (λ m e. laws.length-write c.fd (readable c.output_buffer) w m e) in
      (
        s.0,
        s.1,
        s.2,
        s.3,
        ap (λ f. sent f w' ++ readable c'.output_buffer) s.2
            ∙ ap (λ l. l ++ readable c'.output_buffer)
                (laws.sent-write c.fd (readable c.output_buffer) w)
            ∙ append_assoc (sent c.fd w) (written n (readable c.output_buffer))
                (readable c'.output_buffer)
            ∙ ap (λ l. sent c.fd w ++ l) s.4,
      )
