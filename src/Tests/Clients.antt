-- ===== src/Tests/Clients.antt =====
-- A client whose server answers each command with one response.
use kvmemo.Base.{Str, str, [], ◌≡◌, refl, some, none, returns, true, length}
use kvmemo.Client.{ClientSockets, new, get}
use kvmemo.Client.Commands
use kvmemo.Protocol.Buffer.{Buffer}
use kvmemo.Client.Replies
use kvmemo.Client.Replies.{got}
use kvmemo.Protocol.Response.{ok}
use kvmemo.Protocol.Serializer.{serialize}

-- Its three bytes have been consumed.
abbrev spent : Buffer
spent = record { storage = str "xyz"; read_pos = 3 }

-- The state of the system is what will be received.
abbrev line : ClientSockets Str
line = record {
  inet_pton = λ host. some 1;
  socket = λ w. (some 3, w);
  connect = λ fd address port w. (true, w);
  send = λ fd bytes w. (some (length bytes), w);
  recv = λ fd size w. (some w, []);
  close = λ fd w. w;
}

get-serialize_example :
    (get line (str "a") (new (str "127.0.0.1") 6379) (serialize (ok (str "12")))).0 ≡ returns none
get-serialize_example =
    Replies.get-serialize line (str "a") (new (str "127.0.0.1") 6379) (serialize (ok (str "12")))
      (ok (str "12")) refl
