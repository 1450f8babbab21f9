-- ===== src/Client/Replies.antt =====
-- src/client/kv_client.h: what `Get` makes of the replies of the server.
use kvmemo.Base.{Str, str, [], ◌∷◌, ◌≡◌, refl, ap, ◌∙◌, Option, none, some, returns}
use kvmemo.Client.{
  ClientSockets, KvClient, get, send_command, response_of, get_result, wire_of, get_command,
  c_string,
}
use kvmemo.Protocol.Response.{Response, ok_status, error_status, is_error}
use kvmemo.Protocol.Serializer.{serialize, serialize_bulk_string, serialize_error}

-- What `Get` returns for a response of the server: a text only for a response that is ok and has
-- no message.
abbrev pub got : Response → Option Str
got r = elim r.status [
  | ok_status ↦ elim r.message [ [] ↦ some (str "OK\r\n") | _ ∷ _ ↦ none ]
  | error_status ↦ none
]

response_of-serialize :
    (r : Response) → get_result (response_of (some (serialize r))) ≡ returns (got r)
unfolding serialize serialize_bulk_string serialize_error c_string is_error
response_of-serialize r = go r.status r.message refl
  where
    go :
        (t : _) (m : Str)
        → record { status = t; message = m } ≡ r
        → get_result (response_of (some (serialize (record { status = t; message = m }))))
          ≡ returns (got (record { status = t; message = m }))
    go ok_status [] e = refl
    go ok_status (c ∷ m) e = refl
    go error_status m e = refl

module _ {W : Type 0} (sys : ClientSockets W) where
  -- If the client receives the bytes of a response with one call of `recv`, `Get` returns no value
  -- for an error and for a response with a message; for a response that is ok and has no message
  -- it returns `OK` and a line end.
  pub get-serialize :
      (key : Str) (c : KvClient) (w : W) (r : Response)
      → (sys.recv c.socket_fd 4095 (sys.send c.socket_fd (wire_of (get_command key)) w).1).0
        ≡ some (serialize r)
      → (get sys key c w).0 ≡ returns (got r)
  unfolding get send_command
  get-serialize key c w r h = ap (λ o. get_result (response_of o)) h ∙ response_of-serialize r
