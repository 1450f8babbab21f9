-- ===== src/Client/Cli.antt =====
-- src/client/kv_cli.cpp: the loop over the lines that the user types. `past` is what `back` reads
-- of an empty response, which C++ does not define.
use kvmemo.Base.{
  ℕ, suc, Str, str, Str_eq, Str-discrete, List, [], ◌∷◌, ◌++◌, Bool, true, false, ite, Outcome,
  returns, throws, ◌==◌, if◌then◌else◌,
}
use kvmemo.Client.{ClientSockets, KvClient, send_command}

-- The text that the loop has written to `std::cout`, and the number of errors to `std::cerr`.
pub record Screen : Type 0 where
  pub text : Str
  pub errors : ℕ

abbrev pub show : Str → Screen → Screen
show bytes s = record s { text = s.text ++ bytes }

unfoldable pub back : ℕ → Str → ℕ
back past [] = past
back past (c ∷ l) = back c l

abbrev is_exit : Str → Bool
is_exit line =
    ite (Str_eq.dec line (str "exit")) true (ite (Str_eq.dec line (str "quit")) true false)

-- A response is shown with a line end, if it has none.
unfoldable pub show_response : ℕ → Outcome Str → Screen → Screen
unfolding back
show_response past (throws x) s = record s { errors = suc s.errors }
show_response past (returns response) s =
    show (if back past response == b'\n' then response else response ++ str "\n") s

module _ {W : Type 0} (sys : ClientSockets W) (past : ℕ) where
  -- what a line that is no exit does
  abbrev answer_line : Str → KvClient → W → Screen → W × Screen
  answer_line [] c w s = (w, s)
  answer_line (b ∷ line) c w s =
      let (r, w') = send_command sys (b ∷ line) c w in (w', show_response past r s)

  -- The lines are those that `getline` will give.
  unfoldable pub interact : List Str → KvClient → W → Screen → W × Screen
  unfolding send_command show_response Str-discrete
  interact [] c w s = (w, show (str "kvmemo> ") s)
  interact (line ∷ lines) c w s =
      let s' = show (str "kvmemo> ") s in
      let (w', s'') = answer_line line c w s' in
      let rest = interact lines c w' s'' in if is_exit line then (w, s') else rest
