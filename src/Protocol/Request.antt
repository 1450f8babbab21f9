-- ===== src/Protocol/Request.antt =====
-- src/protocol/request.h: `Request`.
use kvmemo.Base.{
  ℕ, Str, List, [], ◌∷◌, Bool, true, false, Outcome, returns, throws, out_of_range, length,
  get_elem?, none, some,
}

pub record Request : Type 0 where
  pub command : Str
  pub args : List Str

unfoldable pub arg_count : Request → ℕ
arg_count r = length r.args

unfoldable pub arg : ℕ → Request → Outcome Str
arg index r = elim (get_elem? r.args index) [ none ↦ throws out_of_range | some a ↦ returns a ]

unfoldable pub is_empty : Request → Bool
is_empty r = elim r.command [ [] ↦ true | _ ∷ _ ↦ false ]
