-- ===== src/Server/Registry.antt =====
-- src/server/command_registry.h: `CommandRegistry`, the handlers by their commands. `H` is the type
-- of the handlers.
use kvmemo.Base.{
  Str, Str_eq, ◌≡◌, refl, List, Option, none, some, Bool, arith, lookup, ite, is_some,
  if◌then◌else◌,
}
use kvmemo.Base.Assoc
use kvmemo.Base.Assoc.{emplace}

module _ {H : Type 0} where
  unfoldable pub register : Str → H → List (Str × H) → List (Str × H)
  unfolding emplace
  register command handler m = emplace command handler m

  -- `none` where the code returns `nullptr`
  unfoldable pub get : Str → List (Str × H) → Option H
  get command m = lookup command m

  unfoldable pub exists : Str → List (Str × H) → Bool
  exists command m = is_some (lookup command m)

  -- The first handler that is registered for a command is the one that is found, and registering
  -- one command changes no other; a command exists exactly if it has a handler.
  pub get-register :
      (c q : Str) (h : H) (m : List (Str × H))
      → (get q (register c h m)
          ≡ (if exists q m then get q m else ite (Str_eq.dec c q) (some h) none))
        × (exists q (register c h m) ≡ is_some (get q (register c h m)))
  unfolding get register exists
  get-register c q h m = (ground (arith, Assoc.lookup-emplace c q h m), refl)
