-- ===== src/Protocol/Framing/Split.antt =====
-- src/protocol/framing.h: a frame is what stands before the first CR LF.
use kvmemo.Base.{
  ℕ, suc, ◌+◌, ◌≤◌, Str, [], ◌∷◌, ◌≡◌, refl, ap, ◌∙◌, Option, none, some, Bool, true, false, ◌&&◌,
  returns, length, take, drop, ◌==◌, if◌then◌else◌, arith, inl, inr, Bool-cases, Option-cases,
  subst,
}
use native.Mathlib.Nat.{suc-add}
use kvmemo.Protocol.Buffer.{Buffer, readable, consume}
use kvmemo.Protocol.Buffer.Queue.{IsValid, readable-consume}
use kvmemo.Protocol.Framing.{delimiter, search_from, next_frame}

-- The bytes before the first CR LF and those after it.
unfoldable pub split : Str → Option (Str × Str)
split [] = none
split (c ∷ []) = none
split (c ∷ d ∷ l) =
    if c == b'\r' && d == b'\n'
    then some ([], l)
    else elim (split (d ∷ l)) [ none ↦ none | some (f, r) ↦ some (c ∷ f, r) ]

abbrev is_crlf : ℕ → ℕ → Bool
is_crlf c d = c == b'\r' && d == b'\n'

module _ (c d : ℕ) (l : Str) where
  search_hit : is_crlf c d ≡ true → search_from delimiter (c ∷ d ∷ l) ≡ 0
  unfolding search_from
  search_hit h = ground (arith, h)

  search_skip :
      is_crlf c d ≡ false → search_from delimiter (c ∷ d ∷ l) ≡ suc (search_from delimiter (d ∷ l))
  unfolding search_from
  search_skip h = ground (arith, h)

  split_hit : is_crlf c d ≡ true → split (c ∷ d ∷ l) ≡ some ([], l)
  unfolding split
  split_hit h = ground (arith, h)

  split-none : is_crlf c d ≡ false → split (d ∷ l) ≡ none → split (c ∷ d ∷ l) ≡ none
  unfolding split
  split-none h e = ground (arith, h, e)

  split-some :
      (f r : Str)
      → is_crlf c d ≡ false
      → split (d ∷ l) ≡ some (f, r)
      → split (c ∷ d ∷ l) ≡ some (c ∷ f, r)
  unfolding split
  split-some f r h e = ground (arith, h, e)

-- What `std::search` has found, by the result of the split.
abbrev Found : Str → ℕ → Option (Str × Str) → Type 0
Found l pos none = pos ≡ length l
Found l pos (some (f, r)) = (pos + 2 ≤ length l) × (take pos l ≡ f) × (drop (pos + 2) l ≡ r)

Found-suc :
    (c : ℕ) (l : Str) (pos : ℕ) (f r : Str)
    → Found l pos (some (f, r))
    → Found (c ∷ l) (suc pos) (some (c ∷ f, r))
Found-suc c l pos f r h =
    (omega (arith, h.0), ap (◌∷◌ c) h.1, ap (λ k. drop k (c ∷ l)) (suc-add pos 2) ∙ h.2)

search-split : (l : Str) → Found l (search_from delimiter l) (split l)
search-split [] = unfold search_from split in refl
search-split (c ∷ []) = unfold search_from split in ground arith
search-split (c ∷ d ∷ l) = elim (Bool-cases (is_crlf c d)) [
  | inl h ↦ rw (search_hit c d l h, split_hit c d l h) (omega arith, refl, refl)
  | inr h ↦ elim (Option-cases (split (d ∷ l))) [
    | inl e ↦
        rw (search_skip c d l h, split-none c d l h e)
          (ap suc (subst (Found (d ∷ l) (search_from delimiter (d ∷ l))) e (search-split (d ∷ l))))
    | inr ((f, r), e) ↦
        rw (search_skip c d l h, split-some c d l f r h e)
          (Found-suc c (d ∷ l) (search_from delimiter (d ∷ l)) f r
            (subst (Found (d ∷ l) (search_from delimiter (d ∷ l))) e (search-split (d ∷ l))))
  ]
]

-- With no CR LF in the buffer, the call asks for more data and changes nothing.
pub next_frame-none : (b : Buffer) → split (readable b) ≡ none → next_frame b ≡ (returns none, b)
unfolding next_frame
next_frame-none b h =
    let found =
      subst (Found (readable b) (search_from delimiter (readable b))) h
        (search-split (readable b)) in
    ground (arith, found)

-- Else it returns what stands before the first CR LF, and leaves what stands behind it.
pub next_frame-some :
    (b : Buffer) (f r : Str)
    → IsValid b
    → split (readable b) ≡ some (f, r)
    → (b' : Buffer) × (next_frame b ≡ (returns (some f), b')) × (readable b' ≡ r) × IsValid b'
unfolding next_frame
next_frame-some b f r v h =
    let pos = search_from delimiter (readable b) in
    let found = subst (Found (readable b) pos) h (search-split (readable b)) in
    let c = (readable-consume (pos + 2) b v).0 found.0 in
    ((consume (pos + 2) b).1, ground (arith, found.0, found.1, c.0), c.1 ∙ found.2, c.2)
