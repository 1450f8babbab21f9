-- ===== src/Protocol/Framing/Chunks.antt =====
-- src/protocol/framing.h: the frames do not depend on how the bytes arrive.
use kvmemo.Base.{
  ℕ, zero, suc, ◌+◌, ◌≤◌, Str, List, [], ◌∷◌, ◌++◌, ◌≡◌, refl, sym, ap, ◌∙◌, none, some, length,
  arith, inl, inr, Option-cases, subst, length-append,
}
use mathlib.Core.List.{append_assoc}
use kvmemo.Protocol.Buffer.{Buffer, readable, append}
use kvmemo.Protocol.Buffer.Queue.{IsValid, readable-append}
use kvmemo.Protocol.Framing.{drain}
use kvmemo.Protocol.Framing.Split.{split, next_frame-none, next_frame-some}

-- More bytes do not change the first frame.
pub split-append : (xs ys f r : Str) → split xs ≡ some (f, r) → split (xs ++ ys) ≡ some (f, r ++ ys)
unfolding split
split-append [] ys f r h = ground (arith, h)
split-append (c ∷ []) ys f r h = ground (arith, h)
split-append (c ∷ d ∷ l) ys f r h = elim (Option-cases (split (d ∷ l))) [
  | inl e ↦ ground (arith, h, e)
  | inr ((g, s), e) ↦ ground (arith, h, e, split-append (d ∷ l) ys g s e)
]

-- A text without CR LF that is sent with CR LF behind it is the first frame, whatever follows.
pub split-frame :
    (f rest : Str) → split f ≡ none → split (f ++ b'\r' ∷ b'\n' ∷ rest) ≡ some (f, rest)
unfolding split
split-frame [] rest h = refl
split-frame (c ∷ []) rest h = ground arith
split-frame (c ∷ d ∷ l) rest h = elim (Option-cases (split (d ∷ l))) [
  | inl e ↦ ground (arith, h, e, split-frame (d ∷ l) rest e)
  | inr ((g, s), e) ↦ ground (arith, h, e)
]

pub length-split : (l f r : Str) → split l ≡ some (f, r) → length r + 2 + length f ≡ length l
unfolding split
length-split [] f r h = ground (arith, h)
length-split (c ∷ []) f r h = ground (arith, h)
length-split (c ∷ d ∷ l) f r h = elim (Option-cases (split (d ∷ l))) [
  | inl e ↦ ground (arith, h, e)
  | inr ((g, s), e) ↦ ground (arith, h, e, length-split (d ∷ l) g s e)
]

-- All frames of a text, and the bytes behind the last one.
unfoldable pub frames : ℕ → Str → List Str × Str
frames zero l = ([], l)
frames (suc n) l = elim (split l) [
  | none ↦ ([], l)
  | some (f, r) ↦ let (fs, r') = frames n r in (f ∷ fs, r')
]

abbrev pub frames_of : Str → List Str × Str
frames_of l = frames (length l) l

pub frames-none : (n : ℕ) (l : Str) → split l ≡ none → frames n l ≡ ([], l)
unfolding frames
frames-none zero l h = refl
frames-none (suc n) l h = ground (arith, h)

pub frames-some :
    (n : ℕ) (l f r : Str)
    → split l ≡ some (f, r)
    → frames (suc n) l ≡ (f ∷ (frames n r).0, (frames n r).1)
unfolding frames
frames-some n l f r h = ground (arith, h)

-- Any fuel from the length on gives all frames.
frames_enough : (n m : ℕ) (l : Str) → length l ≤ n → length l ≤ m → frames n l ≡ frames m l
frames_enough zero m l h k = elim (Option-cases (split l)) [
  | inl e ↦ frames-none zero l e ∙ sym (frames-none m l e)
  | inr ((f, r), e) ↦ absurd (omega (arith, length-split l f r e))
]
frames_enough (suc n) zero l h k = elim (Option-cases (split l)) [
  | inl e ↦ frames-none (suc n) l e ∙ sym (frames-none zero l e)
  | inr ((f, r), e) ↦ absurd (omega (arith, length-split l f r e))
]
frames_enough (suc n) (suc m) l h k = elim (Option-cases (split l)) [
  | inl e ↦ frames-none (suc n) l e ∙ sym (frames-none (suc m) l e)
  | inr ((f, r), e) ↦
      frames-some n l f r e
      ∙ ap (λ (p : List Str × Str). (f ∷ p.0, p.1))
          (frames_enough n m r (omega (arith, length-split l f r e))
            (omega (arith, length-split l f r e)))
      ∙ sym (frames-some m l f r e)
]

pub length-frames : (n : ℕ) (l : Str) → length (frames n l).1 ≤ length l
unfolding frames
length-frames zero l = omega arith
length-frames (suc n) l = elim (Option-cases (split l)) [
  | inl e ↦ ground (arith, e)
  | inr ((f, r), e) ↦ ground (arith, e, length-frames n r, length-split l f r e)
]

-- The frames of `xs` followed by those that `ys` completes.
pub frames-append :
    (n : ℕ) (xs ys : Str)
    → length (xs ++ ys) ≤ n
    → frames n (xs ++ ys) ≡ (
      (frames n xs).0 ++ (frames n ((frames n xs).1 ++ ys)).0,
      (frames n ((frames n xs).1 ++ ys)).1,
    )
frames-append zero xs ys h = unfold frames in refl
frames-append (suc n) xs ys h = elim (Option-cases (split xs)) [
  | inl e ↦ rw (frames-none (suc n) xs e) refl
  | inr ((f, r), e) ↦ ground (
    arith,
    frames-some n xs f r e,
    frames-some n (xs ++ ys) f (r ++ ys) (split-append xs ys f r e),
    frames-append n r ys (shorter xs f r e h),
    frames_enough (suc n) n ((frames n r).1 ++ ys) (omega (arith, left xs f r e h))
        (left xs f r e h),
  )
]
  where
    shorter :
        (l f r : Str) → split l ≡ some (f, r) → length (l ++ ys) ≤ suc n → length (r ++ ys) ≤ n
    shorter l f r e k =
        omega (arith, k, length-split l f r e, length-append l ys, length-append r ys)

    left :
        (l f r : Str)
        → split l ≡ some (f, r)
        → length (l ++ ys) ≤ suc n
        → length ((frames n r).1 ++ ys) ≤ n
    left l f r e k = omega (
      arith,
      shorter l f r e k,
      length-frames n r,
      length-append r ys,
      length-append (frames n r).1 ys,
    )

-- On a valid buffer repeated calls of `NextFrame` give the frames of the readable bytes, leave the
-- bytes behind them, and keep the buffer valid.
pub drain-frames :
    (n : ℕ) (b : Buffer)
    → IsValid b
    → ((drain n b).0 ≡ (frames n (readable b)).0)
      × (readable (drain n b).1 ≡ (frames n (readable b)).1)
      × IsValid (drain n b).1
unfolding drain
drain-frames zero b v = unfold frames in (refl, refl, v)
drain-frames (suc n) b v = elim (Option-cases (split (readable b))) [
  | inl e ↦ rw (next_frame-none b e, frames-none (suc n) (readable b) e) (refl, refl, v)
  | inr ((f, r), e) ↦
      let (b', next, left, v') = next_frame-some b f r v e in
      let ih = drain-frames n b' v' in
      rw (next, frames-some n (readable b) f r e, ← left) (ap (◌∷◌ f) ih.0, ih.1, ih.2)
]

-- Bytes that arrive in two reads give the same frames, and leave the same bytes, as if they had
-- arrived in one, if the fuel is not less than the number of bytes.
pub drain_chunks :
    (n : ℕ) (xs ys : Str) (b : Buffer)
    → IsValid b
    → length (readable b ++ (xs ++ ys)) ≤ n
    → let once = drain n (append (xs ++ ys) b) in
      let first = drain n (append xs b) in
      let second = drain n (append ys first.1) in
      (once.0 ≡ first.0 ++ second.0) × (readable once.1 ≡ readable second.1)
drain_chunks n xs ys b v h =
    let a = readable-append (xs ++ ys) b v in
    let c = readable-append xs b v in
    let one = drain-frames n (append (xs ++ ys) b) a.1 in
    let fst = drain-frames n (append xs b) c.1 in
    let d = readable-append ys (drain n (append xs b)).1 fst.2 in
    let snd = drain-frames n (append ys (drain n (append xs b)).1) d.1 in
    let assoc = append_assoc (readable b) xs ys in
    let all = frames-append n (readable b ++ xs) ys (subst (λ l. length l ≤ n) (sym assoc) h) in
    (
      cc (one.0, a.0, assoc, all, fst.0, fst.1, c.0, d.0, snd.0),
      cc (one.1, a.0, assoc, all, fst.1, c.0, d.0, snd.1),
    )
