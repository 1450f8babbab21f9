-- ===== src/Protocol/Buffer/Queue.antt =====
-- src/protocol/buffer.h: a buffer is a queue of bytes, and where it keeps them does not show.
use kvmemo.Base.{
  ℕ, zero, suc, ◌+◌, ◌≤◌, ◌<◌, Str, [], ◌∷◌, ◌++◌, ◌≡◌, refl, sym, ap, ◌∙◌, returns, throws,
  out_of_range, length, drop, arith, length-append, length-drop,
}
use native.Mathlib.Nat.{zero-add, suc-add}
use kvmemo.Protocol.Buffer.{Buffer, append, readable, readable_bytes, consume}

abbrev pub IsValid : Buffer → Type 0
IsValid b = b.read_pos ≤ length b.storage

drop-append : (n : ℕ) (xs ys : Str) → n ≤ length xs → drop n (xs ++ ys) ≡ drop n xs ++ ys
drop-append zero xs ys h = refl
drop-append (suc n) [] ys h = absurd (omega arith)
drop-append (suc n) (x ∷ xs) ys h = drop-append n xs ys (omega arith)

drop_nil : (k : ℕ) → drop {A = ℕ} k [] ≡ []
drop_nil zero = refl
drop_nil (suc k) = refl

drop-add : (m n : ℕ) (xs : Str) → drop (m + n) xs ≡ drop n (drop m xs)
drop-add zero n xs = ap (λ k. drop k xs) (zero-add n)
drop-add (suc m) n [] = drop_nil (suc m + n) ∙ sym (drop_nil n)
drop-add (suc m) n (x ∷ xs) = ap (λ k. drop k (x ∷ xs)) (suc-add m n) ∙ drop-add m n xs

drop_all : (xs : Str) (n : ℕ) → n ≡ length xs → drop n xs ≡ []
drop_all [] zero h = refl
drop_all [] (suc n) h = refl
drop_all (x ∷ xs) zero h = absurd (omega arith)
drop_all (x ∷ xs) (suc n) h = drop_all xs n (omega arith)

pub length-readable : (b : Buffer) → length (readable b) ≡ readable_bytes b
unfolding readable readable_bytes
length-readable b = length-drop b.read_pos b.storage

-- Appended bytes can be read after those that were there.
pub readable-append :
    (bytes : Str) (b : Buffer)
    → IsValid b
    → (readable (append bytes b) ≡ readable b ++ bytes) × IsValid (append bytes b)
unfolding readable append
readable-append bytes b v =
    (drop-append b.read_pos b.storage bytes v, omega (arith, v, length-append b.storage bytes))

-- `Consume` drops so many bytes from the front, and throws and changes nothing if there are fewer.
pub readable-consume :
    (len : ℕ) (b : Buffer)
    → IsValid b
    → (len ≤ length (readable b)
        → ((consume len b).0 ≡ returns tt)
          × (readable (consume len b).1 ≡ drop len (readable b))
          × IsValid (consume len b).1)
      × (length (readable b) < len → consume len b ≡ (throws out_of_range, b))
unfolding consume readable readable_bytes
readable-consume len b v = (
  (λ h. ground (
    arith,
    h,
    v,
    length-readable b,
    drop-add b.read_pos len b.storage,
    drop_all b.storage (b.read_pos + len),
  )),
  (λ h. ground (arith, h, v, length-readable b)),
)
