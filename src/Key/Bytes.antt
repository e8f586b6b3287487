-- ===== src/Key/Bytes.antt =====
-- Little-endian numbers and `read_exact`, as `bytes` and `std::io::Read` define them over a byte
-- buffer; nestor/src/key.rs encodes with these.
use native.Mathlib.Nat.{pow-suc}
use nestor.Common.{
  ℕ, zero, suc, ◌+◌, ◌*◌, ◌/◌, ◌%◌, ◌^◌, ◌<◌, ◌≡◌, refl, sym, append-nil, ap, ◌∙◌, List, [], ◌∷◌,
  ◌++◌, Option, none, some, length, take, drop, take-append_self, drop-append_self, leb,
  if◌then◌else◌, arith, length-append, le→leb,
}

infixl 5 ◌>>=◌
abbrev pub ◌>>=◌ {ℓ κ} : {A : Type ℓ} {B : Type κ} → Option A → (A → Option B) → Option B
some a >>= f = f a
none >>= f = none

-- The `k` lowest bytes of a number, lowest first.
unfoldable pub to_le : ℕ → ℕ → List ℕ
to_le zero n = []
to_le (suc k) n = n % 256 ∷ to_le k (n / 256)

unfoldable pub from_le : List ℕ → ℕ
from_le [] = 0
from_le (x ∷ xs) = x + 256 * from_le xs

-- `Buf::get_uN_le` on a slice: the number, and the rest of the slice.
unfoldable pub get_le : ℕ → List ℕ → ℕ × List ℕ
get_le k header = (from_le (take k header), drop k header)

-- `Read::read_exact`: the bytes read, and what is left; `none` at an early end.
unfoldable pub read_exact : ℕ → List ℕ → Option (List ℕ × List ℕ)
read_exact n reader = if leb n (length reader) then some (take n reader, drop n reader) else none

pub length-to_le : (k n : ℕ) → length (to_le k n) ≡ k
unfolding to_le
length-to_le zero n = refl
length-to_le (suc k) n = ap suc (length-to_le k (n / 256))

-- What `k` bytes hold is read back.
pub from_le-to_le : (k n : ℕ) → n < 256 ^ k → from_le (to_le k n) ≡ n
unfolding to_le from_le
from_le-to_le zero n h = omega arith
from_le-to_le (suc k) n h = omega (arith, from_le-to_le k (n / 256) (omega (arith, pow-suc 256 k)))

pub read_exact-append :
    (n : ℕ) (xs rest : List ℕ) → length xs ≡ n → read_exact n (xs ++ rest) ≡ some (xs, rest)
unfolding read_exact
read_exact-append n xs rest e =
    rw
      (
        ← e,
        le→leb (length xs) (length (xs ++ rest)) (omega (arith, length-append xs rest)),
        take-append_self xs rest,
        drop-append_self xs rest,
      )
      refl

pub get_le-append :
    (k n : ℕ) (rest : List ℕ) → n < 256 ^ k → get_le k (to_le k n ++ rest) ≡ (n, rest)
unfolding get_le
get_le-append k n rest h =
    let t = take-append_self (to_le k n) rest in
    let d = drop-append_self (to_le k n) rest in
    let l = length-to_le k n in
    let t' : take k (to_le k n ++ rest) ≡ to_le k n = rw l at t in
    let d' : drop k (to_le k n ++ rest) ≡ rest = rw l at d in rw (t', d', from_le-to_le k n h) refl

pub get_le_all : (k n : ℕ) → n < 256 ^ k → get_le k (to_le k n) ≡ (n, [])
get_le_all k n h = ap (get_le k) (sym (append-nil (to_le k n))) ∙ get_le-append k n [] h
