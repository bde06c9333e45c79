-- ===== src/Options/Wire.antt =====
-- Bytes in memory. `raw` is a number in the byte order of the host, which is little-endian, as the
-- bit fields of mptcp.h are laid out here; `be16`, `be32` and `be64` are in network order.
use redundant_mptcp_r_mptcp.Prelude.{
  ℕ, zero, suc, ◌+◌, ◌*◌, ◌/◌, ◌%◌, ◌^◌, ◌<◌, ◌≡◌, refl, ap, List, [], ◌∷◌, ◌++◌, length, get_or,
  arith,
}

-- The byte at an offset. A read behind the list, which is behind the packet, gives 0.
abbrev pub byte : List ℕ → ℕ → ℕ
byte bs i = get_or bs i 0

abbrev pub skip : ℕ → List ℕ → List ℕ
skip zero bs = bs
skip (suc n) [] = []
skip (suc n) (b ∷ bs) = skip n bs

unfoldable pub raw : (width n : ℕ) → List ℕ
raw zero n = []
raw (suc w) n = n % 256 ∷ raw w (n / 256)

unfoldable pub from_raw : (width : ℕ) → List ℕ → ℕ
from_raw zero bs = 0
from_raw (suc w) bs = byte bs 0 + 256 * from_raw w (skip 1 bs)

unfoldable pub be16 : ℕ → List ℕ
be16 n = n / 2 ^ 8 % 256 ∷ n % 256 ∷ []

unfoldable pub from_be16 : List ℕ → ℕ
from_be16 bs = byte bs 0 * 2 ^ 8 + byte bs 1

unfoldable pub be32 : ℕ → List ℕ
be32 n = n / 2 ^ 24 % 256 ∷ n / 2 ^ 16 % 256 ∷ n / 2 ^ 8 % 256 ∷ n % 256 ∷ []

unfoldable pub from_be32 : List ℕ → ℕ
from_be32 bs = byte bs 0 * 2 ^ 24 + byte bs 1 * 2 ^ 16 + byte bs 2 * 2 ^ 8 + byte bs 3

unfoldable pub be64 : ℕ → List ℕ
be64 n = be32 (n / 2 ^ 32) ++ be32 n

unfoldable pub from_be64 : List ℕ → ℕ
from_be64 bs = from_be32 bs * 2 ^ 32 + from_be32 (skip 4 bs)

-- `n` bytes from the front, and the bytes behind them.
unfoldable pub first_bytes : ℕ → List ℕ → List ℕ
first_bytes zero bs = []
first_bytes (suc n) bs = byte bs 0 ∷ first_bytes n (skip 1 bs)

-- A number that fits so many bytes.
abbrev pub Fits : (width n : ℕ) → Type 0
Fits zero n = n ≡ 0
Fits (suc w) n = Fits w (n / 256)

pub from_raw-raw : (w n : ℕ) (tail : List ℕ) → Fits w n → from_raw w (raw w n ++ tail) ≡ n
unfolding from_raw raw
from_raw-raw zero n tail h = omega (arith, h)
from_raw-raw (suc w) n tail h = omega (arith, from_raw-raw w (n / 256) tail h)

pub length-raw : (w n : ℕ) → length (raw w n) ≡ w
unfolding raw
length-raw zero n = refl
length-raw (suc w) n = ap suc (length-raw w (n / 256))

pub Fits-32 : (n : ℕ) → n < 2 ^ 32 → Fits 4 n
Fits-32 n h = omega arith

pub Fits-64 : (n : ℕ) → n < 2 ^ 64 → Fits 8 n
Fits-64 n h = omega arith

pub from_be32-be32 : (n : ℕ) (tail : List ℕ) → n < 2 ^ 32 → from_be32 (be32 n ++ tail) ≡ n
unfolding from_be32 be32
from_be32-be32 n tail h = omega arith

pub length-be32 : (n : ℕ) → length (be32 n) ≡ 4
unfolding be32
length-be32 n = refl

pub from_be16-be16 : (n : ℕ) (tail : List ℕ) → n < 2 ^ 16 → from_be16 (be16 n ++ tail) ≡ n
unfolding from_be16 be16
from_be16-be16 n tail h = omega arith

pub length-be64 : (n : ℕ) → length (be64 n) ≡ 8
unfolding be64 be32
length-be64 n = refl

pub first_bytes-append :
    (n : ℕ) (bs tail : List ℕ) → length bs ≡ n → first_bytes n (bs ++ tail) ≡ bs
unfolding first_bytes
first_bytes-append zero [] tail h = refl
first_bytes-append zero (b ∷ bs) tail h = absurd (omega arith)
first_bytes-append (suc n) [] tail h = absurd (omega arith)
first_bytes-append (suc n) (b ∷ bs) tail h = cc (first_bytes-append n bs tail (omega arith))

pub skip-append : (bs tail : List ℕ) → skip (length bs) (bs ++ tail) ≡ tail
skip-append [] tail = refl
skip-append (b ∷ bs) tail = skip-append bs tail

pub skip-raw : (w n : ℕ) (tail : List ℕ) → skip w (raw w n ++ tail) ≡ tail
unfolding raw
skip-raw zero n tail = refl
skip-raw (suc w) n tail = skip-raw w (n / 256) tail
