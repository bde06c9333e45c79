-- ===== src/Prelude/Lists.antt =====
-- C arrays as lists, indexed by native numbers.
use Prim.Native.Nat.{ℕ, zero, suc, ◌+◌, ◌<◌}
use mathlib.Core.Logic.{◌≢◌}
use mathlib.Core.Path.{◌≡◌, refl, ap}
use mathlib.Core.List.{List, [], ◌∷◌, ◌++◌, map}
use native.Mathlib.Omega.{arith}

module _ {ℓ} {A : Type ℓ} where
  abbrev pub length : List A → ℕ
  length [] = 0
  length (x ∷ xs) = suc (length xs)

  abbrev pub get_or : List A → ℕ → A → A
  get_or [] i d = d
  get_or (x ∷ xs) zero d = x
  get_or (x ∷ xs) (suc i) d = get_or xs i d

  -- Changes the entry at an index; out of range nothing changes.
  abbrev pub modify : (A → A) → ℕ → List A → List A
  modify f i [] = []
  modify f zero (x ∷ xs) = f x ∷ xs
  modify f (suc i) (x ∷ xs) = x ∷ modify f i xs

  abbrev pub replicate : ℕ → A → List A
  replicate zero a = []
  replicate (suc n) a = a ∷ replicate n a

  -- Every entry satisfies `P`.
  abbrev pub All {κ} : (A → Type κ) → List A → Type κ
  All P [] = Unit
  All P (x ∷ xs) = P x × All P xs

  pub length-append : (xs ys : List A) → length (xs ++ ys) ≡ length xs + length ys
  length-append [] ys = omega arith
  length-append (x ∷ xs) ys = omega (arith, length-append xs ys)

  pub length-modify : (f : A → A) (i : ℕ) (xs : List A) → length (modify f i xs) ≡ length xs
  length-modify f i [] = refl
  length-modify f zero (x ∷ xs) = refl
  length-modify f (suc i) (x ∷ xs) = ap suc (length-modify f i xs)

pub length-map {ℓ κ} :
    {A : Type ℓ} {B : Type κ} (f : A → B) (xs : List A) → length (map f xs) ≡ length xs
length-map f [] = refl
length-map f (x ∷ xs) = ap suc (length-map f xs)

-- Reading an entry after a change.
pub get_or-modify_self {ℓ} :
    {A : Type ℓ} (f : A → A) (i : ℕ) (d : A) (xs : List A)
    → i < length xs
    → get_or (modify f i xs) i d ≡ f (get_or xs i d)
get_or-modify_self f i d [] h = absurd (omega arith)
get_or-modify_self f zero d (x ∷ xs) h = refl
get_or-modify_self f (suc i) d (x ∷ xs) h = get_or-modify_self f i d xs (omega arith)

pub get_or-modify_other {ℓ} :
    {A : Type ℓ} (f : A → A) (i j : ℕ) (d : A) (xs : List A)
    → i ≢ j
    → get_or (modify f i xs) j d ≡ get_or xs j d
get_or-modify_other f i j d [] h = refl
get_or-modify_other f zero zero d (x ∷ xs) h = absurd (h refl)
get_or-modify_other f zero (suc j) d (x ∷ xs) h = refl
get_or-modify_other f (suc i) zero d (x ∷ xs) h = refl
get_or-modify_other f (suc i) (suc j) d (x ∷ xs) h =
    get_or-modify_other f i j d xs (λ e. h (ap suc e))

pub All-append {ℓ κ} :
    {A : Type ℓ} (P : A → Type κ) (xs ys : List A) → All P xs → All P ys → All P (xs ++ ys)
All-append P [] ys h k = k
All-append P (x ∷ xs) ys h k = (h.0, All-append P xs ys h.1 k)
