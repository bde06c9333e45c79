-- ===== src/Offers.antt =====
-- What the transmission sees of a list of subflows: each socket and whether it takes the segment.
use redundant_mptcp_r_mptcp.Prelude.{
  Bool-cases, inl, inr, ℕ, ◌≡◌, refl, ap, Bool, true, List, [], ◌∷◌, map, All, length, arith,
  if◌then◌else◌,
}
use mathlib.Core.Path.{ap₂}
use redundant_mptcp_r_mptcp.Register.{RedSk}
use redundant_mptcp_r_mptcp.Send.Delivery.{takers}
use redundant_mptcp_r_mptcp.Keeps.{sks}
use redundant_mptcp_r_mptcp.Check.Counts.{count_avail}

abbrev pub offer : RedSk → ℕ × Bool
offer e = (e.sk, e.state.available)

abbrev pub offers : List RedSk → List (ℕ × Bool)
offers = map offer

abbrev taking : List (ℕ × Bool) → List ℕ
taking [] = []
taking ((sk, on) ∷ os) = if on then sk ∷ taking os else taking os

taking-offers : (es : List RedSk) → takers es ≡ taking (offers es)
taking-offers [] = refl
taking-offers (e ∷ es) = ground (arith, taking-offers es)

-- Lists with the same offers have the same takers.
pub takers-offers : (xs ys : List RedSk) → offers xs ≡ offers ys → takers xs ≡ takers ys
takers-offers xs ys h = cc (taking-offers xs, taking-offers ys, ap taking h)

pub length-takers : (es : List RedSk) → length (takers es) ≡ count_avail es
length-takers [] = refl
length-takers (e ∷ es) = ground (arith, length-takers es)

-- What holds of the socket of every available entry holds of every taker.
pub All-takers {κ} :
    (P : ℕ → Type κ) (es : List RedSk)
    → All (λ e. e.state.available ≡ true → P e.sk) es
    → All P (takers es)
All-takers P [] h = tt
All-takers P (e ∷ es) h = elim (Bool-cases e.state.available) [
  | inl on ↦ rw on (h.0 on, All-takers P es h.1)
  | inr off ↦ rw off (All-takers P es h.1)
]

-- A change of the entries that leaves their offers alone.
pub offers-map :
    (f : RedSk → RedSk)
    → ((e : RedSk) → offer (f e) ≡ offer e)
    → (es : List RedSk) → offers (map f es) ≡ offers es
offers-map f same [] = refl
offers-map f same (e ∷ es) = ap₂ ◌∷◌ (same e) (offers-map f same es)

-- Lists with the same offers have the same sockets.
sks-offers-map : (es : List RedSk) → sks es ≡ map (λ o. o.0) (offers es)
sks-offers-map [] = refl
sks-offers-map (e ∷ es) = ap (◌∷◌ e.sk) (sks-offers-map es)

pub sks-offers : (xs ys : List RedSk) → offers xs ≡ offers ys → sks xs ≡ sks ys
sks-offers xs ys h = cc (sks-offers-map xs, sks-offers-map ys, ap (map (λ (o : ℕ × Bool). o.0)) h)
