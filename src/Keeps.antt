-- ===== src/Keeps.antt =====
-- What a step of the scheduler can leave alone in the register: the sockets of the list in their
-- order, the number of spare slots, and the state of the machine.
use redundant_mptcp_r_mptcp.Prelude.{ℕ, ◌≡◌, refl, ◌∙◌, List, [], ◌∷◌, map, length}
use mathlib.Core.Path.{ap₂}
use redundant_mptcp_r_mptcp.Register.{RedSk, Register}

-- The sockets of a list.
abbrev pub sks : List RedSk → List ℕ
sks = map (λ e. e.sk)

pub record Keeps (r r' : Register) : Type 0 where
  pub same : sks r'.sk_list ≡ sks r.sk_list
  pub spare : length r'.spare ≡ length r.spare
  pub state : r'.state ≡ r.state

pub Keeps-refl : (r : Register) → Keeps r r
Keeps-refl r = record { same = refl; spare = refl; state = refl }

pub Keeps-trans : {a b c : Register} → Keeps a b → Keeps b c → Keeps a c
Keeps-trans p q = record {
  same = q.same ∙ p.same;
  spare = q.spare ∙ p.spare;
  state = q.state ∙ p.state;
}

-- A change of each entry that leaves its socket alone.
pub sks-map :
    (f : RedSk → RedSk)
    → ((e : RedSk) → (f e).sk ≡ e.sk)
    → (es : List RedSk) → sks (map f es) ≡ sks es
sks-map f same [] = refl
sks-map f same (e ∷ es) = ap₂ ◌∷◌ (same e) (sks-map f same es)
