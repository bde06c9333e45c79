-- ===== src/Redundant/Next.antt =====
-- What `redundant_next_segment` sends.
use redundant_mptcp_r_mptcp.Prelude.{
  ℕ, ◌≡◌, ◌⊎◌, refl, ap, sym, inl, inr, ◌==◌, Bool-cases, Option-cases, Option, none, some, List,
  [], ◌∷◌, ◌++◌, All, All-append,
}
use mathlib.Core.List.{Memᴰ, append_assoc}
use mathlib.Core.List.Memᴰ
use mathlib.Core.Path.{ap₂, subst}
use redundant_mptcp_r_mptcp.Register.{Socks, Kernel}
use redundant_mptcp_r_mptcp.Default.Subflow.{DefSub}
use redundant_mptcp_r_mptcp.Redundant.Segment.{
  RedSkb, RedSub, RedMeta, RedResult, redsched_get_active_valid_sks, redsched_use_subflow,
  redsched_correct_skb_pointers, redundant_next_skb_from_queue, split_at, next_of, offer, add_offer,
  offer_each, finish, send_next, next_from, redundant_next_segment,
}
use redundant_mptcp_r_mptcp.Redundant.Permission.{MaySend, use_subflow-MaySend, MaySend-use_subflow}
use redundant_mptcp_r_mptcp.Redundant.Order.{
  IsAfter, next_of-IsAfter, IsCut, split_at-IsCut, IsDue, next_skb-IsDue, IsDue-next_skb,
}

module _ (k : Kernel) (socks : Socks) (m : RedMeta) where
  -- A subflow that sends a segment, and what it is afterwards.
  pub record Sends (e e' : RedSub) (s : RedSkb) : Type 0 where
    pub due : IsDue k m.snd_una m.write_queue e s
    pub may : MaySend k socks m e s
    pub sub : e'.sub ≡ e.sub
    pub skb : e'.skb ≡ some s.id
    pub end_seq : e'.skb_end_seq ≡ s.end_seq

  -- The subflow may not send the segment that is next for it, or has none.
  abbrev pub Blocked : RedSub → Type 0
  Blocked e = (s : RedSkb) → IsDue k m.snd_una m.write_queue e s → ¬ (MaySend k socks m e s)

  correct-sub : (e : RedSub) → (redsched_correct_skb_pointers k m.snd_una e).sub ≡ e.sub
  unfolding redsched_correct_skb_pointers
  correct-sub e = refl

  offer-cases :
      (e : RedSub)
      → let active = redsched_get_active_valid_sks socks m.subflows in
        ((s : RedSkb) × (e' : RedSub) × (offer k socks active m e ≡ (e', some s)) × Sends e e' s)
        ⊎ ((e' : RedSub) × (offer k socks active m e ≡ (e', none)) × Blocked e)
  unfolding offer
  offer-cases e =
      let active = redsched_get_active_valid_sks socks m.subflows in
      let c = redsched_correct_skb_pointers k m.snd_una e in
      elim (Option-cases (redundant_next_skb_from_queue m.write_queue c.skb)) [
        | inl nothing ↦ inr (
          c,
          rw (nothing, offer) refl,
          λ s due may. cc (nothing, IsDue-next_skb k m.snd_una m.write_queue e s due),
        )
        | inr (s, eq) ↦ elim (Bool-cases (redsched_use_subflow k socks active e s)) [
          | inl on ↦ inl (
            s,
            record c { skb = some s.id; skb_end_seq = s.end_seq },
            rw (eq, offer, on) refl,
            record {
              due = next_skb-IsDue k m.snd_una m.write_queue e s eq;
              may = use_subflow-MaySend k socks m e s on;
              sub = correct-sub e;
              skb = refl;
              end_seq = refl;
            },
          )
          | inr off ↦ inr (
            c,
            rw (eq, offer, off) refl,
            λ t due may.
                let next = IsDue-next_skb k m.snd_una m.write_queue e t due in
                let same : s ≡ t = cc in let on = MaySend-use_subflow k socks m e t may in cc,
          )
        ]
      ]

  -- The loop over a list finds the first one that may send, or all are blocked.
  pub data Offered (es : List RedSub) : List RedSub × Option (RedSub × RedSkb) → Type 0 where
    sends :
        (front : List RedSub) (e : RedSub) (back : List RedSub) (e' : RedSub) (s : RedSkb)
        (es' : List RedSub)
        → es ≡ front ++ (e ∷ back)
        → All Blocked front
        → Memᴰ e' es'
        → Sends e e' s
        → Offered es (es', some (e', s))
    blocked : (es' : List RedSub) → All Blocked es → Offered es (es', none)

  Offered-cons :
      (e e' : RedSub) (es : List RedSub) (r : List RedSub × Option (RedSub × RedSkb))
      → Blocked e
      → Offered es r
      → Offered (e ∷ es) (e' ∷ r.0, r.1)
  Offered-cons e e' es r b (sends front x back x' s es' split all there h) =
      sends (e ∷ front) x back x' s (e' ∷ es') (ap (λ xs. e ∷ xs) split) (b, all) (Memᴰ.tail there)
        h
  Offered-cons e e' es r b (blocked es' all) = blocked (e' ∷ es') (b, all)

  offer_each-Offered :
      (es : List RedSub)
      → Offered es (offer_each k socks (redsched_get_active_valid_sks socks m.subflows) m es)
  unfolding offer_each
  offer_each-Offered [] = blocked [] tt
  offer_each-Offered (e ∷ es) =
      let rest = offer_each k socks (redsched_get_active_valid_sks socks m.subflows) m es in
      elim (offer-cases e) [
        | inl (s, e', eq, h) ↦
            subst (λ r. Offered (e ∷ es) (add_offer r es rest)) (sym eq)
              (sends [] e es e' s (e' ∷ es) refl tt (Memᴰ.head refl) h)
        | inr (e', eq, b) ↦
            subst (λ r. Offered (e ∷ es) (add_offer r es rest)) (sym eq)
              (Offered-cons e e' es rest b (offer_each-Offered es))
      ]

split_at-append :
    (next : Option ℕ) (es : List RedSub) → (let r = split_at next es in r.0 ++ r.1) ≡ es
unfolding split_at
split_at-append none es = refl
split_at-append (some sk) [] = refl
split_at-append (some sk) (e ∷ es) = elim (Bool-cases (e.sub.sk == sk)) [
  | inl here ↦ rw here refl
  | inr later ↦ rw later (ap (λ xs. e ∷ xs) (split_at-append (some sk) es))
]

-- A segment that is sent redundantly: which subflow sends it, and what is noted of it. The subflows
-- are asked from the one whose turn it is to the end of the list, and then from its start; all
-- that are asked before the sender are blocked.
pub record Sent (k : Kernel) (socks : Socks) (m : RedMeta) (r : RedResult) (s : RedSkb)
    : Type 0 where
  pub by : RedSub
  pub subsk : r.subsk ≡ some by.sub
  pub turn :
      (before after front back : List RedSub) × (m.subflows ≡ before ++ after)
      × IsCut m.next_subflow before after
      × (after ++ before ≡ front ++ (by ∷ back))
      × All (Blocked k socks m) front
  pub due : IsDue k m.snd_una m.write_queue by s
  pub may : MaySend k socks m by s
  pub rotates : IsAfter by.sub.sk m.subflows r.state.next_subflow
  pub noted :
      (e : RedSub) × Memᴰ e r.state.subflows
      × (e.sub ≡ by.sub)
      × (e.skb ≡ some s.id)
      × (e.skb_end_seq ≡ s.end_seq)

pub data SendsNext (k : Kernel) (socks : Socks) (m : RedMeta) : RedResult → Type 0 where
  sent :
      (r : RedResult) (s : RedSkb) → r.segment ≡ some s → Sent k socks m r s → SendsNext k socks m r
  idle :
      (r : RedResult)
      → r.segment ≡ none
      → All (Blocked k socks m) m.subflows
      → SendsNext k socks m r

finish-SendsNext :
    (k : Kernel) (socks : Socks) (m : RedMeta) (before after : List RedSub)
    (late early : List RedSub × Option (RedSub × RedSkb))
    → before ++ after ≡ m.subflows
    → IsCut m.next_subflow before after
    → Offered k socks m after late
    → Offered k socks m before early
    → SendsNext k socks m (finish m before late early)
finish-SendsNext k socks m before after late early all cut
      (sends front e back e' s es' split asked there h) o =
    let turn : after ++ before ≡ front ++ (e ∷ (back ++ before)) =
      rw split (append_assoc front (e ∷ back) before) in
    let there_too : Memᴰ e m.subflows =
      subst (λ es. Memᴰ e es) all
        (Memᴰ.append_right before
          (subst (λ es. Memᴰ e es) (sym split) (Memᴰ.append_right front (Memᴰ.head refl)))) in
    sent (finish m before (es', some (e', s)) early) s refl (record {
      by = e;
      subsk = ap some h.sub;
      turn = (before, after, front, back ++ before, sym all, cut, turn, asked);
      due = h.due;
      may = h.may;
      rotates =
          subst (IsAfter e.sub.sk m.subflows)
            (ap (λ (x : DefSub). next_of x.sk m.subflows) (sym h.sub))
            (next_of-IsAfter e m.subflows there_too);
      noted = (e', Memᴰ.append_right before there, h.sub, h.skb, h.end_seq);
    })
finish-SendsNext k socks m before after late early all cut (blocked es' asked)
      (sends front e back e' s fs' split idle_front there h) =
    let turn : after ++ before ≡ (after ++ front) ++ (e ∷ back) =
      rw split (sym (append_assoc after front (e ∷ back))) in
    let there_too : Memᴰ e m.subflows =
      subst (λ es. Memᴰ e es) all
        (Memᴰ.append_left after
          (subst (λ es. Memᴰ e es) (sym split) (Memᴰ.append_right front (Memᴰ.head refl)))) in
    sent (finish m before (es', none) (fs', some (e', s))) s refl (record {
      by = e;
      subsk = ap some h.sub;
      turn = (
        before,
        after,
        after ++ front,
        back,
        sym all,
        cut,
        turn,
        All-append (Blocked k socks m) after front asked idle_front,
      );
      due = h.due;
      may = h.may;
      rotates =
          subst (IsAfter e.sub.sk m.subflows)
            (ap (λ (x : DefSub). next_of x.sk m.subflows) (sym h.sub))
            (next_of-IsAfter e m.subflows there_too);
      noted = (e', Memᴰ.append_left es' there, h.sub, h.skb, h.end_seq);
    })
finish-SendsNext k socks m before after late early all cut (blocked es' asked)
      (blocked fs' idle_front) =
    idle (finish m before (es', none) (fs', none)) refl (
      subst (All (Blocked k socks m)) all
        (All-append (Blocked k socks m) before after idle_front asked))

-- Without a reinjection, and with a segment waiting, `redundant_next_segment` asks the subflows in
-- turn, from `next_subflow` on to the end of the list and then from its start. The next segment of a
-- subflow is the one behind the last one that it sent, or the first one of the write queue if it
-- sent none or the end of that one is acknowledged. The first subflow that may send its next
-- segment sends it, as the conditions on backups and on what it can take now say; the segment is
-- noted as the last one that it sent, and `next_subflow` becomes the subflow behind it. If none may,
-- no segment is returned.
pub redundant_next_segment-SendsNext :
    (k : Kernel) (socks : Socks) (m : RedMeta) (s : RedSkb) (queue : List RedSkb)
    → m.reinject_queue ≡ []
    → m.write_queue ≡ s ∷ queue
    → SendsNext k socks m (redundant_next_segment k socks m)
unfolding redundant_next_segment send_next
redundant_next_segment-SendsNext k socks m s queue none_in waiting =
    let active = redsched_get_active_valid_sks socks m.subflows in
    let r = split_at m.next_subflow m.subflows in
    let same : redundant_next_segment k socks m ≡ send_next k socks m =
      ap₂ (next_from k socks m) none_in waiting in
    subst (SendsNext k socks m) (sym same) (
      finish-SendsNext k socks m r.0 r.1 (offer_each k socks active m r.1)
        (offer_each k socks active m r.0) (split_at-append m.next_subflow m.subflows)
        (split_at-IsCut m.next_subflow m.subflows) (offer_each-Offered k socks m r.1)
        (offer_each-Offered k socks m r.0))
