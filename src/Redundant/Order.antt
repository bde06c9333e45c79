-- ===== src/Redundant/Order.antt =====
-- The order in which the redundant scheduler asks its subflows, and the one in which a subflow sends
-- the segments of the write queue, without the search of the code.
use redundant_mptcp_r_mptcp.Prelude.{
  ℕ, ◌≡◌, ◌≢◌, refl, sym, ap, inl, inr, true, false, ◌==◌, Bool-cases, Option, none, some, List, [],
  ◌∷◌, ◌++◌, All, arith,
}
use mathlib.Core.List.{Memᴰ}
use redundant_mptcp_r_mptcp.Register.{Kernel}
use redundant_mptcp_r_mptcp.Redundant.Segment.{
  RedSkb, RedSub, redsched_correct_skb_pointers, skb_after, redundant_next_skb_from_queue, split_at,
  next_of,
}

-- The subflow of the socket `sk` is not among them.
abbrev pub IsAbsent : (sk : ℕ) → List RedSub → Type 0
IsAbsent sk = All (λ e. e.sub.sk ≢ sk)

-- The list of subflows is cut where the turn is: at its head if no subflow is named, and else before
-- the subflow named, or behind the last one if that is not there.
pub data IsCut : Option ℕ → (before after : List RedSub) → Type 0 where
  at_head : (es : List RedSub) → IsCut none [] es
  at_next :
      (sk : ℕ) (before : List RedSub) (e : RedSub) (after : List RedSub)
      → e.sub.sk ≡ sk
      → IsAbsent sk before
      → IsCut (some sk) before (e ∷ after)
  gone : (sk : ℕ) (es : List RedSub) → IsAbsent sk es → IsCut (some sk) es []

IsCut-cons :
    (sk : ℕ) (e : RedSub) (before after : List RedSub)
    → e.sub.sk ≢ sk
    → IsCut (some sk) before after
    → IsCut (some sk) (e ∷ before) after
IsCut-cons sk e before after ne (at_next _ _ x rest at absent) =
    at_next sk (e ∷ before) x rest at (ne, absent)
IsCut-cons sk e before after ne (gone _ _ absent) = gone sk (e ∷ before) (ne, absent)

pub split_at-IsCut :
    (next : Option ℕ) (es : List RedSub) → (let r = split_at next es in IsCut next r.0 r.1)
unfolding split_at
split_at-IsCut none es = at_head es
split_at-IsCut (some sk) [] = gone sk [] tt
split_at-IsCut (some sk) (e ∷ es) = elim (Bool-cases (e.sub.sk == sk)) [
  | inl here ↦ rw here (at_next sk [] e es (ground (arith, here)) tt)
  | inr later ↦ rw later (
      IsCut-cons sk e (split_at (some sk) es).0 (split_at (some sk) es).1
        (λ eq. ground (arith, later, eq)) (split_at-IsCut (some sk) es))
]

-- The subflow behind that of the socket `sk` in the list, if that is not the last one.
pub data IsAfter (sk : ℕ) : List RedSub → Option ℕ → Type 0 where
  last :
      (front : List RedSub) (e : RedSub)
      → IsAbsent sk front
      → e.sub.sk ≡ sk
      → IsAfter sk (front ++ (e ∷ [])) none
  middle :
      (front : List RedSub) (e f : RedSub) (rest : List RedSub)
      → IsAbsent sk front
      → e.sub.sk ≡ sk
      → IsAfter sk (front ++ (e ∷ f ∷ rest)) (some f.sub.sk)

IsAfter-cons :
    (sk : ℕ) (x : RedSub) (es : List RedSub) (next : Option ℕ)
    → x.sub.sk ≢ sk
    → IsAfter sk es next
    → IsAfter sk (x ∷ es) next
IsAfter-cons sk x es next ne (last front e absent at) = last (x ∷ front) e (ne, absent) at
IsAfter-cons sk x es next ne (middle front e f rest absent at) =
    middle (x ∷ front) e f rest (ne, absent) at

pub next_of-IsAfter :
    (e : RedSub) (es : List RedSub) → Memᴰ e es → IsAfter e.sub.sk es (next_of e.sub.sk es)
unfolding next_of
next_of-IsAfter e [] n = elim n [ ]
next_of-IsAfter e (x ∷ []) n = elim n [
  | Memᴰ.head eq ↦ last [] x tt (ap (λ (y : RedSub). y.sub.sk) (sym eq))
  | Memᴰ.tail later ↦ elim later [ ]
]
next_of-IsAfter e (x ∷ f ∷ es) n = elim (Bool-cases (x.sub.sk == e.sub.sk)) [
  | inl here ↦ rw here (middle [] x f es tt (ground (arith, here)))
  | inr other ↦
      let ne : x.sub.sk ≢ e.sub.sk = λ k. ground (arith, other, k) in
      rw other (
        IsAfter-cons e.sub.sk x (f ∷ es) (next_of e.sub.sk (f ∷ es)) ne (
          next_of-IsAfter e (f ∷ es) (elim n [
            | Memᴰ.head eq ↦ absurd (ne (ap (λ (y : RedSub). y.sub.sk) (sym eq)))
            | Memᴰ.tail later ↦ later
          ])))
]

-- The segment that follows in the queue on the one a pointer names: the first one if it names none,
-- and else the one directly behind it.
pub data IsBehind : List RedSkb → Option ℕ → RedSkb → Type 0 where
  first : (s : RedSkb) (queue : List RedSkb) → IsBehind (s ∷ queue) none s
  behind :
      (front : List RedSkb) (p s : RedSkb) (queue : List RedSkb) (id : ℕ)
      → All (λ x. x.id ≢ id) front
      → p.id ≡ id
      → IsBehind (front ++ (p ∷ s ∷ queue)) (some id) s

IsBehind-cons :
    (id : ℕ) (x : RedSkb) (queue : List RedSkb) (s : RedSkb)
    → x.id ≢ id
    → IsBehind queue (some id) s
    → IsBehind (x ∷ queue) (some id) s
IsBehind-cons id x queue s ne (behind front p _ rest _ absent at) =
    behind (x ∷ front) p s rest id (ne, absent) at

skb_after-IsBehind :
    (id : ℕ) (queue : List RedSkb) (s : RedSkb)
    → skb_after id queue ≡ some s
    → IsBehind queue (some id) s
unfolding skb_after
skb_after-IsBehind id [] s h = absurd (cc)
skb_after-IsBehind id (x ∷ []) s h = absurd (cc)
skb_after-IsBehind id (x ∷ y ∷ queue) s h = elim (Bool-cases (x.id == id)) [
  | inl here ↦
      let same : y ≡ s = cc (rw here at h) in
      rw (← same) (behind [] x y queue id tt (ground (arith, here)))
  | inr later ↦
      IsBehind-cons id x (y ∷ queue) s (λ e. ground (arith, later, e))
        (skb_after-IsBehind id (y ∷ queue) s (rw later at h))
]

skb_after-append :
    (id : ℕ) (front : List RedSkb) (p s : RedSkb) (queue : List RedSkb)
    → All (λ x. x.id ≢ id) front
    → p.id ≡ id
    → skb_after id (front ++ (p ∷ s ∷ queue)) ≡ some s
unfolding skb_after
skb_after-append id [] p s queue absent at =
    let here : (p.id == id) ≡ true = ground (arith, at) in rw here refl
skb_after-append id (x ∷ []) p s queue absent at =
    let later : (x.id == id) ≡ false = ground (arith, absent.0) in
    rw later (skb_after-append id [] p s queue tt at)
skb_after-append id (x ∷ y ∷ front) p s queue absent at =
    let later : (x.id == id) ≡ false = ground (arith, absent.0) in
    rw later (skb_after-append id (y ∷ front) p s queue absent.1 at)

-- The search of the code gives the segment that follows, if there is one.
pub next_skb-IsBehind :
    (queue : List RedSkb) (previous : Option ℕ) (s : RedSkb)
    → redundant_next_skb_from_queue queue previous ≡ some s
    → IsBehind queue previous s
unfolding redundant_next_skb_from_queue
next_skb-IsBehind [] previous s h = absurd (cc)
next_skb-IsBehind (x ∷ queue) none s h = let same : x ≡ s = cc in rw (← same) (first x queue)
next_skb-IsBehind (x ∷ queue) (some id) s h = skb_after-IsBehind id (x ∷ queue) s h

next_skb-some :
    (queue : List RedSkb) (previous : Option ℕ) (s : RedSkb)
    → IsBehind queue previous s
    → redundant_next_skb_from_queue queue previous ≡ some s
unfolding redundant_next_skb_from_queue
next_skb-some queue previous s (first _ _) = refl
next_skb-some queue previous s (behind [] p _ rest id absent at) =
    skb_after-append id [] p s rest absent at
next_skb-some queue previous s (behind (x ∷ front) p _ rest id absent at) =
    skb_after-append id (x ∷ front) p s rest absent at

-- The segment that a subflow is to send next: the one behind the last one that it sent, or the first
-- of the queue if it sent none or if all up to the end of that one is acknowledged.
pub data IsDue (k : Kernel) (snd_una : ℕ) (queue : List RedSkb) (e : RedSub) (s : RedSkb)
    : Type 0 where
  continued :
      k.seq_before snd_una e.skb_end_seq ≡ true → IsBehind queue e.skb s → IsDue k snd_una queue e s
  restarted :
      k.seq_before snd_una e.skb_end_seq ≡ false → IsBehind queue none s → IsDue k snd_una queue e s

module _ (k : Kernel) (snd_una : ℕ) (queue : List RedSkb) (e : RedSub) (s : RedSkb) where
  pub next_skb-IsDue :
      redundant_next_skb_from_queue queue (redsched_correct_skb_pointers k snd_una e).skb ≡ some s
      → IsDue k snd_una queue e s
  unfolding redsched_correct_skb_pointers
  next_skb-IsDue h = elim (Bool-cases (k.seq_before snd_una e.skb_end_seq)) [
    | inl open_end ↦ continued open_end (next_skb-IsBehind queue e.skb s (rw open_end at h))
    | inr acked ↦ restarted acked (next_skb-IsBehind queue none s (rw acked at h))
  ]

  pub IsDue-next_skb :
      IsDue k snd_una queue e s
      → redundant_next_skb_from_queue queue (redsched_correct_skb_pointers k snd_una e).skb ≡ some s
  unfolding redsched_correct_skb_pointers
  IsDue-next_skb (continued open_end b) = rw open_end (next_skb-some queue e.skb s b)
  IsDue-next_skb (restarted acked b) = rw acked (next_skb-some queue none s b)
