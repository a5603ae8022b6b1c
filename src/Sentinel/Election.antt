-- ===== src/Sentinel/Election.antt =====
-- Election safety of internal/sentinel/election.go: at most one leader for a master and an epoch.
pub mod Holder
use gedis.Base.{
  ℕ, suc, ◌+◌, ◌*◌, ◌/◌, ◌≤◌, ◌≡◌, ◌≢◌, ◌⊎◌, inl, inr, refl, sym, ◌∙◌, Bool, true, false, not, ◌&&◌,
  ◌||◌, List, [], ◌∷◌, if◌then◌else◌, ltb, leb, ◌==◌, Bytes, bytes_eq, bytes_eq_iff, length,
  Bool-cases, arith,
}
use gedis.Sentinel.Registry.{Registry}
use gedis.Sentinel.Vote.{Request, has_majority, handle_vote, is_elected}
use Holder.{Holds, Holds-granted, Holds-handle_vote, Holds-unique}

abbrev pub is_for : Bytes → ℕ → Bytes → Request → Bool
is_for name e a q = bytes_eq q.master name && (q.epoch == e && bytes_eq q.run_id a)

-- Whether, of a sequence of requests, one for this master, epoch and run id is granted.
unfoldable pub granted : Registry → List Request → Bytes → ℕ → Bytes → Bool
granted r [] name e a = false
granted r (q ∷ qs) name e a =
    is_for name e a q && (handle_vote r q).0 || granted (handle_vote r q).1.1 qs name e a

or_inv : (b c : Bool) → (b || c) ≡ true → (b ≡ true) ⊎ (c ≡ true)
or_inv b c h = ground arith

different : (a b : Bytes) → bytes_eq a b ≡ false → a ≢ b
different a b h = ground (arith, bytes_eq_iff a b)

-- A request that is granted for these names.
abbrev pub grants_now : Registry → Request → Bytes → ℕ → Bytes → Bool
grants_now r q name e a = is_for name e a q && (handle_vote r q).0

grants_now_inv :
    (r : Registry) (q : Request) (name : Bytes) (e : ℕ) (a : Bytes)
    → grants_now r q name e a ≡ true
    → (q.master ≡ name) × (q.epoch ≡ e) × (q.run_id ≡ a) × ((handle_vote r q).0 ≡ true)
grants_now_inv r q name e a h = ground (arith, bytes_eq_iff q.master name, bytes_eq_iff q.run_id a)

Holds-grants_now :
    (r : Registry) (q : Request) (name : Bytes) (e : ℕ) (a : Bytes)
    → grants_now r q name e a ≡ true
    → Holds (handle_vote r q).1.1 name e a
Holds-grants_now r q name e a h =
    let (m, f, i, g) = grants_now_inv r q name e a h in rw (← m, ← f, ← i) (Holds-granted r q g)

unique_now :
    (r : Registry) (q : Request) (name : Bytes) (e : ℕ) (a b : Bytes)
    → a ≢ []
    → Holds r name e a
    → grants_now r q name e b ≡ true
    → b ≡ a
unique_now r q name e a b na h g =
    let (m, f, i, ok) = grants_now_inv r q name e b g in
    sym i ∙ Holds-unique a na r q (rw (m, f) h) ok

same_request :
    (r : Registry) (q : Request) (name : Bytes) (e : ℕ) (a b : Bytes)
    → grants_now r q name e a ≡ true
    → grants_now r q name e b ≡ true
    → a ≡ b
same_request r q name e a b ga gb =
    let (ma, fa, ia, oa) = grants_now_inv r q name e a ga in
    let (mb, fb, ib, ob) = grants_now_inv r q name e b gb in sym ia ∙ ib

-- A sentinel that has granted an epoch to `a` grants it to nobody else afterwards.
granted_later :
    (name : Bytes) (e : ℕ) (a b : Bytes)
    → a ≢ []
    → (r : Registry) (qs : List Request) → Holds r name e a
    → granted r qs name e b ≡ true
    → b ≡ a
unfolding granted
granted_later name e a b na r [] h g = cc
granted_later name e a b na r (q ∷ qs) h g =
    elim (or_inv (grants_now r q name e b) (granted (handle_vote r q).1.1 qs name e b) g) [
      | inl now ↦ unique_now r q name e a b na h now
      | inr later ↦
          granted_later name e a b na (handle_vote r q).1.1 qs (Holds-handle_vote name e a na r q h)
            later
    ]

-- In any sequence of requests that a sentinel handles, from any state, two non-empty run ids that
-- are both granted the vote for one master and one epoch are equal.
pub vote_safety :
    (name : Bytes) (e : ℕ) (a b : Bytes)
    → a ≢ []
    → b ≢ []
    → (r : Registry) (qs : List Request) → granted r qs name e a ≡ true
    → granted r qs name e b ≡ true
    → a ≡ b
unfolding granted
vote_safety name e a b na nb r [] ga gb = cc
vote_safety name e a b na nb r (q ∷ qs) ga gb =
    let after = (handle_vote r q).1.1 in
    elim (or_inv (grants_now r q name e a) (granted after qs name e a) ga) [
      | inl now ↦ elim (or_inv (grants_now r q name e b) (granted after qs name e b) gb) [
        | inl both ↦ same_request r q name e a b now both
        | inr later ↦
            sym (granted_later name e a b na after qs (Holds-grants_now r q name e a now) later)
      ]
      | inr later ↦ elim (or_inv (grants_now r q name e b) (granted after qs name e b) gb) [
        | inl now ↦ granted_later name e b a nb after qs (Holds-grants_now r q name e b now) later
        | inr both ↦ vote_safety name e a b na nb after qs later both
      ]
    ]

-- A sentinel with the requests that reach it, and how many of several grant a vote.
unfoldable pub votes_for : List (Registry × List Request) → Bytes → ℕ → Bytes → ℕ
votes_for [] name e a = 0
votes_for (s ∷ ss) name e a = (if granted s.0 s.1 name e a then 1 else 0) + votes_for ss name e a

votes_for_bound :
    (name : Bytes) (e : ℕ) (a b : Bytes)
    → a ≢ []
    → b ≢ []
    → a ≢ b
    → (ss : List (Registry × List Request))
    → votes_for ss name e a + votes_for ss name e b ≤ length ss
unfolding votes_for
votes_for_bound name e a b na nb d [] = omega arith
votes_for_bound name e a b na nb d (s ∷ ss) =
    ground (arith, votes_for_bound name e a b na nb d ss, vote_safety name e a b na nb s.0 s.1)

-- Of any number of sentinels, each with any sequence of requests from any state, two non-empty run
-- ids that a majority has each granted the vote for one master and one epoch are equal.
pub leader_unique :
    (name : Bytes) (e : ℕ) (a b : Bytes)
    → a ≢ []
    → b ≢ []
    → (ss : List (Registry × List Request))
    → has_majority (votes_for ss name e a) (length ss) ≡ true
    → has_majority (votes_for ss name e b) (length ss) ≡ true
    → a ≡ b
unfolding has_majority
leader_unique name e a b na nb ss ha hb = elim (Bool-cases (bytes_eq a b)) [
  | inl same ↦ (bytes_eq_iff a b).0 same
  | inr other ↦ ground (arith, votes_for_bound name e a b na nb (different a b other) ss)
]

-- The guard of `autoStep` is `hasMajority` over this sentinel and its peers.
pub is_elected-has_majority :
    (grants peers : ℕ) → is_elected grants peers ≡ has_majority grants (1 + peers)
unfolding is_elected has_majority
is_elected-has_majority grants peers = ground arith
