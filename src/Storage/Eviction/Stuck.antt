-- ===== src/Storage/Eviction/Stuck.antt =====
-- When `evictOne` of internal/storage/memory.go finds no key to remove.
use gedis.Base.{
  ℕ, suc, ◌≡◌, ◌≢◌, ◌⊎◌, inl, inr, refl, sym, ap, ◌∙◌, Bool, true, false, not, ◌&&◌, none, some, [],
  ◌∷◌, Bytes, codes, take, Table, In, Bool-cases, absurd_Bool, none-some, bytes_eq, bytes_eq_iff,
  arith,
}
use gedis.Storage.{Tracked}
use gedis.Storage.Policy.{
  sample_n, is_volatile, is_random, is_lfu, candidates, choose, sooner, older, rarer, reservoir,
  victim,
}
use gedis.Storage.Eviction.{policy_of}
use gedis.Storage.Eviction.Victims.{Pair}

-- The policy lets a key go: under a volatile policy only with an expiry.
abbrev pub MayGo : Bytes → Tracked → Type 0
MayGo policy e =
    (policy ≢ codes "noeviction") × ((e.expires ≡ true) ⊎ (take 9 policy ≢ codes "volatile-"))

cons-ne-nil : (p : Pair) (t : Table Tracked) → ¬ Path (Table Tracked) (p ∷ t) []
cons-ne-nil p t h = cc

candidates-nil :
    (volatile : Bool) (t : Table Tracked) (p : Pair)
    → candidates volatile t ≡ []
    → In p t
    → (volatile ≡ true) × (p.1.expires ≡ false)
unfolding candidates
candidates-nil volatile [] p h m = elim m [ ]
candidates-nil volatile (q ∷ t) p h m = elim (Bool-cases (volatile && not q.1.expires)) [
  | inl out ↦ elim m [
    | inl e ↦ rw e (ground arith)
    | inr there ↦ candidates-nil volatile t p (sym (rw out refl) ∙ h) there
  ]
  | inr kept ↦ absurd (cons-ne-nil q (candidates volatile t) (sym (rw kept refl) ∙ h))
]

choose-none :
    (better : Tracked → Tracked → Bool) (t : Table Tracked) → choose better t ≡ none → t ≡ []
unfolding choose
choose-none better [] h = refl
choose-none better (p ∷ t) h = cc

take-nil : (n : ℕ) (t : Table Tracked) → take (suc n) t ≡ [] → t ≡ []
take-nil n [] h = refl
take-nil n (p ∷ t) h = cc

reservoir-some :
    (draw : ℕ → Bool) (n : ℕ) (v : Pair) (t : Table Tracked)
    → (w : Pair) × (reservoir draw n (some v) t ≡ some w)
unfolding reservoir
reservoir-some draw n v [] = (v, refl)
reservoir-some draw n v (p ∷ t) = elim (Bool-cases (draw (suc n))) [
  | inl drawn ↦ rw drawn (reservoir-some draw (suc n) p t)
  | inr not_drawn ↦ rw not_drawn (reservoir-some draw (suc n) v t)
]

reservoir-none :
    (draw : ℕ → Bool) (t : Table Tracked) → draw 1 ≡ true → reservoir draw 0 none t ≡ none → t ≡ []
unfolding reservoir
reservoir-none draw [] first h = refl
reservoir-none draw (p ∷ t) first h =
    let (w, taken) = reservoir-some draw 1 p t in
    absurd (none-some {a = w} (sym h ∙ rw first taken))

stays :
    (policy : Bytes) (e : Tracked)
    → take 9 policy ≡ codes "volatile-"
    → e.expires ≡ false
    → ¬ MayGo policy e
stays policy e volatile forever (on, inl expires) = absurd_Bool (sym expires ∙ forever)
stays policy e volatile forever (on, inr other) = other volatile

none_left :
    (policy : Bytes) (t : Table Tracked) (p : Pair)
    → candidates (is_volatile policy) t ≡ []
    → In p t
    → ¬ MayGo policy p.1
unfolding is_volatile
none_left policy t p h m =
    let (volatile, forever) = candidates-nil (is_volatile policy) t p h m in
    stays policy p.1 ((bytes_eq_iff (take 9 policy) (codes "volatile-")).0 volatile) forever

none_expires :
    (policy : Bytes) (t : Table Tracked) (p : Pair)
    → policy ≡ codes "volatile-ttl"
    → choose sooner (candidates true t) ≡ none
    → In p t
    → ¬ MayGo policy p.1
none_expires policy t p ttl h m =
    let (volatile, forever) =
      candidates-nil true t p (choose-none sooner (candidates true t) h) m in
    stays policy p.1 (ap (take 9) ttl) forever

none_sampled :
    (better : Tracked → Tracked → Bool) (policy : Bytes) (t : Table Tracked) (p : Pair)
    → choose better (take sample_n (candidates (is_volatile policy) t)) ≡ none
    → In p t
    → ¬ MayGo policy p.1
none_sampled better policy t p h m =
    none_left policy t p
      (take-nil 4 (candidates (is_volatile policy) t)
        (choose-none better (take sample_n (candidates (is_volatile policy) t)) h))
      m

pub victim-none :
    (draw : ℕ → Bool) (policy : Bytes) (t : Table Tracked) (p : Pair)
    → draw 1 ≡ true
    → victim draw policy t ≡ none
    → In p t
    → ¬ MayGo policy p.1
unfolding victim
victim-none draw policy t p first h m = elim (Bool-cases (bytes_eq policy (codes "noeviction"))) [
  | inl off ↦ λ goes. goes.0 ((bytes_eq_iff policy (codes "noeviction")).0 off)
  | inr on ↦ elim (Bool-cases (bytes_eq policy (codes "volatile-ttl"))) [
    | inl ttl ↦
        none_expires policy t p ((bytes_eq_iff policy (codes "volatile-ttl")).0 ttl)
          (sym (rw (victim, on, ttl) refl) ∙ h) m
    | inr not_ttl ↦ elim (Bool-cases (is_random policy)) [
      | inl random ↦
          none_left policy t p
            (reservoir-none draw (candidates (is_volatile policy) t) first
              (sym (rw (victim, on, not_ttl, random) refl) ∙ h))
            m
      | inr not_random ↦ elim (Bool-cases (is_lfu policy)) [
        | inl lfu ↦
            none_sampled rarer policy t p (sym (rw (victim, on, not_ttl, not_random, lfu) refl) ∙ h)
              m
        | inr lru ↦
            none_sampled older policy t p (sym (rw (victim, on, not_ttl, not_random, lru) refl) ∙ h)
              m
      ]
    ]
  ]
]

differ : (a b : Bytes) → bytes_eq a b ≡ false → a ≢ b
differ a b h e = absurd_Bool (sym ((bytes_eq_iff a b).1 e) ∙ h)

-- The empty policy is the default, which lets every key go.
pub MayGo-policy_of : (policy : Bytes) (e : Tracked) → MayGo policy e → MayGo (policy_of policy) e
unfolding policy_of
MayGo-policy_of policy e (on, goes) = elim (Bool-cases (bytes_eq policy [])) [
  | inl default ↦ rw default (
    differ (codes "allkeys-lru") (codes "noeviction") refl,
    inr (differ (codes "allkeys-l") (codes "volatile-") refl),
  )
  | inr named ↦ rw named (on, goes)
]
