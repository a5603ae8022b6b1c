-- ===== src/Storage/Eviction/Victims.antt =====
-- Which keys `evictOne` of internal/storage/memory.go may choose.
use gedis.Base.{
  ℕ, suc, ◌≡◌, refl, sym, ap, ◌∙◌, Bool, true, false, not, ◌&&◌, Option, none, some, [], ◌∷◌, Bytes,
  codes, take, drop, Table, In, inl, inr, Bool-cases, take-drop, In-append_left, absurd_Bool,
  some-injective, none-some, bytes_eq, ◌⊎◌,
}
use mathlib.Core.Path.{subst}
use gedis.Storage.{Tracked}
use gedis.Storage.Policy.{
  sample_n, is_volatile, is_random, is_lfu, candidates, best, choose, sooner, older, rarer,
  reservoir, victim,
}

abbrev pub Pair : Type 0
Pair = Bytes × Tracked

-- A candidate is a tracked key, and has an expiry where only such keys may go.
abbrev pub IsCandidate : Bool → Table Tracked → Pair → Type 0
IsCandidate volatile t v = In v t × (volatile ≡ true → v.1.expires ≡ true)

expires_kept : (a b : Bool) → (a && not b) ≡ false → a ≡ true → b ≡ true
expires_kept false b h k = absurd_Bool (sym k)
expires_kept true true h k = refl
expires_kept true false h k = absurd_Bool h

candidates_out :
    (volatile : Bool) (p : Pair) (t : Table Tracked)
    → (volatile && not p.1.expires) ≡ true
    → candidates volatile (p ∷ t) ≡ candidates volatile t
unfolding candidates
candidates_out volatile p t h = rw (candidates, h) refl

candidates_in :
    (volatile : Bool) (p : Pair) (t : Table Tracked)
    → (volatile && not p.1.expires) ≡ false
    → candidates volatile (p ∷ t) ≡ p ∷ candidates volatile t
unfolding candidates
candidates_in volatile p t h = rw (candidates, h) refl

candidates-IsCandidate :
    (volatile : Bool) (t : Table Tracked) (v : Pair)
    → In v (candidates volatile t)
    → IsCandidate volatile t v
unfolding candidates
candidates-IsCandidate volatile [] v m = elim m [ ]
candidates-IsCandidate volatile (p ∷ t) v m = elim (Bool-cases (volatile && not p.1.expires)) [
  | inl out ↦
      let (there, lives) =
        candidates-IsCandidate volatile t v
          (subst (λ c. In v c) (candidates_out volatile p t out) m) in
      (inr there, lives)
  | inr kept ↦ elim (subst (λ c. In v c) (candidates_in volatile p t kept) m) [
    | inl e ↦ (inl e, λ k. ap (λ q. q.1.expires) e ∙ expires_kept volatile p.1.expires kept k)
    | inr m' ↦ let (there, lives) = candidates-IsCandidate volatile t v m' in (inr there, lives)
  ]
]

best_next :
    (better : Tracked → Tracked → Bool) (v p : Pair) (t : Table Tracked)
    → better p.1 v.1 ≡ true
    → best better v (p ∷ t) ≡ best better p t
unfolding best
best_next better v p t h = rw (best, h) refl

best_same :
    (better : Tracked → Tracked → Bool) (v p : Pair) (t : Table Tracked)
    → better p.1 v.1 ≡ false
    → best better v (p ∷ t) ≡ best better v t
unfolding best
best_same better v p t h = rw (best, h) refl

best-In :
    (better : Tracked → Tracked → Bool) (v : Pair) (t : Table Tracked)
    → In (best better v t) (v ∷ t)
unfolding best
best-In better v [] = inl refl
best-In better v (p ∷ t) = elim (Bool-cases (better p.1 v.1)) [
  | inl better_one ↦
      subst (λ q. In q (v ∷ p ∷ t)) (sym (best_next better v p t better_one))
        (inr (best-In better p t))
  | inr worse ↦
      subst (λ q. In q (v ∷ p ∷ t)) (sym (best_same better v p t worse))
        (elim (best-In better v t) [ inl e ↦ inl e | inr m ↦ inr (inr m) ])
]

choose-In :
    (better : Tracked → Tracked → Bool) (t : Table Tracked) (v : Pair)
    → choose better t ≡ some v
    → In v t
unfolding choose
choose-In better [] v h = cc
choose-In better (p ∷ t) v h = subst (λ q. In q (p ∷ t)) (some-injective h) (best-In better p t)

reservoir-In :
    (draw : ℕ → Bool) (n : ℕ) (v : Option Pair) (t : Table Tracked) (w : Pair)
    → reservoir draw n v t ≡ some w
    → (v ≡ some w) ⊎ In w t
unfolding reservoir
reservoir-In draw n v [] w h = inl h
reservoir-In draw n v (p ∷ t) w h = elim (Bool-cases (draw (suc n))) [
  | inl drawn ↦
      elim (reservoir-In draw (suc n) (some p) t w (sym (rw (reservoir, drawn) refl) ∙ h)) [
        | inl e ↦ inr (inl (sym (some-injective e)))
        | inr m ↦ inr (inr m)
      ]
  | inr not_drawn ↦
      elim (reservoir-In draw (suc n) v t w (sym (rw (reservoir, not_drawn) refl) ∙ h)) [
        | inl e ↦ inl e
        | inr m ↦ inr (inr m)
      ]
]

sample-In : (n : ℕ) (t : Table Tracked) (v : Pair) → In v (take n t) → In v t
sample-In n t v m = subst (λ c. In v c) (take-drop n t) (In-append_left v (take n t) (drop n t) m)

sampled :
    (better : Tracked → Tracked → Bool) (volatile : Bool) (t : Table Tracked) (v : Pair)
    → choose better (take sample_n (candidates volatile t)) ≡ some v
    → IsCandidate volatile t v
sampled better volatile t v h = candidates-IsCandidate volatile t v (
    sample-In sample_n (candidates volatile t) v
      (choose-In better (take sample_n (candidates volatile t)) v h))

by_time :
    (draw : ℕ → Bool) (policy : Bytes) (t : Table Tracked) (v : Pair)
    → choose sooner (candidates true t) ≡ some v
    → IsCandidate (is_volatile policy) t v
by_time draw policy t v h =
    let (there, lives) =
      candidates-IsCandidate true t v (choose-In sooner (candidates true t) v h) in
    (there, λ k. lives refl)

-- The victim is a tracked key; under a policy for keys with an expiry it has one.
pub victim-IsCandidate :
    (draw : ℕ → Bool) (policy : Bytes) (t : Table Tracked) (v : Pair)
    → victim draw policy t ≡ some v
    → IsCandidate (is_volatile policy) t v
unfolding victim
victim-IsCandidate draw policy t v h = elim (Bool-cases (bytes_eq policy (codes "noeviction"))) [
  | inl off ↦ absurd (none-some (sym (rw (victim, off) refl) ∙ h))
  | inr on ↦ elim (Bool-cases (bytes_eq policy (codes "volatile-ttl"))) [
    | inl ttl ↦ by_time draw policy t v (sym (rw (victim, on, ttl) refl) ∙ h)
    | inr not_ttl ↦ elim (Bool-cases (is_random policy)) [
      | inl random ↦
          elim (reservoir-In draw 0 none (candidates (is_volatile policy) t) v
            (sym (rw (victim, on, not_ttl, random) refl) ∙ h)) [
              | inl e ↦ absurd (none-some e)
              | inr m ↦ candidates-IsCandidate (is_volatile policy) t v m
            ]
      | inr not_random ↦ elim (Bool-cases (is_lfu policy)) [
        | inl lfu ↦
            sampled rarer (is_volatile policy) t v
              (sym (rw (victim, on, not_ttl, not_random, lfu) refl) ∙ h)
        | inr lru ↦
            sampled older (is_volatile policy) t v
              (sym (rw (victim, on, not_ttl, not_random, lru) refl) ∙ h)
      ]
    ]
  ]
]
