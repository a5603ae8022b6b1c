-- ===== src/Storage/Eviction/Bounds.antt =====
-- The eviction loop of internal/storage ends.
use gedis.Base.{
  ℕ, zero, suc, ◌<◌, ◌≡◌, refl, sym, ap, ◌∙◌, true, false, none, some, Bytes, length, arith, Result,
  ok, err, ◌⊎◌, inl, inr, Table, In, get, remove, keys, Bool-cases, Option-cases, get-none-In-keys,
  length-remove, get-remove-none,
}
use mathlib.Core.Path.{subst}
use gedis.Base.Int.{ℤ, pos, add64, ltb_ℤ}
use gedis.Storage.{Engine, StorageError, oom, Tracked, Store, track_delete, called}
use gedis.Storage.Policy.{victim}
use gedis.Storage.Eviction.{
  Outside, policy_of, deleted, delete_internal, count_evicted, evict_key, evict_one, evict_loop,
  evict_for_delta,
}
use gedis.Storage.Eviction.Victims.{victim-IsCandidate}

-- The loop over the map meets tracked keys only.
abbrev pub IsVisit : Outside → Type 0
IsVisit outside =
    (t : Table Tracked) (p : Bytes × Tracked) → In p (outside.order t) → In p.0 (keys t)

-- It is a result or an error.
abbrev pub IsDone : {A : Type 0} → Result StorageError A → Type 0
IsDone (ok a) = Unit
IsDone (err e) = Unit
IsDone _ = ⊥

pub sum-cases : {A B : Type 0} (x : A ⊎ B) → ((a : A) × (x ≡ inl a)) ⊎ ((b : B) × (x ≡ inr b))
sum-cases (inl a) = inl (a, refl)
sum-cases (inr b) = inr (b, refl)

In-keys-get : (k : Bytes) (t : Table Tracked) → In k (keys t) → (e : Tracked) × (get k t ≡ some e)
In-keys-get k t m = elim (Option-cases (get k t)) [
  | inl missing ↦ absurd (get-none-In-keys k t missing m)
  | inr found ↦ found
]

module _ {D : Type 0} (db : Engine D) (outside : Outside) where
  -- What an eviction leaves.
  abbrev pub gone : Bytes → Store D → D → Store D
  gone key s d = count_evicted db outside key (deleted db outside key s d)

  evict_key_cases :
      (key : Bytes) (s : Store D)
      → (evict_key db outside key s ≡ (false, s))
        ⊎ ((d : D) × (evict_key db outside key s ≡ (true, gone key s d)))
  unfolding evict_key delete_internal
  evict_key_cases key s = elim (sum-cases (db.db_delete key s.db)) [
    | inl (e, failed) ↦ inl (rw (evict_key, delete_internal, failed) refl)
    | inr (d, done) ↦ inr (d, rw (evict_key, delete_internal, done) refl)
  ]

  pub evict_one_cases :
      (s : Store D)
      → (evict_one db outside s ≡ (false, s))
        ⊎ ((v : Bytes × Tracked) × (d : D) × (victim
                (outside.draw s.lru)
                (policy_of s.policy)
                (outside.order s.lru)
              ≡ some v)
            × (evict_one db outside s ≡ (true, gone v.0 s d)))
  unfolding evict_one
  evict_one_cases s =
      elim (Option-cases (victim (outside.draw s.lru) (policy_of s.policy) (outside.order s.lru))) [
        | inl nobody ↦ inl (rw (evict_one, nobody) refl)
        | inr (v, chosen) ↦ elim (evict_key_cases v.0 s) [
          | inl failed ↦ inl (rw (evict_one, chosen) failed)
          | inr (d, done) ↦ inr (v, d, chosen, rw (evict_one, chosen) done)
        ]
      ]

  gone_lru :
      (key : Bytes) (s : Store D) (d : D) (e : Tracked)
      → get key s.lru ≡ some e
      → ((gone key s d).lru ≡ remove key s.lru) × ((gone key s d).max ≡ s.max)
  unfolding called track_delete
  gone_lru key s d e h = (rw (track_delete, h) refl, rw (track_delete, h) refl)

  pub stop :
      (f : ℕ) (delta : ℤ) (s : Store D)
      → ltb_ℤ s.max (add64 s.used delta) ≡ false
      → evict_loop db outside (suc f) delta s ≡ (ok tt, s)
  unfolding evict_loop
  stop f delta s h = rw (evict_loop, h) refl

  pub give_up :
      (f : ℕ) (delta : ℤ) (s : Store D)
      → ltb_ℤ s.max (add64 s.used delta) ≡ true
      → evict_one db outside s ≡ (false, s)
      → evict_loop db outside (suc f) delta s ≡ (err oom, s)
  unfolding evict_loop
  give_up f delta s h k = rw (evict_loop, h, k) refl

  pub go_on :
      (f : ℕ) (delta : ℤ) (s s' : Store D)
      → ltb_ℤ s.max (add64 s.used delta) ≡ true
      → evict_one db outside s ≡ (true, s')
      → evict_loop db outside (suc f) delta s ≡ evict_loop db outside f delta s'
  unfolding evict_loop
  go_on f delta s s' h k = rw (evict_loop, h, k) refl

  module _ (visit : IsVisit outside) where
    pub gone-victim :
        (s : Store D) (v : Bytes × Tracked) (d : D)
        → victim (outside.draw s.lru) (policy_of s.policy) (outside.order s.lru) ≡ some v
        → (suc (length (gone v.0 s d).lru) ≡ length s.lru)
          × ((gone v.0 s d).max ≡ s.max)
          × ((k : Bytes) → get k s.lru ≡ none → get k (gone v.0 s d).lru ≡ none)
    gone-victim s v d chosen =
        let (there, expires) =
          victim-IsCandidate (outside.draw s.lru) (policy_of s.policy) (outside.order s.lru) v
            chosen in
        let tracked = visit s.lru v there in
        let (e, found) = In-keys-get v.0 s.lru tracked in
        let (left, same_max) = gone_lru v.0 s d e found in
        (
          ap (λ t. suc (length t)) left ∙ length-remove v.0 s.lru tracked,
          same_max,
          λ k missing. subst (λ t. get k t ≡ none) (sym left) (get-remove-none k v.0 s.lru missing),
        )

    evict_loop-IsDone :
        (f : ℕ) (delta : ℤ) (s : Store D)
        → length s.lru < f
        → IsDone (evict_loop db outside f delta s).0
    evict_loop-IsDone zero delta s h = absurd (omega arith)
    evict_loop-IsDone (suc f) delta s h = elim (Bool-cases (ltb_ℤ s.max (add64 s.used delta))) [
      | inr room ↦ subst (λ r. IsDone r.0) (sym (stop f delta s room)) tt
      | inl full ↦ elim (evict_one_cases s) [
        | inl nobody ↦ subst (λ r. IsDone r.0) (sym (give_up f delta s full nobody)) tt
        | inr (v, d, chosen, done) ↦
            subst (λ r. IsDone r.0) (sym (go_on f delta s (gone v.0 s d) full done))
              (evict_loop-IsDone f delta (gone v.0 s d)
                (omega (arith, (gone-victim s v d chosen).0)))
      ]
    ]

    -- `evictForDelta` ends on every store where the loop over the map meets tracked keys only: each
    -- round removes one of them.
    pub evict_for_delta-IsDone :
        (delta : ℤ) (s : Store D) → IsDone (evict_for_delta db outside delta s).0
    unfolding evict_for_delta
    evict_for_delta-IsDone delta s = elim (Bool-cases (ltb_ℤ (pos 0) s.max)) [
      | inl limited ↦
          rw (evict_for_delta, limited)
            (evict_loop-IsDone (suc (length s.lru)) delta s (omega arith))
      | inr unlimited ↦ rw (evict_for_delta, unlimited) tt
    ]
