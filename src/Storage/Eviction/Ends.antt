-- ===== src/Storage/Eviction/Ends.antt =====
-- How `evictForDelta` of internal/storage/pebble.go ends.
use gedis.Base.{
  ℕ, zero, suc, ◌<◌, ◌≡◌, ◌⊎◌, ◌↔◌, inl, inr, refl, sym, ap, ◌∙◌, Bool, true, false, [], ◌∷◌, Bytes,
  length, arith, ok, err, panic, out_of_fuel, Table, In, keys, Bool-cases, Option-cases,
  absurd_Bool,
}
use mathlib.Core.Path.{subst}
use gedis.Base.Int.{ℤ, pos, add64, ltb_ℤ, ◌≤ℤ◌, ◌<ℤ◌}
use gedis.Storage.{Engine, oom, Tracked, Store}
use gedis.Storage.Policy.{victim}
use gedis.Storage.Eviction.{
  Op, Outside, policy_of, delete_internal, evict_key, evict_one, evict_loop, evict_for_delta,
}
use gedis.Storage.Eviction.Victims.{Pair, victim-IsCandidate}
use gedis.Storage.Eviction.Stuck.{MayGo, victim-none, MayGo-policy_of}
use gedis.Storage.Eviction.Bounds.{
  sum-cases, IsVisit, gone, evict_one_cases, stop, give_up, go_on, gone-victim,
}

-- A loop over the map meets each entry and nothing else, and `rand.Intn(1)` is 0.
abbrev pub IsFair : Outside → Type 0
IsFair outside =
    ((t : Table Tracked) (p : Pair) → In p (outside.order t) ↔ In p t)
    × ((t : Table Tracked) → outside.draw t 1 ≡ true)

In-keys : (t : Table Tracked) (p : Pair) → In p t → In p.0 (keys t)
unfolding keys
In-keys [] p m = elim m [ ]
In-keys (q ∷ t) p (inl e) = rw e (inl refl)
In-keys (q ∷ t) p (inr m) = inr (In-keys t p m)

module _ {D : Type 0} (db : Engine D) where
  -- No tracked key may go, or the database refuses to delete one.
  abbrev pub Stuck : Store D → Type 0
  Stuck s =
      ((p : Pair) → In p s.lru → ¬ MayGo s.policy p.1)
      ⊎ ((p : Pair) × (e : Bytes) × In p s.lru × (db.db_delete p.0 s.db ≡ inl e))

  -- Without an error there is no limit and nothing has changed, or there is room for `delta` more.
  -- The error is that of memory; then there is no room, and no way to make any.
  abbrev pub Ends : ℤ → Store D → Op D (Unit {0}) → Type 0
  Ends delta s (ok u, s') =
      (s'.max ≡ s.max) × (((s.max ≤ℤ pos 0) × (s' ≡ s)) ⊎ (add64 s'.used delta ≤ℤ s'.max))
  Ends delta s (err e, s') =
      (s'.max ≡ s.max) × (e ≡ oom) × (s'.max <ℤ add64 s'.used delta) × Stuck s'
  Ends delta s (panic, s') = ⊥
  Ends delta s (out_of_fuel, s') = ⊥

  carry :
      (delta : ℤ) (s s1 : Store D) (r : Op D (Unit {0}))
      → pos 0 <ℤ s.max
      → s1.max ≡ s.max
      → Ends delta s1 r
      → Ends delta s r
  carry delta s s1 (ok u, s') limit max (same, inl (none_set, e)) =
      absurd (omega (arith, subst (λ m. pos 0 <ℤ m) (sym max) limit))
  carry delta s s1 (ok u, s') limit max (same, inr room) = (same ∙ max, inr room)
  carry delta s s1 (err e, s') limit max (same, what, full, stuck) = (same ∙ max, what, full, stuck)
  carry delta s s1 (panic, s') limit max h = h
  carry delta s s1 (out_of_fuel, s') limit max h = h

  module _ (outside : Outside) (fair : IsFair outside) where
    visit : IsVisit outside
    visit t p m = In-keys t p ((fair.0 t p).0 m)

    evict_one-Stuck : (s : Store D) → evict_one db outside s ≡ (false, s) → Stuck s
    unfolding evict_one evict_key delete_internal
    evict_one-Stuck s h =
        elim (Option-cases
          (victim (outside.draw s.lru) (policy_of s.policy) (outside.order s.lru))) [
            | inl nobody ↦ inl (λ p m goes.
                victim-none (outside.draw s.lru) (policy_of s.policy) (outside.order s.lru) p
                  (fair.1 s.lru) nobody ((fair.0 s.lru p).1 m) (MayGo-policy_of s.policy p.1 goes))
            | inr (v, chosen) ↦ elim (sum-cases (db.db_delete v.0 s.db)) [
              | inl (e, failed) ↦ inr (
                v,
                e,
                (fair.0 s.lru v).0
                    (victim-IsCandidate (outside.draw s.lru) (policy_of s.policy)
                      (outside.order s.lru) v chosen).0,
                failed,
              )
              | inr (d, done) ↦
                  let evicts : evict_one db outside s ≡ (true, gone db outside v.0 s d) =
                    rw (evict_one, chosen, evict_key, delete_internal, done) refl in
                  absurd_Bool (ap (λ (q : Bool × Store D). q.0) (sym evicts ∙ h))
            ]
          ]

    evict_loop-Ends :
        (f : ℕ) (delta : ℤ) (s : Store D)
        → length s.lru < f
        → pos 0 <ℤ s.max
        → Ends delta s (evict_loop db outside f delta s)
    evict_loop-Ends zero delta s h limit = absurd (omega arith)
    evict_loop-Ends (suc f) delta s h limit = elim (Bool-cases (ltb_ℤ s.max (add64 s.used delta))) [
      | inr room ↦
          subst (λ r. Ends delta s r) (sym (stop db outside f delta s room))
            (refl, inr (ground arith))
      | inl full ↦ elim (evict_one_cases db outside s) [
        | inl nobody ↦
            subst (λ r. Ends delta s r) (sym (give_up db outside f delta s full nobody))
              (refl, refl, ground arith, evict_one-Stuck s nobody)
        | inr (v, d, chosen, done) ↦
            let s1 = gone db outside v.0 s d in
            let (shrinks, max, absent) = gone-victim db outside visit s v d chosen in
            subst (λ r. Ends delta s r) (sym (go_on db outside f delta s s1 full done))
              (carry delta s s1 (evict_loop db outside f delta s1) limit max (
                evict_loop-Ends f delta s1 (omega (arith, shrinks))
                  (subst (λ m. pos 0 <ℤ m) (sym max) limit)))
      ]
    ]

    -- `evictForDelta` ends on every store. Without an error the limit is as it was, and there is no
    -- limit and nothing has changed, or the memory in use and `delta` are within it. With an error,
    -- it is the error of memory, the limit is as it was and they are not within it; and the policy
    -- lets no tracked key go, or the database refuses to delete one. The loop over the map meets
    -- each tracked key and nothing else, and `rand.Intn(1)` is 0.
    pub evict_for_delta-Ends :
        (delta : ℤ) (s : Store D) → Ends delta s (evict_for_delta db outside delta s)
    unfolding evict_for_delta
    evict_for_delta-Ends delta s = elim (Bool-cases (ltb_ℤ (pos 0) s.max)) [
      | inl limited ↦
          rw (evict_for_delta, limited)
            (evict_loop-Ends (suc (length s.lru)) delta s (omega arith) (ground arith))
      | inr unlimited ↦ rw (evict_for_delta, unlimited) (refl, inl (ground arith, refl))
    ]
