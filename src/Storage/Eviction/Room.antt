-- ===== src/Storage/Eviction/Room.antt =====
-- The memory that a write of internal/storage leaves in use.
use gedis.Base.{
  ℕ, zero, suc, ◌≡◌, refl, sym, ◌∙◌, true, false, none, Bytes, length, ok, err, panic, out_of_fuel,
  inl, inr, get, Bool-cases,
}
use mathlib.Core.Path.{subst}
use gedis.Base.Int.{ℤ, pos, add64, ltb_ℤ}
use gedis.Storage.{Engine, Store, size_of, track_set, delta_for, called}
use gedis.Storage.Eviction.{Op, Outside, evict_loop, evict_for_delta, write, then_write, set_key}
use gedis.Storage.Eviction.Bounds.{
  sum-cases, IsVisit, IsDone, gone, evict_one_cases, stop, give_up, go_on, gone-victim,
  evict_for_delta-IsDone,
}

module _ {D : Type 0} where
  -- There is room for `delta` more, the limit has not changed, and what was not tracked is not.
  abbrev pub HasRoom : ℤ → Store D → Store D → Type 0
  HasRoom delta s s' =
      (ltb_ℤ s'.max (add64 s'.used delta) ≡ false)
      × (s'.max ≡ s.max)
      × ((k : Bytes) → get k s.lru ≡ none → get k s'.lru ≡ none)

  -- Whether an outcome without an error has room.
  abbrev pub RoomIfOk : ℤ → Store D → Op D (Unit {0}) → Type 0
  RoomIfOk delta s (ok u, s') = HasRoom delta s s'
  RoomIfOk delta s _ = Unit

  -- Whether an outcome without an error is within the limit.
  abbrev pub WithinIfOk : Store D → Op D (Unit {0}) → Type 0
  WithinIfOk s (ok u, s') = (ltb_ℤ s'.max s'.used ≡ false) × (s'.max ≡ s.max)
  WithinIfOk s (err e, s') = Unit
  WithinIfOk s (panic, s') = ⊥
  WithinIfOk s (out_of_fuel, s') = ⊥

module _ {D : Type 0} (db : Engine D) (outside : Outside) where
  carry :
      (delta : ℤ) (s s1 : Store D) (r : Op D (Unit {0}))
      → s1.max ≡ s.max
      → ((k : Bytes) → get k s.lru ≡ none → get k s1.lru ≡ none)
      → RoomIfOk delta s1 r
      → RoomIfOk delta s r
  carry delta s s1 (ok u, s') max absent (room, same, kept) =
      (room, same ∙ max, λ k h. kept k (absent k h))
  carry delta s s1 (err e, s') max absent h = tt
  carry delta s s1 (panic, s') max absent h = tt
  carry delta s s1 (out_of_fuel, s') max absent h = tt

  module _ (visit : IsVisit outside) where
    evict_loop-RoomIfOk :
        (f : ℕ) (delta : ℤ) (s : Store D) → RoomIfOk delta s (evict_loop db outside f delta s)
    unfolding evict_loop
    evict_loop-RoomIfOk zero delta s = tt
    evict_loop-RoomIfOk (suc f) delta s = elim (Bool-cases (ltb_ℤ s.max (add64 s.used delta))) [
      | inr room ↦
          subst (λ r. RoomIfOk delta s r) (sym (stop db outside f delta s room))
            (room, refl, λ k h. h)
      | inl full ↦ elim (evict_one_cases db outside s) [
        | inl nobody ↦
            subst (λ r. RoomIfOk delta s r) (sym (give_up db outside f delta s full nobody)) tt
        | inr (v, d, chosen, done) ↦
            let s1 = gone db outside v.0 s d in
            let (shrinks, max, absent) = gone-victim db outside visit s v d chosen in
            subst (λ r. RoomIfOk delta s r) (sym (go_on db outside f delta s s1 full done))
              (carry delta s s1 (evict_loop db outside f delta s1) max absent
                (evict_loop-RoomIfOk f delta s1))
      ]
    ]

    evict_for_delta-RoomIfOk :
        (delta : ℤ) (s : Store D)
        → ltb_ℤ (pos 0) s.max ≡ true
        → RoomIfOk delta s (evict_for_delta db outside delta s)
    unfolding evict_for_delta
    evict_for_delta-RoomIfOk delta s limited =
        rw (evict_for_delta, limited) (evict_loop-RoomIfOk (suc (length s.lru)) delta s)

    write-WithinIfOk :
        (key value : Bytes) (s s1 : Store D)
        → get key s.lru ≡ none
        → HasRoom (pos (size_of key value)) s s1
        → WithinIfOk s (write db outside key value s1)
    unfolding write called track_set
    write-WithinIfOk key value s s1 new (room, max, absent) =
        elim (sum-cases (db.db_set key value s1.db)) [
          | inl (e, failed) ↦ rw (write, failed) tt
          | inr (d, done) ↦ rw (write, done, track_set, absent key new) (room, max)
        ]

    then_write-WithinIfOk :
        (key value : Bytes) (s : Store D) (r : Op D (Unit {0}))
        → get key s.lru ≡ none
        → IsDone r.0
        → RoomIfOk (pos (size_of key value)) s r
        → WithinIfOk s (then_write db outside key value r)
    then_write-WithinIfOk key value s (ok u, s1) new done room =
        write-WithinIfOk key value s s1 new room
    then_write-WithinIfOk key value s (err e, s1) new done room = tt
    then_write-WithinIfOk key value s (panic, s1) new done room = done
    then_write-WithinIfOk key value s (out_of_fuel, s1) new done room = done

    -- `Set` of a key that is not tracked, under a limit: it ends, and where it returns no error the
    -- memory in use after it is within the limit. The loop over the map meets tracked keys only.
    pub set_key-WithinIfOk :
        (key value : Bytes) (s : Store D)
        → get key s.lru ≡ none
        → ltb_ℤ (pos 0) s.max ≡ true
        → WithinIfOk s (set_key db outside key value s)
    unfolding set_key delta_for
    set_key-WithinIfOk key value s new limited =
        let delta = pos (size_of key value) in
        rw (set_key, delta_for, new)
          (then_write-WithinIfOk key value s (evict_for_delta db outside delta s) new
            (evict_for_delta-IsDone db outside visit delta s)
            (evict_for_delta-RoomIfOk delta s limited))
