-- ===== src/Commands/Lookup/Laws.antt =====
-- What a lookup finds in a store that does not fail, from what the store shows under each prefix.
use gedis.Base.{
  ℕ, ◌≡◌, refl, ◌∙◌, false, Option, none, some, List, [], ◌∷◌, ◌++◌, Bytes, bytes_eq, Option-cases,
  inl, inr, if◌then◌else◌, ok, err, All,
}
use gedis.Base.Int.{ℤ, IsInt64}
use gedis.Datastruct.Entry.{Entry, encode, decode-encode}
use gedis.Commands.Store.{not_found, Kv, KvLaws, answer, World, Run, call}
use gedis.Commands.Lookup.{
  type_prefixes, is_expired, of_codec, open_entry, after_get, lookup_in, lookup_raw,
}

-- The first of the prefixes with a value, where `f` says what each has.
abbrev pub first_value : (Bytes → Option Bytes) → List Bytes → Option (Bytes × Bytes)
first_value f [] = none
first_value f (p ∷ ps) =
    let rest = first_value f ps in elim (f p) [ none ↦ rest | some v ↦ some (p, v) ]

-- One prefix has a value.
abbrev pub only : Bytes → Bytes → Bytes → Option Bytes
only p v q = if bytes_eq q p then some v else none

abbrev pub nothing : Bytes → Option Bytes
nothing q = none

module _ {S : Type 0} {kv : Kv S} (laws : KvLaws kv) (now : ℤ) where
  -- Two states that differ at most in what the view does not show.
  abbrev pub Same : World S → World S → Type 0
  Same w w' =
      laws.IsValid w'.store
      × ((j : Bytes) → laws.look w'.store j ≡ laws.look w.store j)
      × (w'.events ≡ w.events)
      × (w'.expired ≡ w.expired)

  -- What a user's key has under each prefix.
  abbrev pub Shows : World S → Bytes → (Bytes → Option Bytes) → List Bytes → Type 0
  Shows w key f ps = All (λ p. laws.look w.store (p ++ key) ≡ f p) ps

  -- What the lookup does with what the first prefix has.
  abbrev pub found : Bytes → Option (Bytes × Bytes) → Run S (Bytes × Entry)
  found key none = λ w. (err not_found, w)
  found key (some (p, v)) = open_entry kv now (p ++ key) key v

  -- One key has another value than before, or none.
  abbrev pub Updates : World S → Bytes → Option Bytes → World S → Type 0
  Updates w k v w' =
      laws.IsValid w'.store
      × ((j : Bytes) → laws.look w'.store j ≡ (if bytes_eq j k then v else laws.look w.store j))
      × (w'.events ≡ w.events)
      × (w'.expired ≡ w.expired)

  pub Same-trans : (a b c : World S) → Same a b → Same b c → Same a c
  Same-trans a b c (v, l, e, x) (v', l', e', x') = (v', λ j. l' j ∙ l j, e' ∙ e, x' ∙ x)

  pub Shows-Same :
      (w w' : World S) (key : Bytes) (f : Bytes → Option Bytes) (ps : List Bytes)
      → Same w w'
      → Shows w key f ps
      → Shows w' key f ps
  Shows-Same w w' key f [] same h = tt
  Shows-Same w w' key f (p ∷ ps) same (here, there) =
      (same.1 (p ++ key) ∙ here, Shows-Same w w' key f ps same there)

  pub get_call :
      (w : World S) (k : Bytes) (v : Option Bytes)
      → laws.IsValid w.store
      → laws.look w.store k ≡ v
      → (w' : World S) × (call (kv.get_raw k) w ≡ (answer v, w')) × Same w w'
  unfolding call
  get_call w k v valid shows =
      let (s', got, valid', same) = laws.get_law w.store k valid in
      (
        record { store = s'; events = w.events; expired = w.expired },
        rw (got, shows) refl,
        (valid', same, refl, refl),
      )

  pub set_call :
      (w : World S) (k v : Bytes)
      → laws.IsValid w.store
      → (w' : World S) × (call (kv.set_raw k v) w ≡ (ok tt, w')) × Updates w k (some v) w'
  unfolding call
  set_call w k v valid =
      let (s', done, valid', shows) = laws.set_law w.store k v valid in
      (
        record { store = s'; events = w.events; expired = w.expired },
        rw done refl,
        (valid', shows, refl, refl),
      )

  pub delete_call :
      (w : World S) (k : Bytes)
      → laws.IsValid w.store
      → (w' : World S) × (call (kv.delete_raw k) w ≡ (ok tt, w')) × Updates w k none w'
  unfolding call
  delete_call w k valid =
      let (s', done, valid', shows) = laws.delete_law w.store k valid in
      (
        record { store = s'; events = w.events; expired = w.expired },
        rw done refl,
        (valid', shows, refl, refl),
      )

  first_value-none :
      (f : Bytes → Option Bytes) (p : Bytes) (ps : List Bytes)
      → f p ≡ none
      → first_value f (p ∷ ps) ≡ first_value f ps
  first_value-none f p ps h = rw (first_value, h) refl

  first_value-some :
      (f : Bytes → Option Bytes) (p v : Bytes) (ps : List Bytes)
      → f p ≡ some v
      → first_value f (p ∷ ps) ≡ some (p, v)
  first_value-some f p v ps h = rw (first_value, h) refl

  pub lookup_in-Shows :
      (key : Bytes) (f : Bytes → Option Bytes) (ps : List Bytes) (w : World S)
      → laws.IsValid w.store
      → Shows w key f ps
      → (w' : World S) × (lookup_in kv now key ps w ≡ found key (first_value f ps) w') × Same w w'
  unfolding lookup_in after_get answer
  lookup_in-Shows key f [] w valid shows = (w, refl, (valid, λ j. refl, refl, refl))
  lookup_in-Shows key f (p ∷ ps) w valid (here, there) = elim (Option-cases (f p)) [
    | inl missing ↦
        let (w1, got, same) = get_call w (p ++ key) none valid (here ∙ missing) in
        let (w2, rest, same') =
          lookup_in-Shows key f ps w1 same.0 (Shows-Same w w1 key f ps same there) in
        (
          w2,
          rw (lookup_in, got, first_value-none f p ps missing) rest,
          Same-trans w w1 w2 same same',
        )
    | inr (v, has) ↦
        let (w1, got, same) = get_call w (p ++ key) (some v) valid (here ∙ has) in
        (w1, rw (lookup_in, got, first_value-some f p v ps has) refl, same)
  ]

  -- A live entry of any kind.
  pub lookup_raw_live :
      (key p : Bytes) (f : Bytes → Option Bytes) (kind : ℕ) (expiry : ℤ) (payload : Bytes)
      (w : World S)
      → laws.IsValid w.store
      → Shows w key f type_prefixes
      → first_value f type_prefixes ≡ some (p, encode kind expiry payload)
      → IsInt64 expiry
      → is_expired now expiry ≡ false
      → (w' : World S) × (lookup_raw kv now key w
          ≡ (ok (p ++ key, record { kind = kind; expiry = expiry; payload = payload }), w'))
        × Same w w'
  unfolding lookup_raw open_entry of_codec
  lookup_raw_live key p f kind expiry payload w valid shows first fits live =
      let (w1, eq, same) = lookup_in-Shows key f type_prefixes w valid shows in
      (w1, eq ∙ rw (first, open_entry, decode-encode kind expiry payload fits, live) refl, same)

  -- Where no prefix has a value, the lookup answers that there is none.
  pub lookup_raw_absent :
      (key : Bytes) (w : World S)
      → laws.IsValid w.store
      → Shows w key nothing type_prefixes
      → (w' : World S) × (lookup_raw kv now key w ≡ (err not_found, w')) × Same w w'
  unfolding lookup_raw type_prefixes
  lookup_raw_absent key w valid shows = lookup_in-Shows key nothing type_prefixes w valid shows
