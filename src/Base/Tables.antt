-- ===== src/Base/Tables.antt =====
-- A Go map from strings: as an association list where the code ranges over it, and as a function
-- with a zero value where it only reads and writes single keys.
use Prim.Native.Nat.{suc}
use mathlib.Core.Path.{◌≡◌, refl, sym, ap, subst, ◌∙◌}
use mathlib.Core.Bool.{Bool, true, false}
use mathlib.Core.Option.{Option, none, some}
use mathlib.Core.List.{List, [], ◌∷◌}
use mathlib.Core.Logic.{◌≢◌, ◌⊎◌, inl, inr}
use native.Mathlib.Omega.{arith}
use gedis.Base.Tests.{if◌then◌else◌, Bool-cases, absurd_Bool}
use gedis.Base.Lists.{Bytes, bytes_eq, bytes_eq_iff, In, length}

abbrev pub Table {ℓ} : Type ℓ → Type ℓ
Table A = List (Bytes × A)

module _ {ℓ} {A : Type ℓ} where
  unfoldable pub get : Bytes → Table A → Option A
  get k [] = none
  get k (p ∷ t) = let rest = get k t in if bytes_eq p.0 k then some p.1 else rest

  -- `m[k] = a`.
  unfoldable pub put : Bytes → A → Table A → Table A
  put k a [] = (k, a) ∷ []
  put k a (p ∷ t) = let rest = put k a t in if bytes_eq p.0 k then (k, a) ∷ t else p ∷ rest

  -- What a loop over the map leaves that changes each value by itself.
  unfoldable pub map_values : (A → A) → Table A → Table A
  map_values f [] = []
  map_values f (p ∷ t) = (p.0, f p.1) ∷ map_values f t

  -- Whether a loop over the map finds a value.
  unfoldable pub any_value : (A → Bool) → Table A → Bool
  any_value f [] = false
  any_value f (p ∷ t) = let rest = any_value f t in if f p.1 then true else rest

  -- A map that is read with a default, after `m[k] = a`.
  abbrev pub set : (Bytes → A) → Bytes → A → Bytes → A
  set f k a j = if bytes_eq j k then a else f j

  pub get-put : (k : Bytes) (a : A) (t : Table A) → get k (put k a t) ≡ some a
  unfolding get put
  get-put k a [] = ground (arith, bytes_eq_iff k k)
  get-put k a (p ∷ t) = ground (arith, bytes_eq_iff k k, get-put k a t)

  pub get-put_other : (k j : Bytes) (a : A) (t : Table A) → k ≢ j → get j (put k a t) ≡ get j t
  unfolding get put
  get-put_other k j a [] h = ground (arith, bytes_eq_iff k j)
  get-put_other k j a (p ∷ t) h =
      ground
        (arith, bytes_eq_iff k j, bytes_eq_iff p.0 k, bytes_eq_iff p.0 j, get-put_other k j a t h)

  -- What a loop over the map collects of its keys.
  unfoldable pub keys : Table A → List Bytes
  keys [] = []
  keys (p ∷ t) = p.0 ∷ keys t

  -- `m[k] = f(k)` for each key of a list, in its order.
  unfoldable pub put_each : (Bytes → A) → List Bytes → Table A → Table A
  put_each f [] t = t
  put_each f (k ∷ ks) t = put_each f ks (put k (f k) t)

  no_value : (a : A) → ¬ Path (Option A) (some a) none
  no_value a h = cc

  get_first :
      (k : Bytes) (p : Bytes × A) (t : Table A) → bytes_eq p.0 k ≡ true → get k (p ∷ t) ≡ some p.1
  unfolding get
  get_first k p t h = rw h refl

  get_rest :
      (k : Bytes) (p : Bytes × A) (t : Table A) → bytes_eq p.0 k ≡ false → get k (p ∷ t) ≡ get k t
  unfolding get
  get_rest k p t h = rw h refl

  pub get-In-keys : (k : Bytes) (t : Table A) (a : A) → get k t ≡ some a → In k (keys t)
  unfolding get keys
  get-In-keys k [] a h = cc
  get-In-keys k (p ∷ t) a h = elim (Bool-cases (bytes_eq p.0 k)) [
    | inl same ↦ inl (sym ((bytes_eq_iff p.0 k).0 same))
    | inr other ↦ inr (get-In-keys k t a (sym (get_rest k p t other) ∙ h))
  ]

  pub get-none-In-keys : (k : Bytes) (t : Table A) → get k t ≡ none → ¬ In k (keys t)
  unfolding keys
  get-none-In-keys k [] h = λ m. m
  get-none-In-keys k (p ∷ t) h = λ m. elim (Bool-cases (bytes_eq p.0 k)) [
    | inl same ↦ no_value p.1 (sym (get_first k p t same) ∙ h)
    | inr other ↦ elim m [
      | inl e ↦ absurd_Bool (sym ((bytes_eq_iff p.0 k).1 (sym e)) ∙ other)
      | inr there ↦ get-none-In-keys k t (sym (get_rest k p t other) ∙ h) there
    ]
  ]

  -- A key of the list, and one that had its value before, has its value after.
  pub get-put_each :
      (f : Bytes → A) (k : Bytes) (ks : List Bytes) (t : Table A)
      → (In k ks ⊎ (get k t ≡ some (f k)))
      → get k (put_each f ks t) ≡ some (f k)
  unfolding put_each
  get-put_each f k [] t (inl m) = elim m [ ]
  get-put_each f k [] t (inr h) = h
  get-put_each f k (j ∷ js) t h = elim (Bool-cases (bytes_eq j k)) [
    | inl same ↦
        get-put_each f k js (put j (f j) t)
          (inr (rw ((bytes_eq_iff j k).0 same) (get-put k (f k) t)))
    | inr other ↦ get-put_each f k js (put j (f j) t) (elim h [
      | inl (inl e) ↦ absurd_Bool (sym ((bytes_eq_iff j k).1 (sym e)) ∙ other)
      | inl (inr m) ↦ inl m
      | inr g ↦
          inr (
            get-put_other j k (f j) t (λ e. absurd_Bool (sym ((bytes_eq_iff j k).1 e) ∙ other)) ∙ g)
    ])
  ]

  pub get-put_each_other :
      (f : Bytes → A) (k : Bytes) (ks : List Bytes) (t : Table A)
      → ¬ In k ks
      → get k (put_each f ks t) ≡ get k t
  unfolding put_each
  get-put_each_other f k [] t h = refl
  get-put_each_other f k (j ∷ js) t h =
      get-put_each_other f k js (put j (f j) t) (λ m. h (inr m))
      ∙ get-put_other j k (f j) t (λ e. h (inl (sym e)))

  pub length-keys : (t : Table A) → length (keys t) ≡ length t
  unfolding keys
  length-keys [] = refl
  length-keys (p ∷ t) = ap suc (length-keys t)

  keys-put_same :
      (k : Bytes) (a : A) (p : Bytes × A) (t : Table A)
      → bytes_eq p.0 k ≡ true
      → keys (put k a (p ∷ t)) ≡ k ∷ keys t
  unfolding keys put
  keys-put_same k a p t h = rw (put, h) refl

  keys-put_other :
      (k : Bytes) (a : A) (p : Bytes × A) (t : Table A)
      → bytes_eq p.0 k ≡ false
      → keys (put k a (p ∷ t)) ≡ p.0 ∷ keys (put k a t)
  unfolding keys put
  keys-put_other k a p t h = rw (put, h) refl

  In-keys-put :
      (j k : Bytes) (a : A) (t : Table A) → In j (keys (put k a t)) → (j ≡ k) ⊎ In j (keys t)
  unfolding keys put
  In-keys-put j k a [] m = m
  In-keys-put j k a (p ∷ t) m = elim (Bool-cases (bytes_eq p.0 k)) [
    | inl same ↦ elim (subst (λ ks. In j ks) (keys-put_same k a p t same) m) [
      | inl e ↦ inl e
      | inr r ↦ inr (inr r)
    ]
    | inr other ↦ elim (subst (λ ks. In j ks) (keys-put_other k a p t other) m) [
      | inl e ↦ inr (inl e)
      | inr r ↦ elim (In-keys-put j k a t r) [ inl e ↦ inl e | inr old ↦ inr (inr old) ]
    ]
  ]

  pub In-keys-put_each :
      (f : Bytes → A) (k : Bytes) (ks : List Bytes) (t : Table A)
      → In k (keys (put_each f ks t))
      → In k ks ⊎ In k (keys t)
  unfolding put_each
  In-keys-put_each f k [] t m = inr m
  In-keys-put_each f k (j ∷ js) t m = elim (In-keys-put_each f k js (put j (f j) t) m) [
    | inl there ↦ inl (inr there)
    | inr here ↦ elim (In-keys-put k j (f j) t here) [ inl e ↦ inl (inl e) | inr old ↦ inr old ]
  ]

  -- `delete(m, k)`
  unfoldable pub remove : Bytes → Table A → Table A
  remove k [] = []
  remove k (p ∷ t) = let rest = remove k t in if bytes_eq p.0 k then t else p ∷ rest

  pub length-remove :
      (k : Bytes) (t : Table A) → In k (keys t) → suc (length (remove k t)) ≡ length t
  unfolding remove keys
  length-remove k [] m = elim m [ ]
  length-remove k (p ∷ t) m = elim (Bool-cases (bytes_eq p.0 k)) [
    | inl same ↦ rw (remove, same) refl
    | inr other ↦ elim m [
      | inl e ↦ absurd_Bool (sym ((bytes_eq_iff p.0 k).1 (sym e)) ∙ other)
      | inr there ↦ rw (remove, other) (ap suc (length-remove k t there))
    ]
  ]

  -- A key that is missing is missing after another one is removed.
  pub get-remove-none : (k j : Bytes) (t : Table A) → get k t ≡ none → get k (remove j t) ≡ none
  unfolding get remove
  get-remove-none k j [] h = h
  get-remove-none k j (p ∷ t) h = elim (Bool-cases (bytes_eq p.0 k)) [
    | inl same ↦ absurd (no_value p.1 (sym (get_first k p t same) ∙ h))
    | inr other ↦
        let below = sym (get_rest k p t other) ∙ h in
        elim (Bool-cases (bytes_eq p.0 j)) [
          | inl gone ↦ rw (remove, gone) below
          | inr stays ↦ rw (remove, stays, get, other) (get-remove-none k j t below)
        ]
  ]
