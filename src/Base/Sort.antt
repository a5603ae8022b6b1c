-- ===== src/Base/Sort.antt =====
-- The insertion sort by swaps that internal/datastruct uses: `sortStrings`, `sortZSetPairs`.
use gedis.Base.Tests.{if◌then◌else◌, Bool-cases}
use gedis.Base.Lists.{In, length}
use Prim.Native.Nat.{suc, ◌+◌}
use mathlib.Core.Path.{◌≡◌, refl}
use mathlib.Core.Bool.{Bool}
use mathlib.Core.Logic.{◌↔◌, ◌⊎◌, inl, inr}
use mathlib.Core.List.{List, [], ◌∷◌}
use native.Mathlib.Omega.{arith}

module _ {A : Type 0} (before : A → A → Bool) where
  -- A new element moves down past the elements that it is before; the sorted part has its last
  -- element first.
  unfoldable pub sink : A → List A → List A
  sink x [] = x ∷ []
  sink x (y ∷ ys) = let rest = sink x ys in if before x y then y ∷ rest else x ∷ y ∷ ys

  unfoldable pub sink_all : List A → List A → List A
  sink_all sorted [] = sorted
  sink_all sorted (x ∷ xs) = sink_all (sink x sorted) xs

  unfoldable pub turn : List A → List A → List A
  turn [] out = out
  turn (x ∷ xs) out = turn xs (x ∷ out)

  unfoldable pub sort_by : List A → List A
  unfolding sink_all turn
  sort_by xs = turn (sink_all [] xs) []

  length-sink : (x : A) (ys : List A) → length (sink x ys) ≡ suc (length ys)
  unfolding sink
  length-sink x [] = refl
  length-sink x (y ∷ ys) = ground (arith, length-sink x ys)

  length-sink_all : (s xs : List A) → length (sink_all s xs) ≡ length s + length xs
  unfolding sink_all
  length-sink_all s [] = omega arith
  length-sink_all s (x ∷ xs) = omega (arith, length-sink_all (sink x s) xs, length-sink x s)

  length-turn : (xs out : List A) → length (turn xs out) ≡ length xs + length out
  unfolding turn
  length-turn [] out = omega arith
  length-turn (x ∷ xs) out = omega (arith, length-turn xs (x ∷ out))

  pub length-sort_by : (xs : List A) → length (sort_by xs) ≡ length xs
  unfolding sort_by
  length-sort_by xs = omega (arith, length-turn (sink_all [] xs) [], length-sink_all [] xs)

  In-sink : (a x : A) (ys : List A) → In a (sink x ys) ↔ ((a ≡ x) ⊎ In a ys)
  unfolding sink
  In-sink a x [] = (λ h. h, λ h. h)
  In-sink a x (y ∷ ys) = elim (Bool-cases (before x y)) [
    | inr stays ↦ rw stays (λ h. h, λ h. h)
    | inl moves ↦
        let (there, back) = In-sink a x ys in
        rw moves (
          λ h. elim h [
            | inl e ↦ inr (inl e)
            | inr k ↦ elim (there k) [ inl e ↦ inl e | inr m ↦ inr (inr m) ]
          ],
          λ h. elim h [
            | inl e ↦ inr (back (inl e))
            | inr (inl e) ↦ inl e
            | inr (inr m) ↦ inr (back (inr m))
          ],
        )
  ]

  In-sink_all : (a : A) (s xs : List A) → In a (sink_all s xs) ↔ (In a s ⊎ In a xs)
  unfolding sink_all
  In-sink_all a s [] = (λ h. inl h, λ h. elim h [ inl k ↦ k | inr k ↦ elim k [ ] ])
  In-sink_all a s (x ∷ xs) =
      let (there, back) = In-sink_all a (sink x s) xs in
      let (down, up) = In-sink a x s in
      (
        λ h. elim (there h) [
          | inl k ↦ elim (down k) [ inl e ↦ inr (inl e) | inr m ↦ inl m ]
          | inr k ↦ inr (inr k)
        ],
        λ h. back (elim h [
          | inl m ↦ inl (up (inr m))
          | inr (inl e) ↦ inl (up (inl e))
          | inr (inr k) ↦ inr k
        ]),
      )

  In-turn : (a : A) (xs out : List A) → In a (turn xs out) ↔ (In a xs ⊎ In a out)
  unfolding turn
  In-turn a [] out = (λ h. inr h, λ h. elim h [ inl k ↦ elim k [ ] | inr k ↦ k ])
  In-turn a (x ∷ xs) out =
      let (there, back) = In-turn a xs (x ∷ out) in
      (
        λ h. elim (there h) [
          | inl k ↦ inl (inr k)
          | inr (inl e) ↦ inl (inl e)
          | inr (inr k) ↦ inr k
        ],
        λ h.
            back (elim h [ inl (inl e) ↦ inr (inl e) | inl (inr k) ↦ inl k | inr k ↦ inr (inr k) ]),
      )

  pub In-sort_by : (a : A) (xs : List A) → In a (sort_by xs) ↔ In a xs
  unfolding sort_by
  In-sort_by a xs =
      let (there, back) = In-turn a (sink_all [] xs) [] in
      let (down, up) = In-sink_all a [] xs in
      (
        λ h. elim (there h) [
          | inl k ↦ elim (down k) [ inl m ↦ elim m [ ] | inr m ↦ m ]
          | inr k ↦ elim k [ ]
        ],
        λ h. back (inl (up (inr h))),
      )
