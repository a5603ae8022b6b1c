-- ===== src/Commands/Lists/Positions.antt =====
-- The elements of a list between two positions.
use gedis.Base.{
  ℕ, zero, suc, ◌+◌, ◌-◌, ◌≤◌, ◌≡◌, refl, sym, ap, ◌∙◌, Bool, true, false, not, ◌&&◌, List, [], ◌∷◌,
  Bytes, length, take, drop, ltb, if◌then◌else◌, arith, Bool-cases, inl, inr, ltb→lt, ltb→le,
}
use gedis.Base.Int.{ℤ, pos, negsuc, pos_part, ltb_ℤ, ◌+ℤ◌}

-- The position that an index means in a list of `n` elements: a negative one counts from the end.
unfoldable pub absolute : ℤ → ℤ → ℤ
absolute idx n = if ltb_ℤ idx (pos 0) then idx +ℤ n else idx

abbrev pub is_within : ℤ → ℤ → ℕ → Bool
is_within lo hi i = not (ltb_ℤ (pos i) lo) && not (ltb_ℤ hi (pos i))

-- The elements whose positions, from `i` on, are neither before `lo` nor after `hi`.
unfoldable pub kept_between : ℤ → ℤ → ℕ → List Bytes → List Bytes
kept_between lo hi i [] = []
kept_between lo hi i (e ∷ es) =
    let rest = kept_between lo hi (suc i) es in if is_within lo hi i then e ∷ rest else rest

pub kept_in :
    (lo hi : ℤ) (i : ℕ) (e : Bytes) (es : List Bytes)
    → is_within lo hi i ≡ true
    → kept_between lo hi i (e ∷ es) ≡ e ∷ kept_between lo hi (suc i) es
unfolding kept_between
kept_in lo hi i e es h = rw (kept_between, h) refl

pub kept_out :
    (lo hi : ℤ) (i : ℕ) (e : Bytes) (es : List Bytes)
    → is_within lo hi i ≡ false
    → kept_between lo hi i (e ∷ es) ≡ kept_between lo hi (suc i) es
unfolding kept_between
kept_out lo hi i e es h = rw (kept_between, h) refl

abbrev pub nil : List Bytes
nil = []

pub take-nil : (n : ℕ) → take n nil ≡ []
take-nil zero = refl
take-nil (suc n) = refl

pub drop-nil : (n : ℕ) → drop n nil ≡ []
drop-nil zero = refl
drop-nil (suc n) = refl

pub take_all : (n : ℕ) (es : List Bytes) → length es ≤ n → take n es ≡ es
take_all n [] h = take-nil n
take_all zero (e ∷ es) h = absurd (omega arith)
take_all (suc n) (e ∷ es) h = ap (◌∷◌ e) (take_all n es (omega arith))

pub drop_all : (n : ℕ) (es : List Bytes) → length es ≤ n → drop n es ≡ []
drop_all n [] h = drop-nil n
drop_all zero (e ∷ es) h = absurd (omega arith)
drop_all (suc n) (e ∷ es) h = drop_all n es (omega arith)

pub take_none : (n : ℕ) (es : List Bytes) → n ≡ 0 → take n es ≡ []
take_none n es h = rw h refl

pub kept_nil : (lo hi : ℤ) (i : ℕ) → kept_between lo hi i nil ≡ []
unfolding kept_between
kept_nil lo hi i = refl

never : (lo : ℤ) (b i : ℕ) → is_within lo (negsuc b) i ≡ false
never (pos a) b i = ground arith
never (negsuc a) b i = ground arith

-- From a position on that is not before `a`.
kept_up_to :
    (a b i : ℕ) (es : List Bytes) → a ≤ i → kept_between (pos a) (pos b) i es ≡ take (b + 1 - i) es
kept_up_to a b i [] h = kept_nil (pos a) (pos b) i ∙ sym (take-nil (b + 1 - i))
kept_up_to a b i (e ∷ es) h = elim (Bool-cases (ltb b i)) [
  | inl past ↦
      kept_out (pos a) (pos b) i e es (ground arith)
      ∙ (kept_up_to a b (suc i) es (omega arith)
          ∙ (take_none (b + 1 - suc i) es (omega (arith, ltb→lt b i past))
              ∙ sym (take_none (b + 1 - i) (e ∷ es) (omega (arith, ltb→lt b i past)))))
  | inr here ↦
      let again : b + 1 - i ≡ suc (b + 1 - suc i) = omega (arith, ltb→le b i here) in
      kept_in (pos a) (pos b) i e es (ground arith)
      ∙ (ap (◌∷◌ e) (kept_up_to a b (suc i) es (omega arith)) ∙ rw again refl)
]

pub kept_from :
    (a b k i : ℕ) (es : List Bytes)
    → a ≡ i + k
    → kept_between (pos a) (pos b) i es ≡ take (b + 1 - a) (drop k es)
kept_from a b zero i es h =
    kept_up_to a b i es (omega arith) ∙ ap (λ n. take (b + 1 - n) es) (omega arith)
kept_from a b (suc k) i [] h = kept_nil (pos a) (pos b) i ∙ sym (take-nil (b + 1 - a))
kept_from a b (suc k) i (e ∷ es) h =
    kept_out (pos a) (pos b) i e es (ground arith) ∙ kept_from a b k (suc i) es (omega arith)

pub kept_no_stop : (lo : ℤ) (b i : ℕ) (es : List Bytes) → kept_between lo (negsuc b) i es ≡ []
kept_no_stop lo b i [] = kept_nil lo (negsuc b) i
kept_no_stop lo b i (e ∷ es) =
    kept_out lo (negsuc b) i e es (never lo b i) ∙ kept_no_stop lo b (suc i) es

same_test : (lo hi : ℤ) (i : ℕ) → is_within (pos (pos_part lo)) hi i ≡ is_within lo hi i
same_test (pos a) hi i = refl
same_test (negsuc a) hi i = ground arith

-- A start before the first position means the first.
pub kept_clamped :
    (lo hi : ℤ) (i : ℕ) (es : List Bytes)
    → kept_between lo hi i es ≡ kept_between (pos (pos_part lo)) hi i es
kept_clamped lo hi i [] = kept_nil lo hi i ∙ sym (kept_nil (pos (pos_part lo)) hi i)
kept_clamped lo hi i (e ∷ es) = elim (Bool-cases (is_within lo hi i)) [
  | inl inside ↦
      kept_in lo hi i e es inside
      ∙ (ap (◌∷◌ e) (kept_clamped lo hi (suc i) es)
          ∙ sym (kept_in (pos (pos_part lo)) hi i e es (same_test lo hi i ∙ inside)))
  | inr outside ↦
      kept_out lo hi i e es outside
      ∙ (kept_clamped lo hi (suc i) es
          ∙ sym (kept_out (pos (pos_part lo)) hi i e es (same_test lo hi i ∙ outside)))
]
