-- ===== src/Commands/Lists/RangeLaws.antt =====
-- The bounds of LRANGE and LTRIM against the positions that they mean.
use gedis.Base.{
  ℕ, zero, suc, ◌+◌, ◌-◌, ◌^◌, ◌<◌, ◌≤◌, ◌≡◌, refl, sym, ap, ◌∙◌, Bool, true, false, not, ◌&&◌,
  ◌||◌, List, [], ◌∷◌, Bytes, length, take, drop, ltb, if◌then◌else◌, arith, Bool-cases, inl, inr,
  ltb→lt, ltb→le, lt→ltb, le→ltb, length-drop,
}
use gedis.Base.Int.{ℤ, pos, negsuc, pos_part, neg_part, IsInt64, ltb_ℤ, add64, sub64, ◌+ℤ◌}
use gedis.Commands.Lists.Ranges.{from_start, to_stop, between}
use gedis.Commands.Counters.Overflow.{exact_sum}
use mathlib.Core.Path.{subst}
use gedis.Base.{take-drop, ◌++◌}
use gedis.Datastruct.ListCodec.{IsStorable}
use gedis.Commands.Lists.PopLaws.{part_IsStorable}
use gedis.Commands.Lists.Positions.{
  absolute, kept_between, nil, take-nil, drop-nil, take_all, drop_all, take_none, kept_from,
  kept_no_stop, kept_clamped,
}

-- The last step of `between`.
abbrev cut : ℤ → ℤ → List Bytes → List Bytes
cut lo hi elems =
    if ltb_ℤ hi lo || not (ltb_ℤ lo (pos (length elems)))
    then []
    else take (pos_part hi + 1 - pos_part lo) (drop (pos_part lo) elems)

between-cut :
    (start stop : ℤ) (elems : List Bytes)
    → between start stop elems
      ≡ cut (from_start start (pos (length elems))) (to_stop stop (pos (length elems))) elems
unfolding between
between-cut start stop elems = refl

cut_short : (a b : ℕ) (elems : List Bytes) → ltb b a ≡ true → cut (pos a) (pos b) elems ≡ []
cut_short a b elems h = ground arith

cut_long :
    (a b : ℕ) (elems : List Bytes)
    → ltb b a ≡ false
    → ltb a (length elems) ≡ true
    → cut (pos a) (pos b) elems ≡ take (b + 1 - a) (drop a elems)
cut_long a b elems h k = ground arith

cut_past : (a b : ℕ) (elems : List Bytes) → length elems ≤ a → cut (pos a) (pos b) elems ≡ []
cut_past a b elems h = ground arith

cut_before : (a b : ℕ) (elems : List Bytes) → cut (pos a) (negsuc b) elems ≡ []
cut_before a b elems = ground arith

cut_inside :
    (a b : ℕ) (elems : List Bytes)
    → b < length elems
    → cut (pos a) (pos b) elems ≡ take (b + 1 - a) (drop a elems)
cut_inside a b elems h = elim (Bool-cases (ltb b a)) [
  | inl past ↦
      cut_short a b elems past
      ∙ sym (take_none (b + 1 - a) (drop a elems) (omega (arith, ltb→lt b a past)))
  | inr here ↦ cut_long a b elems here (lt→ltb a (length elems) (omega (arith, ltb→le b a here)))
]

-- What is added to a negative index does not wrap.
shifted_fits : (m n : ℕ) → m < 2 ^ 63 → n < 2 ^ 63 → IsInt64 (negsuc m +ℤ pos n)
unfolding ◌+ℤ◌
shifted_fits m n h k = ground arith

clamp : (x : ℤ) → (if ltb_ℤ x (pos 0) then pos 0 else x) ≡ pos (pos_part x)
clamp (pos n) = ground arith
clamp (negsuc n) = ground arith

shift :
    (idx : ℤ) (n : ℕ)
    → IsInt64 idx
    → n < 2 ^ 63
    → (if ltb_ℤ idx (pos 0) then add64 idx (pos n) else idx) ≡ absolute idx (pos n)
unfolding absolute
shift (pos i) n h k = ground arith
shift (negsuc m) n h k = rw (exact_sum (negsuc m) (pos n) (shifted_fits m n (omega arith) k)) refl

from_start_lem :
    (start : ℤ) (n : ℕ)
    → IsInt64 start
    → n < 2 ^ 63
    → from_start start (pos n) ≡ pos (pos_part (absolute start (pos n)))
unfolding from_start
from_start_lem start n h k = rw (from_start, shift start n h k) (clamp (absolute start (pos n)))

to_stop_lem :
    (stop : ℤ) (n : ℕ)
    → IsInt64 stop
    → n < 2 ^ 63
    → to_stop stop (pos n) ≡ (
        if ltb_ℤ (absolute stop (pos n)) (pos n)
        then absolute stop (pos n)
        else sub64 (pos n) (pos 1))
unfolding to_stop
to_stop_lem stop n h k = rw (to_stop, shift stop n h k) refl

one_less : (n : ℕ) → suc n < 2 ^ 63 → sub64 (pos (suc n)) (pos 1) ≡ pos n
unfolding sub64 gedis.Base.Int.◌-ℤ◌
one_less n h = ground arith

none_less : sub64 (pos 0) (pos 1) ≡ negsuc 0
unfolding sub64 gedis.Base.Int.◌-ℤ◌
none_less = refl

negative_below : (b n : ℕ) → ltb_ℤ (negsuc b) (pos n) ≡ true
negative_below b n = ground arith

pos_below : (b n : ℕ) → ltb b n ≡ true → ltb_ℤ (pos b) (pos n) ≡ true
pos_below b n h = ground arith

pos_not_below : (b n : ℕ) → ltb b n ≡ false → ltb_ℤ (pos b) (pos n) ≡ false
pos_not_below b n h = ground arith

cut_last :
    (a b : ℕ) (elems : List Bytes)
    → length elems ≤ b
    → length elems < 2 ^ 63
    → cut (pos a) (sub64 (pos (length elems)) (pos 1)) elems ≡ take (b + 1 - a) (drop a elems)
cut_last a b [] h k =
    rw none_less (cut_before a 0 nil)
    ∙ sym (ap (take (b + 1 - a)) (drop-nil a) ∙ take-nil (b + 1 - a))
cut_last a b (e ∷ es) h k = elim (Bool-cases (ltb a (length (e ∷ es)))) [
  | inl inside ↦
      rw (one_less (length es) k) (cut_inside a (length es) (e ∷ es) (omega arith))
      ∙ (take_all (length es + 1 - a) (drop a (e ∷ es)) (omega (arith, length-drop a (e ∷ es)))
          ∙ sym (take_all (b + 1 - a) (drop a (e ∷ es)) (omega (arith, length-drop a (e ∷ es)))))
  | inr past ↦
      rw (one_less (length es) k)
        (cut_past a (length es) (e ∷ es) (ltb→le a (length (e ∷ es)) past))
      ∙ sym (
          ap (take (b + 1 - a)) (drop_all a (e ∷ es) (ltb→le a (length (e ∷ es)) past))
          ∙ take-nil (b + 1 - a))
]

cut_stop :
    (a : ℕ) (stop : ℤ) (elems : List Bytes)
    → length elems < 2 ^ 63
    → cut
        (pos a)
        (if ltb_ℤ stop (pos (length elems)) then stop else sub64 (pos (length elems)) (pos 1))
        elems
      ≡ kept_between (pos a) stop 0 elems
cut_stop a (negsuc b) elems k =
    rw (negative_below b (length elems))
      (cut_before a b elems ∙ sym (kept_no_stop (pos a) b 0 elems))
cut_stop a (pos b) elems k = elim (Bool-cases (ltb b (length elems))) [
  | inl short ↦
      rw (pos_below b (length elems) short) (cut_inside a b elems (ltb→lt b (length elems) short))
      ∙ sym (kept_from a b a 0 elems (omega arith))
  | inr long ↦
      rw (pos_not_below b (length elems) long) (cut_last a b elems (ltb→le b (length elems) long) k)
      ∙ sym (kept_from a b a 0 elems (omega arith))
]

-- LRANGE and LTRIM keep exactly the elements whose positions lie between the two that their bounds
-- mean, in order: the clamps, the wrap-around and the early return change nothing of that.
pub between-kept_between :
    (start stop : ℤ) (elems : List Bytes)
    → IsInt64 start
    → IsInt64 stop
    → length elems < 2 ^ 63
    → between start stop elems
      ≡ kept_between
          (absolute start (pos (length elems)))
          (absolute stop (pos (length elems)))
          0
          elems
between-kept_between start stop elems h k small =
    let n = length elems in
    between-cut start stop elems
    ∙ (rw (from_start_lem start n h small, to_stop_lem stop n k small)
          (cut_stop (pos_part (absolute start (pos n))) (absolute stop (pos n)) elems small)
        ∙ sym (kept_clamped (absolute start (pos n)) (absolute stop (pos n)) 0 elems))

take-IsStorable : (n : ℕ) (elems : List Bytes) → IsStorable elems → IsStorable (take n elems)
take-IsStorable n elems h =
    (part_IsStorable (take n elems) (drop n elems)
      (subst (λ xs. IsStorable xs) (sym (take-drop n elems)) h)).0

drop-IsStorable : (n : ℕ) (elems : List Bytes) → IsStorable elems → IsStorable (drop n elems)
drop-IsStorable n elems h =
    (part_IsStorable (take n elems) (drop n elems)
      (subst (λ xs. IsStorable xs) (sym (take-drop n elems)) h)).1

if_IsStorable :
    (b : Bool) (elems : List Bytes) → IsStorable elems → IsStorable (if b then [] else elems)
if_IsStorable true elems h = (omega arith, tt)
if_IsStorable false elems h = h

-- What is kept of a list that fits its encoding fits it.
pub between-IsStorable :
    (start stop : ℤ) (elems : List Bytes) → IsStorable elems → IsStorable (between start stop elems)
unfolding between
between-IsStorable start stop elems h =
    let n = pos (length elems) in
    let lo = from_start start n in
    let hi = to_stop stop n in
    if_IsStorable (ltb_ℤ hi lo || not (ltb_ℤ lo n))
      (take (pos_part hi + 1 - pos_part lo) (drop (pos_part lo) elems))
      (take-IsStorable (pos_part hi + 1 - pos_part lo) (drop (pos_part lo) elems)
        (drop-IsStorable (pos_part lo) elems h))
