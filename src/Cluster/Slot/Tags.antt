-- ===== src/Cluster/Slot/Tags.antt =====
-- Hash tags and ranges of internal/cluster/slot.go.
use gedis.Base.{
  ℕ, suc, ◌<◌, ◌≡◌, ◌≢◌, inl, inr, refl, sym, ap, Option-cases, ok-injective, ◌∙◌, Option, none,
  some, List, [], ◌∷◌, ◌++◌, if◌then◌else◌, ◌==◌, Bytes, All, length, take, drop, take-append,
  Bool-cases, Result, ok, err, bind-eq-ok, bytes_eq, arith,
}
use gedis.Base.Int.{ℤ, pos, ◌≤ℤ◌, ◌<ℤ◌}
use gedis.Base.Text.Decimal.{parse_int}
use gedis.Base.Text.Trim.{trim_space}
use gedis.Cluster.Slot.{
  num_slots, index_byte, tag_in, tag, slot, RangeError, empty_slot_spec, Range, check_range,
  check_slot, parse_slot_range, parse_slot_ranges,
}

-- A byte string in which `c` does not occur.
abbrev pub Free : ℕ → Bytes → Type 0
Free c s = All (λ x. x ≢ c) s

zero_not : {A : Type 0} (x y : A) (n : ℕ) → (if suc n == 0 then x else y) ≡ y
zero_not x y n = ground arith

index_byte-none : (s : Bytes) (c : ℕ) → Free c s → index_byte s c ≡ none
unfolding index_byte
index_byte-none [] c h = refl
index_byte-none (x ∷ s) c h = ground (arith, h.0, index_byte-none s c h.1)

index_byte-append :
    (s : Bytes) (c : ℕ) (rest : Bytes) → Free c s → index_byte (s ++ (c ∷ rest)) c ≡ some (length s)
unfolding index_byte
index_byte-append [] c rest h = ground arith
index_byte-append (x ∷ s) c rest h = ground (arith, h.0, index_byte-append s c rest h.1)

drop-suc_append :
    (s : Bytes) (c : ℕ) (rest : Bytes) → drop (suc (length s)) (s ++ (c ∷ rest)) ≡ rest
drop-suc_append [] c rest = refl
drop-suc_append (x ∷ s) c rest = drop-suc_append s c rest

tag_in-braces :
    (key inside rest : Bytes) (x : ℕ)
    → Free b'}' (x ∷ inside)
    → tag_in key ((x ∷ inside) ++ (b'}' ∷ rest)) ≡ x ∷ inside
unfolding tag_in
tag_in-braces key inside rest x h =
    rw (tag_in, index_byte-append (x ∷ inside) b'}' rest h)
      (zero_not key (take (suc (length inside)) ((x ∷ inside) ++ (b'}' ∷ rest))) (length inside)
        ∙ take-append (x ∷ inside) (b'}' ∷ rest))

tag-braces :
    (before inside rest : Bytes) (x : ℕ)
    → Free b'{' before
    → Free b'}' (x ∷ inside)
    → tag (before ++ (b'{' ∷ ((x ∷ inside) ++ (b'}' ∷ rest)))) ≡ x ∷ inside
unfolding tag
tag-braces before inside rest x hb hi =
    let after : Bytes = (x ∷ inside) ++ (b'}' ∷ rest) in
    rw (tag, index_byte-append before b'{' after hb, drop-suc_append before b'{' after)
      (tag_in-braces (before ++ (b'{' ∷ after)) inside rest x hi)

tag-whole : (key : Bytes) → Free b'{' key → tag key ≡ key
unfolding tag
tag-whole key h = rw (tag, index_byte-none key b'{' h) refl

-- A key with a non-empty hash tag, of which neither the text before it has a "{" nor the tag a
-- "{" or "}", has the slot of the tag alone, which is one of the 16384.
pub slot-tag :
    (before inside rest : Bytes) (x : ℕ)
    → Free b'{' before
    → Free b'{' (x ∷ inside)
    → Free b'}' (x ∷ inside)
    → (slot (before ++ (b'{' ∷ ((x ∷ inside) ++ (b'}' ∷ rest)))) ≡ slot (x ∷ inside))
      × (slot (x ∷ inside) < num_slots)
unfolding slot
slot-tag before inside rest x hb ho hc =
    rw (tag-braces before inside rest x hb hc, tag-whole (x ∷ inside) ho) (refl, omega arith)

-- What `ParseSlotRanges` promises of a range.
abbrev pub InSlots : Range → Type 0
InSlots r = (pos 0 ≤ℤ r.0) × (r.0 ≤ℤ r.1) × (r.1 <ℤ pos num_slots)

check_range-InSlots :
    (s : Bytes) (lo hi : Option ℤ) (r : Range) → check_range s lo hi ≡ ok r → InSlots r
unfolding check_range
check_range-InSlots s none hi r h = cc
check_range-InSlots s (some lo) none r h = cc
check_range-InSlots s (some lo) (some hi) r h = ground arith

check_slot-InSlots : (s : Bytes) (n : Option ℤ) (r : Range) → check_slot s n ≡ ok r → InSlots r
unfolding check_slot
check_slot-InSlots s none r h = cc
check_slot-InSlots s (some n) r h = ground arith

absurd_err {ℓ} :
    {A : Type ℓ} (e : RangeError) (r : Range) → Path (Result RangeError Range) (err e) (ok r) → A
absurd_err e r h = cc

parse_slot_range-InSlots : (s : Bytes) (r : Range) → parse_slot_range s ≡ ok r → InSlots r
unfolding parse_slot_range
parse_slot_range-InSlots s r h = elim (Bool-cases (bytes_eq s [])) [
  | inl empty ↦ absurd_err empty_slot_spec r (sym (rw (parse_slot_range, empty) refl) ∙ h)
  | inr text ↦ elim (Option-cases (index_byte s b'-')) [
    | inl none_there ↦
        check_slot-InSlots s (parse_int s) r
          (sym (rw (parse_slot_range, text, none_there) refl) ∙ h)
    | inr (i, there) ↦
        check_range-InSlots s (parse_int (trim_space (take i s)))
          (parse_int (trim_space (drop (suc i) s))) r
          (sym (rw (parse_slot_range, text, there) refl) ∙ h)
  ]
]

-- Where `ParseSlotRanges` succeeds, it gives one range for each text, and each lies within the
-- slots and is not inverted.
pub parse_slot_ranges-InSlots :
    (specs : List Bytes) (rs : List Range)
    → parse_slot_ranges specs ≡ ok rs
    → (length rs ≡ length specs) × All InSlots rs
unfolding parse_slot_ranges
parse_slot_ranges-InSlots [] rs h = rw (← ok-injective h) (refl, tt)
parse_slot_ranges-InSlots (s ∷ specs) rs h =
    let (r, one, tail) = bind-eq-ok (parse_slot_range (trim_space s)) _ h in
    let (qs, more, last) = bind-eq-ok (parse_slot_ranges specs) _ tail in
    let (same, all) = parse_slot_ranges-InSlots specs qs more in
    rw (← ok-injective last) (ap suc same, (parse_slot_range-InSlots (trim_space s) r one, all))
