-- ===== src/Datastruct/Uvarint.antt =====
-- `binary.Uvarint`, `AppendUvarint` and the big-endian uint64 of Go's encoding/binary, which
-- internal/datastruct builds its encodings of.
use gedis.Base.{
  ℕ, zero, suc, ◌+◌, ◌-◌, ◌*◌, ◌/◌, ◌%◌, ◌^◌, ◌<◌, ◌≤◌, ◌≡◌, refl, ◌&&◌, Option, none, some, [],
  ◌∷◌, ◌++◌, if◌then◌else◌, ltb, ◌==◌, Bytes, arith, length, Bool-cases, ltb→le, lt→ltb, le→ltb,
  inl, inr, ap, true, false,
}
use native.Mathlib.Omega.{pow_step}

-- `AppendUvarint`: groups of seven bits, the lowest first. A uint64 has at most ten.
unfoldable pub groups : ℕ → ℕ → Bytes
groups zero n = []
groups (suc k) n =
    let rest = groups k (n / 128) in if ltb n 128 then n ∷ [] else (n % 128 + 128) ∷ rest

unfoldable pub put_uvarint : ℕ → Bytes
unfolding groups
put_uvarint n = groups 10 n

-- The group that stands before the number that the rest gives.
abbrev with_group : ℕ → Option (ℕ × Bytes) → Option (ℕ × Bytes)
with_group b none = none
with_group b (some (n, rest)) = some (b - 128 + 128 * n, rest)

-- With `k` bytes left to read: the tenth byte is at most 1, and there is no eleventh.
unfoldable pub read_groups : ℕ → Bytes → Option (ℕ × Bytes)
read_groups k [] = none
read_groups zero (b ∷ bs) = none
read_groups (suc k) (b ∷ bs) =
    let rest = with_group b (read_groups k bs) in
    if ltb b 128 then (if k == 0 && ltb 1 b then none else some (b, bs)) else rest

-- `Uvarint`, with the bytes behind the number: `none` where the source gets `adv <= 0`.
unfoldable pub get_uvarint : Bytes → Option (ℕ × Bytes)
unfolding read_groups
get_uvarint bs = read_groups 10 bs

only_group : (n : ℕ) (rest : Bytes) → n < 2 → read_groups 1 (n ∷ rest) ≡ some (n, rest)
unfolding read_groups
only_group n rest h = ground arith

groups_last : (k n : ℕ) → ltb n 128 ≡ true → groups (suc k) n ≡ n ∷ []
unfolding groups
groups_last k n h = rw h refl

groups_more :
    (k n : ℕ) → ltb n 128 ≡ false → groups (suc k) n ≡ (n % 128 + 128) ∷ groups k (n / 128)
unfolding groups
groups_more k n h = rw h refl

suc_not_zero : (k : ℕ) → (suc k == 0) ≡ false
suc_not_zero k = ground arith

read_groups_last :
    (k n : ℕ) (rest : Bytes)
    → ltb n 128 ≡ true
    → read_groups (suc (suc k)) (n ∷ rest) ≡ some (n, rest)
unfolding read_groups
read_groups_last k n rest h = rw (h, suc_not_zero k) refl

read_groups_more :
    (k b : ℕ) (bs : Bytes)
    → ltb b 128 ≡ false
    → read_groups (suc k) (b ∷ bs) ≡ with_group b (read_groups k bs)
unfolding read_groups
read_groups_more k b bs h = rw h refl

small_quotient : (k n : ℕ) → n < 2 * 128 ^ suc k → n / 128 < 2 * 128 ^ k
small_quotient k n h = omega (arith, pow_step 128 k)

low_group : (n : ℕ) → 128 ≤ n → n % 128 + 128 - 128 + 128 * (n / 128) ≡ n
low_group n h = omega arith

read_groups-groups :
    (k n : ℕ) (rest : Bytes)
    → n < 2 * 128 ^ k
    → read_groups (suc k) (groups (suc k) n ++ rest) ≡ some (n, rest)
read_groups-groups zero n rest h =
    rw (groups_last zero n (lt→ltb n 128 (omega arith))) (only_group n rest (omega arith))
read_groups-groups (suc k) n rest h = elim (Bool-cases (ltb n 128)) [
  | inl last ↦ rw (groups_last (suc k) n last) (read_groups_last k n rest last)
  | inr more ↦
      let smaller = read_groups-groups k (n / 128) rest (small_quotient k n h) in
      let group = low_group n (ltb→le n 128 more) in
      rw
        (
          groups_more (suc k) n more,
          read_groups_more (suc k) (n % 128 + 128) (groups (suc k) (n / 128) ++ rest)
              (le→ltb (n % 128 + 128) 128 (omega arith)),
          smaller,
        )
        (ap (λ m. some (m, rest)) group)
]

-- What `AppendUvarint` writes of a uint64 reads back, whatever follows.
pub get_uvarint-put_uvarint :
    (n : ℕ) (rest : Bytes) → n < 2 ^ 64 → get_uvarint (put_uvarint n ++ rest) ≡ some (n, rest)
unfolding get_uvarint put_uvarint
get_uvarint-put_uvarint n rest h = read_groups-groups 9 n rest (omega arith)

-- `BigEndian.PutUint64`: `k` bytes, the highest first.
unfoldable pub put_big : ℕ → ℕ → Bytes
put_big zero n = []
put_big (suc k) n = (n / 256 ^ k % 256) ∷ put_big k n

unfoldable pub get_big : ℕ → Bytes → ℕ
get_big acc [] = acc
get_big acc (b ∷ bs) = get_big (acc * 256 + b) bs

pub length-put_big : (k n : ℕ) → length (put_big k n) ≡ k
unfolding put_big
length-put_big zero n = refl
length-put_big (suc k) n = omega (arith, length-put_big k n)

pub get_big-put_big : (n : ℕ) → n < 2 ^ 64 → get_big 0 (put_big 8 n) ≡ n
unfolding get_big put_big
get_big-put_big n h = omega arith
