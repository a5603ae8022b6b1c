-- ===== src/Base/Text/Decimal.antt =====
-- strconv.FormatInt, FormatUint, ParseInt and ParseUint, at base 10 and 64 bits. A caller looks only
-- at whether an error came back, so syntax and range errors are both `none`.
use Prim.Native.Nat.{ℕ, zero, suc, ◌+◌, ◌-◌, ◌*◌, ◌/◌, ◌%◌, ◌^◌, ◌≤◌, ◌<◌}
use mathlib.Core.Path.{◌≡◌, refl, ap, ◌∙◌}
use mathlib.Core.Bool.{Bool, true, false, ◌&&◌}
use mathlib.Core.Option.{Option, none, some}
use mathlib.Core.List.{[], ◌∷◌, ◌++◌}
use native.Mathlib.Omega.{arith}
use native.Mathlib.Nat.{pow-suc}
use native.Mathlib.Decide.{dec_lt}
use gedis.Base.Tests.{ltb, leb, ◌==◌, if◌then◌else◌}
use gedis.Base.Lists.{Bytes, length, length-append, All, All-append}
use gedis.Base.Int.{ℤ, pos, negsuc, sub_ℕ, IsInt64}

digits_of : ℕ → ℕ → Bytes
digits_of zero n = (n % 10 + 48) ∷ []
digits_of (suc f) n =
    let front = digits_of f (n / 10) in
    if ltb n 10 then (n + 48) ∷ [] else front ++ ((n % 10 + 48) ∷ [])

-- A uint64 has at most 20 digits.
unfoldable pub format_uint : ℕ → Bytes
unfolding digits_of
format_uint n = digits_of 19 n

unfoldable pub format_int : ℤ → Bytes
unfolding format_uint
format_int (pos n) = format_uint n
format_int (negsuc n) = b'-' ∷ format_uint (suc n)

abbrev pub is_digit : ℕ → Bool
is_digit c = leb b'0' c && leb c b'9'

unfoldable pub parse_digits : ℕ → Bytes → Option ℕ
parse_digits acc [] = some acc
parse_digits acc (c ∷ cs) = if is_digit c then parse_digits (acc * 10 + (c - 48)) cs else none

abbrev in_range : ℕ → Option ℕ → Option ℕ
in_range bound none = none
in_range bound (some n) = if ltb n bound then some n else none

unfoldable pub parse_uint : Bytes → Option ℕ
unfolding parse_digits
parse_uint [] = none
parse_uint (c ∷ cs) = in_range (2 ^ 64) (parse_digits 0 (c ∷ cs))

abbrev signed : Bool → Option ℕ → Option ℤ
signed negative none = none
signed negative (some n) =
    if negative
    then (if leb n (2 ^ 63) then some (sub_ℕ 0 n) else none)
    else (if ltb n (2 ^ 63) then some (pos n) else none)

unfoldable pub parse_int : Bytes → Option ℤ
unfolding parse_uint
parse_int [] = none
parse_int (c ∷ cs) =
    if c == b'-'
    then signed true (parse_uint cs)
    else if c == b'+'
    then signed false (parse_uint cs)
    else signed false (parse_uint (c ∷ cs))

abbrev pub IsDigit : ℕ → Type 0
IsDigit c = (48 ≤ c) × (c ≤ 57)

digits_of-IsDigit : (f n : ℕ) → All IsDigit (digits_of f n)
unfolding digits_of
digits_of-IsDigit zero n = (omega arith, tt)
digits_of-IsDigit (suc f) n = ground (
  arith,
  digits_of-IsDigit f (n / 10),
  All-append IsDigit (digits_of f (n / 10)) ((n % 10 + 48) ∷ []),
)

abbrev then_digit : ℕ → Option ℕ → Option ℕ
then_digit c none = none
then_digit c (some acc) = parse_digits acc (c ∷ [])

parse_digits-snoc :
    (xs : Bytes) (acc c : ℕ)
    → parse_digits acc (xs ++ (c ∷ [])) ≡ then_digit c (parse_digits acc xs)
unfolding parse_digits
parse_digits-snoc [] acc c = ground arith
parse_digits-snoc (x ∷ xs) acc c = ground (arith, parse_digits-snoc xs (acc * 10 + (x - 48)) c)

one_digit : (n : ℕ) → n < 10 → parse_digits 0 ((n + 48) ∷ []) ≡ some n
unfolding parse_digits
one_digit n h = ground arith

last_digit : (n : ℕ) → then_digit (n % 10 + 48) (some (n / 10)) ≡ some n
unfolding parse_digits
last_digit n = ground arith

digits_of_small : (f n : ℕ) → n < 10 → digits_of (suc f) n ≡ (n + 48) ∷ []
unfolding digits_of
digits_of_small f n h = ground arith

digits_of_large :
    (f n : ℕ) → 10 ≤ n → digits_of (suc f) n ≡ digits_of f (n / 10) ++ ((n % 10 + 48) ∷ [])
unfolding digits_of
digits_of_large f n h = ground arith

parse_digits-digits_of : (f n : ℕ) → n < 10 ^ suc f → parse_digits 0 (digits_of f n) ≡ some n
parse_digits-digits_of zero n h = unfold parse_digits digits_of in ground arith
parse_digits-digits_of (suc f) n h = elim (dec_lt n 10) [
  | yes small ↦ rw (digits_of_small f n small) (one_digit n small)
  | no large ↦ rw (digits_of_large f n (omega arith)) (
      parse_digits-snoc (digits_of f (n / 10)) 0 (n % 10 + 48)
      ∙ ap (then_digit (n % 10 + 48))
          (parse_digits-digits_of f (n / 10) (omega (arith, pow-suc 10 (suc f))))
      ∙ last_digit n)
]

-- The text of a uint64 is digits, at least one, and parses back to it.
pub format_uint-IsDigit : (n : ℕ) → All IsDigit (format_uint n)
unfolding format_uint
format_uint-IsDigit n = digits_of-IsDigit 19 n

length-digits_of : (f n : ℕ) → 0 < length (digits_of f n)
unfolding digits_of
length-digits_of zero n = omega arith
length-digits_of (suc f) n =
    ground (arith, length-append (digits_of f (n / 10)) ((n % 10 + 48) ∷ []))

parse_uint-parse_digits :
    (xs : Bytes) (n : ℕ)
    → 0 < length xs
    → n < 2 ^ 64
    → parse_digits 0 xs ≡ some n
    → parse_uint xs ≡ some n
unfolding parse_uint
parse_uint-parse_digits [] n ne h e = elim ne [ ]
parse_uint-parse_digits (c ∷ cs) n ne h e = rw e (ground arith)

pub parse_uint-format_uint : (n : ℕ) → n < 2 ^ 64 → parse_uint (format_uint n) ≡ some n
unfolding format_uint
parse_uint-format_uint n h =
    parse_uint-parse_digits (digits_of 19 n) n (length-digits_of 19 n) h
      (parse_digits-digits_of 19 n (omega arith))

parse_int-digits :
    (xs : Bytes) → 0 < length xs → All IsDigit xs → parse_int xs ≡ signed false (parse_uint xs)
unfolding parse_int
parse_int-digits [] ne h = elim ne [ ]
parse_int-digits (c ∷ cs) ne h = ground arith

parse_int-minus : (xs : Bytes) → parse_int (b'-' ∷ xs) ≡ signed true (parse_uint xs)
unfolding parse_int
parse_int-minus xs = refl

signed_pos : (n : ℕ) → n < 2 ^ 63 → signed false (some n) ≡ some (pos n)
signed_pos n h = ground arith

signed_negsuc : (n : ℕ) → suc n ≤ 2 ^ 63 → signed true (some (suc n)) ≡ some (negsuc n)
signed_negsuc n h = ground arith

-- ParseInt reads back what FormatInt wrote.
pub parse_int-format_int : (a : ℤ) → IsInt64 a → parse_int (format_int a) ≡ some a
unfolding format_int
parse_int-format_int (pos n) h =
    parse_int-digits (digits_of 19 n) (length-digits_of 19 n) (digits_of-IsDigit 19 n)
    ∙ rw (parse_uint-format_uint n (omega arith)) (signed_pos n h.0)
parse_int-format_int (negsuc n) h =
    parse_int-minus (format_uint (suc n))
    ∙ rw (parse_uint-format_uint (suc n) (omega arith)) (signed_negsuc n h.1)

abbrev pub IsNumeric : ℕ → Type 0
IsNumeric c = (45 ≤ c) × (c ≤ 57)

All-weaken : (xs : Bytes) → All IsDigit xs → All IsNumeric xs
All-weaken [] h = tt
All-weaken (x ∷ xs) h = (omega arith, All-weaken xs h.1)

-- FormatInt writes digits and a minus sign only.
pub format_int-IsNumeric : (a : ℤ) → All IsNumeric (format_int a)
unfolding format_int
format_int-IsNumeric (pos n) = All-weaken _ (digits_of-IsDigit 19 n)
format_int-IsNumeric (negsuc n) = (omega arith, All-weaken _ (digits_of-IsDigit 19 (suc n)))
