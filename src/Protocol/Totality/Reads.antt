-- ===== src/Protocol/Totality/Reads.antt =====
-- How much of the input each read of internal/protocol/decode.go leaves.
use gedis.Base.{
  ℕ, zero, suc, ◌*◌, true, false, leb, bytes_eq, drop, ◌+◌, ◌-◌, ◌≤◌, ◌≢◌, refl, Bool, Option, none,
  some, [], ◌∷◌, Bytes, Result, ok, err, panic, out_of_fuel, ◌>>=◌, length, if◌then◌else◌, arith,
}
use gedis.Base.Text.Decimal.{parse_int}
use gedis.Protocol.Reader.{
  Error, Read, max_alloc, or_bad, make, read_byte, expect_crlf, read_string, strip_crlf, read_line,
  read_int, read_full, read_payload,
}

-- The call ends: it fails, or it succeeds and leaves at most `n` bytes.
abbrev pub Leaves {ℓ} : {A : Type ℓ} → ℕ → Result Error (A × Bytes) → Type 0
Leaves n (ok (a, rest)) = length rest ≤ n
Leaves n (err e) = Unit
Leaves n panic = Unit
Leaves n out_of_fuel = ⊥

module _ {A B : Type 0} where
  pub Leaves-bind :
      (n k : ℕ) (m : Read A) (f : A × Bytes → Read B)
      → Leaves n m
      → ((a : A) (rest : Bytes) → length rest ≤ n → Leaves k (f (a, rest)))
      → Leaves k (m >>= f)
  Leaves-bind n k (ok (a, rest)) f h g = g a rest h
  Leaves-bind n k (err e) f h g = tt
  Leaves-bind n k panic f h g = tt
  Leaves-bind n k out_of_fuel f h g = h

  -- the same after a step that reads nothing
  pub Leaves-bind_pure :
      (k : ℕ) (m : Result Error A) (f : A → Read B)
      → m ≢ out_of_fuel
      → ((a : A) → Leaves k (f a))
      → Leaves k (m >>= f)
  Leaves-bind_pure k (ok a) f h g = g a
  Leaves-bind_pure k (err e) f h g = tt
  Leaves-bind_pure k panic f h g = tt
  Leaves-bind_pure k out_of_fuel f h g = absurd (h refl)

pub Leaves-mono {ℓ} :
    {A : Type ℓ} (n k : ℕ) (m : Result Error (A × Bytes)) → n ≤ k → Leaves n m → Leaves k m
Leaves-mono n k (ok (a, rest)) h l = omega arith
Leaves-mono n k (err e) h l = tt
Leaves-mono n k panic h l = tt
Leaves-mono n k out_of_fuel h l = l

pub Leaves-if {ℓ} :
    {A : Type ℓ} (k : ℕ) (b : Bool) (x y : Result Error (A × Bytes))
    → Leaves k x
    → Leaves k y
    → Leaves k (if b then x else y)
Leaves-if k true x y hx hy = hx
Leaves-if k false x y hx hy = hy

pub or_bad-ne-out_of_fuel {ℓ} : {A : Type ℓ} (e : Error) (o : Option A) → or_bad e o ≢ out_of_fuel
or_bad-ne-out_of_fuel e none h = cc
or_bad-ne-out_of_fuel e (some a) h = cc

pub read_byte-Leaves : (r : Bytes) → Leaves (length r - 1) (read_byte r)
unfolding read_byte
read_byte-Leaves [] = tt
read_byte-Leaves (c ∷ rest) = omega arith

pub expect_crlf-Leaves : (r : Bytes) → Leaves (length r) (expect_crlf r)
unfolding expect_crlf read_byte
expect_crlf-Leaves [] = tt
expect_crlf-Leaves (a ∷ []) = tt
expect_crlf-Leaves (a ∷ b ∷ r) = ground arith

read_string-Leaves : (r : Bytes) → Leaves (length r - 1) (read_string r)
unfolding read_string
read_string-Leaves [] = tt
read_string-Leaves (c ∷ rest) = ground (arith, read_string-Leaves rest)

strip_crlf-ne-out_of_fuel : (s : Bytes) → strip_crlf s ≢ out_of_fuel
unfolding strip_crlf
strip_crlf-ne-out_of_fuel [] h = cc
strip_crlf-ne-out_of_fuel (c ∷ []) h = cc
strip_crlf-ne-out_of_fuel (c ∷ d ∷ []) h = ground arith
strip_crlf-ne-out_of_fuel (c ∷ d ∷ e ∷ s) h = ground (arith, strip_crlf-ne-out_of_fuel (d ∷ e ∷ s))

-- a line takes its newline at least
pub read_line_takes : (r : Bytes) → Leaves (length r - 1) (read_line r)
unfolding read_line
read_line_takes r =
    Leaves-bind (length r - 1) (length r - 1) (read_string r) _ (read_string-Leaves r)
      λ line rest h.
        Leaves-bind_pure (length r - 1) (strip_crlf line) _ (strip_crlf-ne-out_of_fuel line) λ s. h

pub read_line-Leaves : (r : Bytes) → Leaves (length r) (read_line r)
read_line-Leaves r = Leaves-mono (length r - 1) (length r) _ (omega arith) (read_line_takes r)

pub read_int-Leaves : (r : Bytes) → Leaves (length r) (read_int r)
unfolding read_int
read_int-Leaves r =
    Leaves-bind (length r) (length r) (read_line r) _ (read_line-Leaves r) λ s rest h.
      Leaves-bind_pure (length r) (or_bad _ (parse_int s)) _ (or_bad-ne-out_of_fuel _ (parse_int s))
        λ n. h

read_full-Leaves : (n : ℕ) (r : Bytes) → Leaves (length r) (read_full n r)
unfolding read_full
read_full-Leaves zero r = omega arith
read_full-Leaves (suc n) [] = tt
read_full-Leaves (suc n) (c ∷ r) =
    Leaves-bind (length r) (suc (length r)) (read_full n r) _ (read_full-Leaves n r)
      λ buf left h. omega arith

pub make-Leaves {ℓ} :
    {A : Type ℓ} (k size n : ℕ) (m : Result Error (A × Bytes))
    → Leaves k m
    → Leaves k (make size n m)
unfolding make
make-Leaves k size n m h = Leaves-if k (leb (size * n) max_alloc) m panic h tt

pub read_payload-Leaves : (n : ℕ) (r : Bytes) → Leaves (length r) (read_payload n r)
unfolding read_payload
read_payload-Leaves n r = make-Leaves (length r) 1 (n + 2) _ (
    Leaves-bind (length r) (length r) (read_full (n + 2) r) _ (read_full-Leaves (n + 2) r)
      λ buf rest h. Leaves-if (length r) (bytes_eq (drop n buf) (b'\r' ∷ b'\n' ∷ [])) _ _ h tt)
