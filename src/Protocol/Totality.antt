-- ===== src/Protocol/Totality.antt =====
-- `Decode` (internal/protocol/decode.go) ends on every input.
mod Reads
mod Decoders
use Reads.{Leaves, Leaves-mono, Leaves-if}
use Decoders.{decode_inline-Leaves, decode_typed-Leaves}
use native.Mathlib.Numerals.{add-one}
use gedis.Base.{
  ℕ, zero, suc, ◌+◌, ◌-◌, ◌≤◌, ◌<◌, ◌≡◌, ◌≢◌, ◌⊎◌, inl, inr, refl, sym, ap, ◌∙◌, [], ◌∷◌, Bytes, ok,
  err, panic, out_of_fuel, length, arith,
}
use gedis.Protocol.Value.{Value}
use gedis.Protocol.Encode.{FloatText}
use gedis.Protocol.Reader.{Error, Read, read_byte}
use gedis.Protocol.Decode.{is_type_byte, decode_typed, decode_inline, decode_fuel, decode}

module _ (float : FloatText) where
  decode_first :
      (f c : ℕ) (r : Bytes)
      → Leaves (length r) (decode_typed float (decode_fuel float f) c r)
      → Leaves (length r) (decode_fuel float (suc f) (c ∷ r))
  unfolding decode_fuel read_byte
  decode_first f c r h =
      Leaves-if (length r) (is_type_byte c) _ _ h
        (Leaves-mono (length (c ∷ r) - 1) (length r) _ (omega arith) (decode_inline-Leaves (c ∷ r)))

  decode_fuel-Leaves :
      (f : ℕ) (r : Bytes) → length r < f → Leaves (length r - 1) (decode_fuel float f r)
  decode_fuel-Leaves zero r h = elim h [ ]
  decode_fuel-Leaves (suc f) [] h = unfold decode_fuel read_byte in tt
  decode_fuel-Leaves (suc f) (c ∷ r) h =
      Leaves-mono (length r) (length (c ∷ r) - 1) _ (omega arith) (
        decode_first f c r (
          decode_typed-Leaves (decode_fuel float f) f
            (λ s lt.
              Leaves-mono (length s - 1) (length s) _ (omega arith) (decode_fuel-Leaves f s lt))
            float c r (omega arith)))

  decode-Leaves : (r : Bytes) → Leaves (length r - 1) (decode float r)
  unfolding decode
  decode-Leaves r = decode_fuel-Leaves (length r + 1) r (omega arith)

  eof_empty : (v : Value) (rest : Bytes) → decode float [] ≢ ok (v, rest)
  unfolding decode decode_fuel read_byte
  eof_empty v rest e = cc

  outcome :
      (r : Bytes) (m : Read Value)
      → Leaves (length r - 1) m
      → ((v : Value) (rest : Bytes) → m ≡ ok (v, rest) → r ≢ [])
      → ((p : Value × Bytes) × (m ≡ ok p) × (length p.1 < length r))
        ⊎ ((e : Error) × (m ≡ err e))
        ⊎ (m ≡ panic)
  outcome [] (ok (v, rest)) h ne = absurd (ne v rest refl refl)
  outcome (c ∷ r) (ok (v, rest)) h ne = inl ((v, rest), refl, omega arith)
  outcome r (err e) h ne = inr (inl (e, refl))
  outcome r panic h ne = inr (inr refl)
  outcome r out_of_fuel h ne = elim h [ ]

  -- Whatever the bytes, `Decode` returns a value and has taken a byte at least, returns an error, or
  -- panics: the fuel is enough.
  pub decode_outcome :
      (r : Bytes)
      → ((p : Value × Bytes) × (decode float r ≡ ok p) × (length p.1 < length r))
        ⊎ ((e : Error) × (decode float r ≡ err e))
        ⊎ (decode float r ≡ panic)
  decode_outcome r =
      outcome r (decode float r) (decode-Leaves r)
        (λ v rest e empty. eof_empty v rest (ap (decode float) (sym empty) ∙ e))
