-- ===== src/Commands/Lookup.antt =====
-- `lookupRaw` and `lookupKey` of internal/commands/keyspace.go: a user's key under the prefixes of
-- all types, with its passive expiry.
pub mod Laws
pub mod Expiry
use gedis.Base.{
  zero, Bool, true, false, not, ◌&&◌, Option, none, some, List, [], ◌∷◌, ◌++◌, Bytes, codes, ◌==◌,
  bytes_eq, if◌then◌else◌, Result, ok, err, panic, out_of_fuel,
}
use gedis.Base.Int.{ℤ, pos, negsuc, ltb_ℤ}
use gedis.Datastruct.Entry.{Entry, CodecError, decode, hash_exp_key}
use gedis.Commands.Store.{
  Failure, not_found, other, is_not_found, codec_text, Kv, World, Run, step, ◌>>=◌, return, fail,
  call, notify, inc_expired,
}

unfoldable pub type_prefixes : List Bytes
type_prefixes =
    codes "s:"
    ∷ codes "h:"
    ∷ codes "l:"
    ∷ codes "st:"
    ∷ codes "z:"
    ∷ codes "hll:"
    ∷ codes "x:"
    ∷ codes "vs:"
    ∷ []

-- `e.Expiry != 0 && now >= e.Expiry`
unfoldable pub is_expired : ℤ → ℤ → Bool
is_expired now (pos zero) = false
is_expired now expiry = not (ltb_ℤ now expiry)

-- An error of the codec as a handler's.
unfoldable pub of_codec {ℓ} : {A : Type ℓ} → Result CodecError A → Result Failure A
of_codec (ok a) = ok a
of_codec (err e) = err (other (codec_text e))
of_codec panic = panic
of_codec out_of_fuel = out_of_fuel

module _ {S : Type 0} (kv : Kv S) (now : ℤ) where
  -- A call whose error the source drops.
  abbrev pub without_error :
      Result Failure (Unit {0}) × World S → Result Failure (Unit {0}) × World S
  without_error (err e, w) = (ok tt, w)
  without_error r = r

  unfoldable pub ignored : Run S (Unit {0}) → Run S (Unit {0})
  ignored m w = without_error (m w)

  unfoldable pub expire_now : Bytes → Bytes → Run S (Bytes × Entry)
  expire_now raw key = do
    u ← ignored (call (kv.delete_raw raw))
    u ← ignored (call (kv.delete_raw (hash_exp_key key)))
    u ← inc_expired
    u ← notify (codes "x") (codes "expired") key
    fail not_found

  -- What becomes of the value that the first prefix has.
  unfoldable pub open_entry : Bytes → Bytes → Bytes → Run S (Bytes × Entry)
  open_entry raw key val = elim (of_codec (decode val)) [
    | ok e ↦ if is_expired now e.expiry then expire_now raw key else return (raw, e)
    | err e ↦ fail e
    | panic ↦ λ w. (panic, w)
    | out_of_fuel ↦ λ w. (out_of_fuel, w)
  ]

  -- After `Get`: the prefixes that are left to look under come last.
  unfoldable pub after_get :
      Bytes
      → Bytes
      → Run S (Bytes × Entry)
      → Result Failure Bytes × World S
      → Result Failure (Bytes × Entry) × World S
  after_get raw key rest (ok val, w) = open_entry raw key val w
  after_get raw key rest (err not_found, w) = rest w
  after_get raw key rest (err (other text), w) = (err (other text), w)
  after_get raw key rest (panic, w) = (panic, w)
  after_get raw key rest (out_of_fuel, w) = (out_of_fuel, w)

  unfoldable pub lookup_in : Bytes → List Bytes → Run S (Bytes × Entry)
  lookup_in key [] = fail not_found
  lookup_in key (p ∷ ps) =
      λ w. after_get (p ++ key) key (lookup_in key ps) (call (kv.get_raw (p ++ key)) w)

  unfoldable pub lookup_raw : Bytes → Run S (Bytes × Entry)
  lookup_raw key = lookup_in key type_prefixes

  unfoldable pub lookup_key : Bytes → Run S Entry
  lookup_key key = do (raw, e) ← lookup_raw key; return e
