-- ===== src/Commands/Store.antt =====
-- The `KV` interface of internal/commands/string.go, the state that a handler works on, and the
-- laws that a store without failures meets.
use gedis.Base.{
  ℕ, ◌≡◌, Bool, Option, none, some, List, ◌∷◌, ◌++◌, Bytes, bytes_eq, codes, true, false, ◌+◌,
  if◌then◌else◌, Result, ok, err, panic, out_of_fuel,
}
use gedis.Base.Text.Decimal.{format_uint}
use gedis.Protocol.Value.{Value, error}
use gedis.Datastruct.Entry.{
  CodecError, truncated_entry, truncated_payload, bad_count, truncated_element, truncated_value,
}

-- A Go `error` of a handler: `storage.ErrNotFound`, or another one with its text.
pub data Failure : Type 0 where
  not_found : Failure
  other : Bytes → Failure

unfoldable pub is_not_found : Failure → Bool
is_not_found not_found = true
is_not_found (other text) = false

-- `err.Error()`, and `errValue` and `errValueStr`, which make a reply of it.
unfoldable pub failure_text : Failure → Bytes
failure_text not_found = codes "storage: key not found"
failure_text (other text) = text

unfoldable pub err_value : Failure → Value
err_value e = error (failure_text e)

-- The texts of the errors of `Decode` and `DecodeList`.
unfoldable pub codec_text : CodecError → Bytes
codec_text (truncated_entry n) =
    codes "datastruct: truncated entry " ++ (format_uint n ++ codes " bytes")
codec_text truncated_payload = codes "datastruct: truncated list payload"
codec_text bad_count = codes "datastruct: bad list count"
codec_text (truncated_element i) = codes "datastruct: truncated list element " ++ format_uint i
codec_text (truncated_value i) = codes "datastruct: truncated hash value " ++ format_uint i

-- `Get`, `Set` and `Delete`, as steps on a state of type S.
pub record Kv (S : Type 0) : Type 0 where
  pub get_raw : Bytes → S → Result Failure Bytes × S
  pub set_raw : Bytes → Bytes → S → Result Failure (Unit {0}) × S
  pub delete_raw : Bytes → S → Result Failure (Unit {0}) × S

-- What `Get` answers for the value that a key has.
unfoldable pub answer : Option Bytes → Result Failure Bytes
answer none = err not_found
answer (some v) = ok v

-- A store that does not fail, whose states show a value for a key: `Get` may change what the view
-- does not show, as the eviction clocks.
pub record KvLaws {S : Type 0} (kv : Kv S) : Type 1 where
  pub IsValid : S → Type 0
  pub look : S → Bytes → Option Bytes
  pub get_law :
      (s : S) (k : Bytes)
      → IsValid s
      → (s' : S) × (kv.get_raw k s ≡ (answer (look s k), s'))
        × IsValid s'
        × ((j : Bytes) → look s' j ≡ look s j)
  pub set_law :
      (s : S) (k v : Bytes)
      → IsValid s
      → (s' : S) × (kv.set_raw k v s ≡ (ok tt, s'))
        × IsValid s'
        × ((j : Bytes) → look s' j ≡ (if bytes_eq j k then some v else look s j))
  pub delete_law :
      (s : S) (k : Bytes)
      → IsValid s
      → (s' : S) × (kv.delete_raw k s ≡ (ok tt, s'))
        × IsValid s'
        × ((j : Bytes) → look s' j ≡ (if bytes_eq j k then none else look s j))

-- A call of `Notify`: the class, the event and the key.
abbrev pub Event : Type 0
Event = Bytes × (Bytes × Bytes)

-- What a handler works on: the store, the calls of `Notify` so far, the last one first, and the
-- number of keys that `IncExpired` counted.
pub record World (S : Type 0) : Type 0 where
  pub store : S
  pub events : List Event
  pub expired : ℕ

-- A handler's own functions: a result, and the state after it.
abbrev pub Run : Type 0 → Type 0 → Type 0
Run S A = World S → Result Failure A × World S

module _ {S : Type 0} where
  abbrev pub step :
      {A B : Type 0} → Result Failure A × World S → (A → Run S B) → Result Failure B × World S
  step (ok a, w) f = f a w
  step (err e, w) f = (err e, w)
  step (panic, w) f = (panic, w)
  step (out_of_fuel, w) f = (out_of_fuel, w)

  infixl 5 ◌>>=◌
  abbrev pub ◌>>=◌ : {A B : Type 0} → Run S A → (A → Run S B) → Run S B
  ◌>>=◌ m f = λ w. step (m w) f

  abbrev pub return : {A : Type 0} → A → Run S A
  return a = λ w. (ok a, w)

  abbrev pub fail : {A : Type 0} → Failure → Run S A
  fail e = λ w. (err e, w)

  -- A call of the store.
  unfoldable pub call : {A : Type 0} → (S → Result Failure A × S) → Run S A
  call f w =
      let (r, s) = f w.store in (r, record { store = s; events = w.events; expired = w.expired })

  -- The state after a call of `Notify`.
  abbrev pub noted : Event → World S → World S
  noted e w = record { store = w.store; events = e ∷ w.events; expired = w.expired }

  unfoldable pub notify : Bytes → Bytes → Bytes → Run S (Unit {0})
  notify class event key w = (ok tt, noted (class, (event, key)) w)

  unfoldable pub inc_expired : Run S (Unit {0})
  inc_expired w = (ok tt, record { store = w.store; events = w.events; expired = w.expired + 1 })

  -- Where the key is missing, `missing`; every other error passes on.
  abbrev pub after_read :
      {A B : Type 0}
      → Result Failure A × World S
      → Run S B
      → (A → Run S B)
      → Result Failure B × World S
  after_read (err not_found, w) missing f = missing w
  after_read (err (other text), w) missing f = (err (other text), w)
  after_read (ok a, w) missing f = f a w
  after_read (panic, w) missing f = (panic, w)
  after_read (out_of_fuel, w) missing f = (out_of_fuel, w)

  abbrev pub unless_missing : {A B : Type 0} → Run S A → Run S B → (A → Run S B) → Run S B
  unless_missing m missing f = λ w. after_read (m w) missing f

  -- A handler's reply to an error: `errValue`.
  abbrev pub as_reply : Result Failure Value × World S → Result Failure Value × World S
  as_reply (err e, w) = (ok (err_value e), w)
  as_reply (ok v, w) = (ok v, w)
  as_reply (panic, w) = (panic, w)
  as_reply (out_of_fuel, w) = (out_of_fuel, w)

  abbrev pub replying : Run S Value → Run S Value
  replying m = λ w. as_reply (m w)
