-- ===== src/Storage/Tests.antt =====
-- Concrete runs of the store of internal/storage over a database that is a function from keys, and
-- its theorems at concrete inputs.
use gedis.Base.{
  ℕ, ◌≡◌, refl, Bool, true, false, Option, some, none, List, [], ◌∷◌, Bytes, codes, length, Result,
  ok, err, bytes_eq, if◌then◌else◌, inl, inr, Table, In, keys, get, put, remove, suc, map, arith,
}
use gedis.Base.Int.{ℤ, pos, negsuc, add64, sub64, neg64}
use gedis.Storage.{
  Engine, Tracked, Store, expiry_of, size_of, track_set, track_delete, next_freq, delta_for, called,
}
use gedis.Storage.Policy.{victim, is_volatile, is_random, is_lfu, candidates, choose, best}
use gedis.Storage.Eviction.{
  Op, Outside, policy_of, evict_key, delete_internal, evict_one, evict_loop, evict_for_delta, write,
  set_key,
}
use gedis.Storage.Eviction.Victims.{Pair, IsCandidate, victim-IsCandidate}
use gedis.Storage.Eviction.Bounds.{IsVisit}
use gedis.Storage.Eviction.Ends.{IsFair, Ends, evict_for_delta-Ends}
use gedis.Storage.Eviction.Room.{WithinIfOk, set_key-WithinIfOk}
use gedis.Protocol.Value.{integer, bulk_of}
use gedis.Commands.Store.{World}
use gedis.Commands.Lookup.{type_prefixes}
use gedis.Commands.Lists.Ends.{push}
use gedis.Commands.Lists.Stored.{Holds, Leaves}
use gedis.Commands.Lists.PushLaws.{push_event, push_held}
use gedis.Storage.Unlimited.{EngineLaws, storage, storage_laws}

abbrev Memory : Type 0
Memory = Bytes → Option Bytes

abbrev memory : Engine Memory
memory = record {
  db_get = λ k d. inr (d k);
  db_set = λ k v d. inr (λ j. if bytes_eq j k then some v else d j);
  db_delete = λ k d. inr (λ j. if bytes_eq j k then none else d j);
}

abbrev morning : Outside
morning = record { now = 9; order = λ t. t; draw = λ t n. true }

key-In : (t : Table Tracked) (p : Pair) → In p t → In p.0 (keys t)
unfolding keys
key-In [] p m = elim m [ ]
key-In (q ∷ t) p (inl e) = rw e (inl refl)
key-In (q ∷ t) p (inr m) = inr (key-In t p m)

morning-IsVisit : IsVisit morning
morning-IsVisit t p m = key-In t p m

abbrev tracked : ℕ → ℕ → Bool → Tracked
tracked at size expires = record {
  at = at;
  size = size;
  expires = expires;
  exp_at = pos 50;
  freq = 1;
}

-- Two keys in the whole of the limit, b used longer ago.
abbrev full : Store Memory
full = record {
  db = λ j.
      if bytes_eq j (codes "a")
      then some (codes "1111")
      else if bytes_eq j (codes "b")
      then some (codes "2222")
      else none;
  lru = (codes "a", tracked 5 5 true) ∷ (codes "b", tracked 3 5 false) ∷ [];
  used = pos 10;
  max = pos 10;
  policy = [];
  evicted = 0;
  calls = [];
}

abbrev outcome : Op Memory (Unit {0}) → ℤ × (List Bytes × Bool)
unfolding keys
outcome (ok u, s) = (s.used, (keys s.lru, true))
outcome (_, s) = (s.used, (keys s.lru, false))

-- A new key takes the place of the one that was used longest ago.
set_evicts :
    outcome (set_key memory morning (codes "c") (codes "33") full)
    ≡ (pos 8, ((codes "a" ∷ codes "c" ∷ []), true))
unfolding outcome keys set_key delta_for evict_for_delta evict_loop evict_one victim policy_of
    is_random is_lfu is_volatile candidates choose best evict_key delete_internal track_delete
    called write track_set expiry_of size_of add64 neg64 sub64 gedis.Base.Int.◌-ℤ◌
    gedis.Base.Int.◌+ℤ◌ gedis.Datastruct.Entry.decode get put remove next_freq
set_evicts = refl

-- A longer value for the key that is evicted to make room for it: the memory in use is over the limit.
set_over :
    outcome (set_key memory morning (codes "b") (codes "22222") full)
    ≡ (pos 11, ((codes "a" ∷ codes "b" ∷ []), true))
unfolding outcome keys set_key delta_for evict_for_delta evict_loop evict_one victim policy_of
    is_random is_lfu is_volatile candidates choose best evict_key delete_internal track_delete
    called write track_set expiry_of size_of add64 neg64 sub64 gedis.Base.Int.◌-ℤ◌
    gedis.Base.Int.◌+ℤ◌ gedis.Datastruct.Entry.decode get put remove next_freq
set_over = refl

set_key-WithinIfOk_example : WithinIfOk full (set_key memory morning (codes "c") (codes "33") full)
unfolding get
set_key-WithinIfOk_example =
    set_key-WithinIfOk memory morning morning-IsVisit (codes "c") (codes "33") full refl refl

morning-IsFair : IsFair morning
morning-IsFair = ((λ t p. ((λ m. m), λ m. m)), λ t. refl)

evict_for_delta-Ends_example :
    Ends memory (pos 4) full (evict_for_delta memory morning (pos 4) full)
evict_for_delta-Ends_example = evict_for_delta-Ends memory morning morning-IsFair (pos 4) full

victim-IsCandidate_example :
    IsCandidate (is_volatile (codes "volatile-lru")) full.lru (codes "a", tracked 5 5 true)
unfolding victim is_random is_lfu is_volatile candidates choose best
victim-IsCandidate_example =
    victim-IsCandidate (morning.draw full.lru) (codes "volatile-lru") full.lru
      (codes "a", tracked 5 5 true) refl

abbrev memory_laws : EngineLaws memory
memory_laws = record {
  look = λ d. d;
  get_law = λ d k. refl;
  set_law = λ d k v. ((λ j. if bytes_eq j k then some v else d j), refl, λ j. refl);
  delete_law = λ d k. ((λ j. if bytes_eq j k then none else d j), refl, λ j. refl);
}

-- Nothing stored, and no limit.
abbrev empty : World (Store Memory)
empty = record {
  store = record {
    db = λ j. none;
    lru = [];
    used = pos 0;
    max = pos 0;
    policy = [];
    evicted = 0;
    calls = [];
  };
  events = [];
  expired = 0;
}

empty-Holds : Holds (storage_laws memory morning memory_laws) (pos 7) empty (codes "k") none
unfolding type_prefixes storage_laws
empty-Holds = (refl, (refl, (refl, (refl, (refl, (refl, (refl, (refl, (refl, tt)))))))), tt)

-- LPUSH through the handler, the encoding and the store.
push_stored :
    (w' : World (Store Memory)) × (push
        (storage memory morning)
        (pos 7)
        true
        (bulk_of (codes "k") ∷ map bulk_of (codes "x" ∷ codes "y" ∷ []))
        empty
      ≡ (ok (integer (pos 2)), w'))
    × Leaves
        (storage_laws memory morning memory_laws)
        (pos 7)
        empty
        (codes "k")
        (some (codes "y" ∷ codes "x" ∷ [], pos 0))
        (push_event true (codes "k") ∷ [])
        w'
unfolding gedis.Commands.Lookup.is_expired storage_laws
push_stored =
    push_held (storage_laws memory morning memory_laws) (pos 7) true (codes "k") (codes "x")
      (codes "y" ∷ []) none empty empty-Holds
      ((omega arith, (omega arith, (omega arith, tt))), (omega arith, omega arith), refl)
