-- ===== src/Sentinel/Answer.antt =====
-- A peer's answer to a request for its vote: `isMasterDownByAddr` of internal/commands/sentinel.go
-- and `QueryPeer` of internal/sentinel/peer.go, and `FindPromotedMaster` of adopt.go.
pub mod Counted
use gedis.Base.{
  ℕ, Bool, true, false, ◌&&◌, Option, none, some, List, [], ◌∷◌, if◌then◌else◌, Bytes, bytes_eq,
  codes,
}
use gedis.Base.Options.{◌>>=◌}
use gedis.Base.Int.{ℤ}
use gedis.Base.Text.Decimal.{parse_uint, format_uint}
use gedis.Protocol.Value.{
  Value, bulk_string, bulk_error, verbatim, array, error, slice, cons, nil, bulk_of, array_of,
}
use gedis.Sentinel.Address
use gedis.Sentinel.Registry.{Registry, names, get_master_addr, joined_master}
use gedis.Sentinel.Probe.{is_subjectively_down}
use gedis.Sentinel.Vote.{Request, voted_for, handle_vote}

-- A nil `Bulk` is the empty string.
unfoldable pub bulk_bytes : Option Bytes → Bytes
bulk_bytes none = []
bulk_bytes (some b) = b

unfoldable pub arg_string : Value → Option Bytes
arg_string (bulk_string b) = some (bulk_bytes b)
arg_string _ = none

unfoldable pub is_at : Registry → Bytes → Bytes → Bytes → Bool
is_at r ip port name = elim (get_master_addr r name) [
  | none ↦ false
  | some hp ↦ bytes_eq hp.0 ip && bytes_eq (Address.itoa hp.1) port
]

-- The first master with the address; "" where there is none.
unfoldable pub find_master : Registry → Bytes → Bytes → List Bytes → Bytes
find_master r ip port [] = []
find_master r ip port (n ∷ ns) =
    let rest = find_master r ip port ns in if is_at r ip port n then n else rest

unfoldable pub named_leader : Option (Bytes × ℕ) → Bytes × ℕ
named_leader none = (codes "*", 0)
named_leader (some voted) = if bytes_eq voted.0 [] then (codes "*", 0) else voted

-- The run id and the epoch that the answer names.
unfoldable pub leader_answer : Bool × (ℕ × Registry) → Bytes → Bytes → Bytes × ℕ
leader_answer voted name run_id =
    if voted.0 then (run_id, voted.1.0) else named_leader (voted_for voted.1.1 name)

unfoldable pub vote_reply : Bool → Bytes × ℕ → Value
vote_reply down leader = array_of (
    cons (bulk_of (if down then codes "1" else codes "0"))
      (cons (bulk_of leader.0) (cons (bulk_of (format_uint leader.1)) nil)))

-- The handler, from the point where the master is found.
unfoldable pub answer_vote : Registry → Bytes → Request → Value × Registry
answer_vote r addr q =
    let voted = handle_vote r q in
    (vote_reply (is_subjectively_down r addr) (leader_answer voted q.master q.run_id), voted.1.1)

unfoldable pub answer_for : Registry → Bytes → Bytes → ℕ → Bytes → Value × Registry
answer_for r ip port epoch run_id =
    let name = find_master r ip port (names r) in
    if bytes_eq name []
    then (error (codes "ERR No such master with that address"), r)
    else answer_vote r (Address.join_host_port ip port)
        (record { master = name; epoch = epoch; run_id = run_id })

unfoldable pub checked_args : Registry → Bytes → Bytes → Bytes → Value → Value × Registry
checked_args r ip port epoch_text run_value = elim (parse_uint epoch_text) [
  | none ↦ (error (codes "ERR invalid epoch"), r)
  | some epoch ↦ elim (arg_string run_value) [
    | none ↦ (error (codes "ERR syntax error"), r)
    | some run_id ↦ answer_for r ip port epoch run_id
  ]
]

unfoldable pub three_args : Value → Value → Value → Option (Bytes × (Bytes × Bytes))
three_args ip port epoch = do
  i ← arg_string ip
  p ← arg_string port
  e ← arg_string epoch
  some (i, (p, e))

-- `isMasterDownByAddr`, on the four arguments that its caller has counted.
unfoldable pub is_master_down_by_addr : Registry → Value → Value → Value → Value → Value × Registry
is_master_down_by_addr r ip port epoch run_id = elim (three_args ip port epoch) [
  | none ↦ (error (codes "ERR syntax error"), r)
  | some t ↦ checked_args r t.0 t.1.0 t.1.1 run_id
]

-- The `Bulk` of a value; the kinds that have none read as the empty string.
unfoldable pub bulk_field : Value → Bytes
bulk_field (bulk_string b) = bulk_bytes b
bulk_field (bulk_error b) = bulk_bytes b
bulk_field (verbatim fmt bulk) = bulk
bulk_field _ = []

-- What `QueryPeer` reads of the reply: the peer's mark, the leader and the epoch.
unfoldable pub query_reply : Value → Option (Bool × (Bytes × ℕ))
query_reply (array (slice (cons a (cons b (cons c nil))))) = do
  e ← parse_uint (bulk_field c)
  some (bytes_eq (bulk_field a) (codes "1"), (bulk_field b, e))
query_reply _ = none

-- `FindPromotedMaster`, for the roles that the nodes report.
unfoldable pub first_promoted : (Bytes → Option Bytes) → Bytes → List Bytes → Option Bytes
first_promoted role current [] = none
first_promoted role current (s ∷ slaves) =
    let rest = first_promoted role current slaves in
    if bytes_eq s current
    then rest
    else if elim (role s) [ none ↦ false | some name ↦ bytes_eq name (codes "master") ]
    then some s
    else rest

unfoldable pub find_promoted_master :
    (Bytes → Option Bytes) → Registry → Bytes → List Bytes → Option Bytes
find_promoted_master role r name slaves = do
  current ← joined_master r name
  first_promoted role current slaves
