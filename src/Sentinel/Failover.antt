-- ===== src/Sentinel/Failover.antt =====
-- Switching the master: `Failover` of internal/sentinel/registry.go and internal/sentinel/auto.go.
use gedis.Base.{
  ℕ, ◌-◌, Bool, false, not, ◌||◌, Option, none, some, List, [], ◌∷◌, if◌then◌else◌, ltb, ◌==◌,
  Bytes, bytes_eq, codes, get, Result, ok, err, panic, out_of_fuel,
}
use gedis.Base.Int.{ℤ}
use gedis.Sentinel.Address
use gedis.Sentinel.Registry.{
  MasterState, Registry, SentinelError, unknown_master, no_healthy_slave, promote_failed, put_state,
  joined_master, is_down,
}
use gedis.Sentinel.Probe.{is_objectively_down}
use gedis.Sentinel.Select.{SlaveInfo, select_slave}
use gedis.Sentinel.Vote.{observe_master}

-- The `REPLICAOF` commands a call sends, in order: the node and the arguments.
abbrev pub Sent : Type 0
Sent = List (Bytes × List Bytes)

-- What a call reaches outside the process: whether a node accepts a command within two attempts,
-- the role a node reports, and the clock.
pub record Outside : Type 0 where
  pub accepts : Bytes → List Bytes → Bool
  pub role : Bytes → Option Bytes
  pub now : ℕ

-- The arguments that promote a node.
abbrev pub no_one : List Bytes
no_one = codes "NO" ∷ codes "ONE" ∷ []

-- The arguments that make a node a slave of `target`.
unfoldable pub demotion : Bytes → List Bytes
demotion target = elim (Address.split_host_port target) [
  | none ↦ [] ∷ [] ∷ []
  | some hp ↦ hp.0 ∷ hp.1 ∷ []
]

unfoldable pub switched : Outside → Bytes → Bytes → MasterState → Registry → Registry
switched o name target st r =
    put_state name (record st { current = target; last_failover = some o.now }) r

-- `failoverTo`: the error if any, the commands sent, and the registry. Whether the old master is
-- demoted or the demotion fails, the cache is switched.
unfoldable pub failover_to :
    Outside → Registry → Bytes → Bytes → Option SentinelError × (Sent × Registry)
failover_to o r name target = elim (get name r.masters) [
  | none ↦ (some unknown_master, ([], r))
  | some st ↦
      if not (o.accepts target no_one)
      then (some (promote_failed target), ((target, no_one) ∷ [], r))
      else if is_down r st.current
      then (none, ((target, no_one) ∷ [], switched o name target st r))
      else (
        none,
        ((target, no_one) ∷ (st.current, demotion target) ∷ [], switched o name target st r),
      )
]

-- The first slave that is not marked down; "" where there is none.
unfoldable pub first_up : (Bytes → Bool) → List Bytes → Bytes
first_up down [] = []
first_up down (s ∷ slaves) = let rest = first_up down slaves in if down s then rest else s

unfoldable pub is_current : Registry → Bytes → Bytes → Bool
is_current r name target = elim (joined_master r name) [
  | none ↦ false
  | some addr ↦ bytes_eq addr target
]

-- `Failover`.
unfoldable pub failover : Outside → Registry → Bytes → Option SentinelError × (Sent × Registry)
failover o r name = elim (get name r.masters) [
  | none ↦ (some unknown_master, ([], r))
  | some st ↦
      let target = first_up st.down st.spec.slaves in
      if bytes_eq target []
      then (some no_healthy_slave, ([], r))
      else if is_current r name target
      then (none, ([], r))
      else failover_to o r name target
]

-- `InCooldown`: a timeout that is not positive is 0.
unfoldable pub in_cooldown : Outside → Registry → Bytes → ℕ → Bool
in_cooldown o r name timeout = if timeout == 0 then false else elim (get name r.masters) [
  | none ↦ false
  | some st ↦ elim st.last_failover [ none ↦ false | some last ↦ ltb (o.now - last) timeout ]
]

-- The end of `AutoTick`, for the chosen slave.
unfoldable pub switch_to :
    Outside → Registry → Bytes → Bytes → Option SentinelError × (Sent × Registry)
switch_to o r name target =
    if is_current r name target
    then (none, ([], r))
    else if elim (o.role target) [ none ↦ false | some role ↦ bytes_eq role (codes "master") ]
    then (none, ([], (observe_master r name target).1))
    else failover_to o r name target

-- What `AutoTick` does with the result of `SelectSlave`, which never panics.
unfoldable pub act_on :
    Outside
    → Registry
    → Bytes
    → Result SentinelError Bytes
    → Option SentinelError × (Sent × Registry)
act_on o r name (ok target) = switch_to o r name target
act_on o r name (err e) = (some e, ([], r))
act_on o r name panic = (none, ([], r))
act_on o r name out_of_fuel = (none, ([], r))

-- `AutoTick`, without the event that it publishes after a switch.
unfoldable pub auto_tick :
    Outside
    → Registry
    → Bytes
    → Bool
    → ℤ
    → List SlaveInfo
    → ℕ
    → Option SentinelError × (Sent × Registry)
auto_tick o r name is_leader peer_downs infos timeout =
    if not is_leader
      || (not (is_objectively_down r name peer_downs) || in_cooldown o r name timeout)
    then (none, ([], r))
    else act_on o r name (select_slave r name infos)
