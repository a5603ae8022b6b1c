-- ===== src/Sentinel/Registry.antt =====
-- The registry of monitored masters: internal/sentinel/spec.go and registry.go, without the network.
use gedis.Base.{
  ℕ, Bool, true, false, ◌||◌, Option, none, some, List, [], ◌∷◌, map, if◌then◌else◌, Bytes,
  bytes_eq, Table, get, put, map_values, any_value, set,
}
use gedis.Base.Int.{ℤ, pos}
use gedis.Base.Options.{◌>>=◌}
use gedis.Sentinel.Address

-- `NodeSpec`.
pub record NodeSpec : Type 0 where
  pub name : Bytes
  pub master_addr : Bytes
  pub slaves : List Bytes
  pub quorum : ℤ

-- `masterState`. A zero `time.Time` is `none`; `failMu` has no part in a single call.
pub record MasterState : Type 0 where
  pub spec : NodeSpec
  pub current : Bytes
  pub down : Bytes → Bool
  pub sdown_count : Bytes → ℤ
  pub current_epoch : ℕ
  pub voted_epoch : ℕ
  pub voted_run_id : Bytes
  pub last_failover : Option ℕ

-- `Registry`, with the map of masters in the order a loop visits it.
pub record Registry : Type 0 where
  pub masters : Table MasterState
  pub down_after : ℤ

-- `ErrUnknownMaster`, `ErrNoHealthySlave` and the error of a promotion that failed.
pub data SentinelError : Type 0 where
  unknown_master : SentinelError
  no_healthy_slave : SentinelError
  promote_failed : Bytes → SentinelError

unfoldable pub new_state : NodeSpec → MasterState
new_state s = record {
  spec = s;
  current = s.master_addr;
  down = (λ a. false);
  sdown_count = (λ a. pos 0);
  current_epoch = 0;
  voted_epoch = 0;
  voted_run_id = [];
  last_failover = none;
}

unfoldable pub masters_of : List NodeSpec → Table MasterState → Table MasterState
masters_of [] t = t
masters_of (s ∷ ss) t = masters_of ss (put s.name (new_state s) t)

unfoldable pub new_registry : List NodeSpec → ℤ → Registry
new_registry specs down_after = record { masters = masters_of specs []; down_after = down_after }

-- What a method leaves that changes the state of one master.
unfoldable pub put_state : Bytes → MasterState → Registry → Registry
put_state name st r = record r { masters = put name st r.masters }

unfoldable pub contains_addr : List Bytes → Bytes → Bool
contains_addr [] addr = false
contains_addr (a ∷ list) addr =
    let rest = contains_addr list addr in if bytes_eq a addr then true else rest

-- `GetMasterAddr`: the host and the port of the current master.
unfoldable pub get_master_addr : Registry → Bytes → Option (Bytes × ℤ)
get_master_addr r name = do
  st ← get name r.masters
  hp ← Address.split_host_port st.current
  port ← Address.atoi hp.1
  some (hp.0, port)

-- The address that `net.JoinHostPort` makes of `GetMasterAddr` again.
unfoldable pub joined_master : Registry → Bytes → Option Bytes
joined_master r name = do
  hp ← get_master_addr r name
  some (Address.join_host_port hp.0 (Address.itoa hp.1))

unfoldable pub slaves_of : Registry → Bytes → Option (List Bytes)
slaves_of r name = do st ← get name r.masters; some st.spec.slaves

unfoldable pub master_addr_of : Registry → Bytes → Option Bytes
master_addr_of r name = do st ← get name r.masters; some st.spec.master_addr

unfoldable pub names : Registry → List Bytes
names r = map (λ p. p.0) r.masters

unfoldable pub is_down : Registry → Bytes → Bool
is_down r addr = any_value (λ st. st.down addr) r.masters

-- Whether a master's specification names the address.
unfoldable pub watches : MasterState → Bytes → Bool
watches st addr = bytes_eq addr st.spec.master_addr || contains_addr st.spec.slaves addr

unfoldable pub set_down_state : Bytes → Bool → MasterState → MasterState
set_down_state addr down st =
    if watches st addr then record st { down = set st.down addr down } else st

unfoldable pub set_down : Registry → Bytes → Bool → Registry
set_down r addr down = record r { masters = map_values (set_down_state addr down) r.masters }
