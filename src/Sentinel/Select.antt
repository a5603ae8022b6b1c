-- ===== src/Sentinel/Select.antt =====
-- The choice of a slave to promote: internal/sentinel/select.go.
use gedis.Base.{
  Bool, not, ◌&&◌, ◌||◌, none, some, List, [], ◌∷◌, map, if◌then◌else◌, Bytes, bytes_eq, bytes_lt,
  codes, Table, get, put, Result, ok, err,
}
use gedis.Base.Int.{ℤ, pos, ltb_ℤ}
use gedis.Sentinel.Registry.{Registry, SentinelError, unknown_master, no_healthy_slave, is_down}

pub record SlaveInfo : Type 0 where
  pub addr : Bytes
  pub priority : ℤ
  pub offset : ℤ
  pub run_id : Bytes
  pub state : Bytes

-- The order of `SortSlaves`: priority up, offset down, run id up, address up.
unfoldable pub less : SlaveInfo → SlaveInfo → Bool
less a b =
    if ltb_ℤ a.priority b.priority || ltb_ℤ b.priority a.priority
    then ltb_ℤ a.priority b.priority
    else if ltb_ℤ a.offset b.offset || ltb_ℤ b.offset a.offset
    then ltb_ℤ b.offset a.offset
    else if not (bytes_eq a.run_id b.run_id)
    then bytes_lt a.run_id b.run_id
    else bytes_lt a.addr b.addr

-- A slave without an entry in the master's INFO.
unfoldable pub default_info : Bytes → SlaveInfo
default_info a = record { addr = a; priority = pos 100; offset = pos 0; run_id = []; state = [] }

unfoldable pub index_infos : List SlaveInfo → Table SlaveInfo → Table SlaveInfo
index_infos [] by_addr = by_addr
index_infos (i ∷ infos) by_addr = index_infos infos (put i.addr i by_addr)

unfoldable pub candidate : Table SlaveInfo → Bytes → SlaveInfo
candidate by_addr a = elim (get a by_addr) [ none ↦ default_info a | some i ↦ i ]

-- Whether the loop of `SelectSlave` skips a candidate.
unfoldable pub skipped : Registry → SlaveInfo → Bool
skipped r c =
    is_down r c.addr || (not (bytes_eq c.state []) && not (bytes_eq c.state (codes "online")))

unfoldable pub first_usable : Registry → List SlaveInfo → Result SentinelError Bytes
first_usable r [] = err no_healthy_slave
first_usable r (c ∷ cs) = let rest = first_usable r cs in if skipped r c then rest else ok c.addr

-- `SortSlaves`. Two candidates that `less` does not order are equal but for their state, so any
-- sort gives this order of those that `SelectSlave` makes.
unfoldable pub insert_slave : SlaveInfo → List SlaveInfo → List SlaveInfo
insert_slave i [] = i ∷ []
insert_slave i (j ∷ js) = let rest = insert_slave i js in if less j i then j ∷ rest else i ∷ j ∷ js

unfoldable pub sort_slaves : List SlaveInfo → List SlaveInfo
sort_slaves [] = []
sort_slaves (i ∷ is) = insert_slave i (sort_slaves is)

-- The candidates that `SelectSlave` sorts.
unfoldable pub candidates : List Bytes → List SlaveInfo → List SlaveInfo
candidates slaves infos = map (candidate (index_infos infos [])) slaves

-- `SelectSlave`.
unfoldable pub select_slave : Registry → Bytes → List SlaveInfo → Result SentinelError Bytes
select_slave r name infos = elim (get name r.masters) [
  | none ↦ err unknown_master
  | some st ↦ first_usable r (sort_slaves (candidates st.spec.slaves infos))
]
