-- ===== src/Sentinel/Probe.antt =====
-- Subjective and objective down: internal/sentinel/sdown.go and odown.go.
use gedis.Base.{
  Bool, true, false, not, none, some, if◌then◌else◌, Bytes, get, map_values, any_value, set,
}
use gedis.Base.Int.{ℤ, pos, ltb_ℤ, add64}
use gedis.Sentinel.Registry.{MasterState, Registry, watches}

-- Whether a count has reached the threshold of one failure.
unfoldable pub reached : ℤ → Bool
reached n = not (ltb_ℤ n (pos 1))

unfoldable pub record_failure : Bytes → MasterState → MasterState
unfolding reached
record_failure addr st =
    let count = add64 (st.sdown_count addr) (pos 1) in
    record st {
      sdown_count = set st.sdown_count addr count;
      down = (if reached count then set st.down addr true else st.down);
    }

unfoldable pub record_probe_state : Bytes → Bool → MasterState → MasterState
record_probe_state addr ok st =
    if watches st addr
    then (if ok
        then record st {
          sdown_count = set st.sdown_count addr (pos 0);
          down = set st.down addr false;
        }
        else record_failure addr st)
    else st

unfoldable pub record_probe : Registry → Bytes → Bool → Registry
record_probe r addr ok = record r { masters = map_values (record_probe_state addr ok) r.masters }

unfoldable pub is_subjectively_down : Registry → Bytes → Bool
is_subjectively_down r addr = any_value (λ st. reached (st.sdown_count addr)) r.masters

unfoldable pub quorum_of : MasterState → ℤ
quorum_of st = if ltb_ℤ (pos 0) st.spec.quorum then st.spec.quorum else pos 1

unfoldable pub quorum : Registry → Bytes → ℤ
quorum r name = elim (get name r.masters) [ none ↦ pos 1 | some st ↦ quorum_of st ]

-- `IsObjectivelyDown`: the peers' votes and the sentinel's own reach the quorum.
unfoldable pub is_objectively_down : Registry → Bytes → ℤ → Bool
is_objectively_down r name peer_downs = elim (get name r.masters) [
  | none ↦ false
  | some st ↦
      let votes =
        if reached (st.sdown_count st.current) then add64 peer_downs (pos 1) else peer_downs in
      not (ltb_ℤ votes (quorum_of st))
]
