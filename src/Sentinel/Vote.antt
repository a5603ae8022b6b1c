-- ===== src/Sentinel/Vote.antt =====
-- Voting and the adoption of masters: internal/sentinel/election.go and adopt.go, and the vote
-- count of cmd/gedis/sentinel_auto.go.
use gedis.Base.{
  ℕ, suc, ◌+◌, ◌*◌, ◌/◌, Bool, true, false, not, ◌&&◌, ◌||◌, Option, none, some, List, [], ◌∷◌,
  if◌then◌else◌, ltb, leb, ◌==◌, Bytes, bytes_eq, get,
}
use gedis.Base.Options.{◌>>=◌}
use gedis.Sentinel.Registry.{MasterState, Registry, put_state}

-- A candidate's request for a vote.
pub record Request : Type 0 where
  pub master : Bytes
  pub epoch : ℕ
  pub run_id : Bytes

unfoldable pub has_majority : ℕ → ℕ → Bool
has_majority grants total = ltb (total / 2) grants

unfoldable pub voted_for : Registry → Bytes → Option (Bytes × ℕ)
voted_for r name = do st ← get name r.masters; some (st.voted_run_id, st.current_epoch)

-- What `HandleVote` does to the state of a master that is registered.
unfoldable pub vote : MasterState → ℕ → Bytes → Bool × MasterState
vote st cand_epoch cand_run_id =
    if ltb cand_epoch st.current_epoch
    then (false, st)
    else if ltb st.current_epoch cand_epoch
    then (
      true,
      record st {
        current_epoch = cand_epoch;
        voted_epoch = cand_epoch;
        voted_run_id = cand_run_id;
      },
    )
    else if st.voted_epoch == cand_epoch
        && (not (bytes_eq st.voted_run_id []) && not (bytes_eq st.voted_run_id cand_run_id))
    then (false, st)
    else (true, record st { voted_epoch = cand_epoch; voted_run_id = cand_run_id })

-- `HandleVote`: whether the vote is granted, the epoch afterwards, and the registry.
unfoldable pub handle_vote : Registry → Request → Bool × (ℕ × Registry)
handle_vote r q = elim (get q.master r.masters) [
  | none ↦ (false, (0, r))
  | some st ↦
      let voted = vote st q.epoch q.run_id in
      (voted.0, (voted.1.current_epoch, put_state q.master voted.1 r))
]

-- `AdoptMaster`: whether the current master changes, and the registry.
unfoldable pub adopt_master : Registry → Bytes → Bytes → ℕ → Bytes → Bool × Registry
adopt_master r name addr epoch run_id = elim (get name r.masters) [
  | none ↦ (false, r)
  | some st ↦
      if ltb epoch st.current_epoch
      then (false, r)
      else if epoch == st.current_epoch
          && (not (bytes_eq st.voted_run_id run_id) || bytes_eq addr st.current)
      then (false, r)
      else if bytes_eq addr st.current
      then (false, r)
      else (true, put_state name (record st { current = addr }) r)
]

unfoldable pub observe_master : Registry → Bytes → Bytes → Bool × Registry
observe_master r name addr = elim (get name r.masters) [
  | none ↦ (false, r)
  | some st ↦
      if bytes_eq addr st.current
      then (false, r)
      else (true, put_state name (record st { current = addr }) r)
]

-- The answers a candidate counts: those of peers that name it as their leader.
unfoldable pub count_grants : Bytes → List (Option (Bool × Bytes)) → ℕ
count_grants run_id [] = 0
count_grants run_id (none ∷ replies) = count_grants run_id replies
count_grants run_id (some reply ∷ replies) =
    if bytes_eq reply.1 run_id
    then suc (count_grants run_id replies)
    else count_grants run_id replies

unfoldable pub count_downs : List (Option (Bool × Bytes)) → ℕ
count_downs [] = 0
count_downs (none ∷ replies) = count_downs replies
count_downs (some reply ∷ replies) =
    if reply.0 then suc (count_downs replies) else count_downs replies

-- `voteRound`, with the peers' answers (`none` where the query failed): the peers that report
-- the master down, the votes for this sentinel, and the registry.
unfoldable pub vote_round : Registry → Request → List (Option (Bool × Bytes)) → ℕ × (ℕ × Registry)
vote_round r q replies =
    let own = handle_vote r q in
    (count_downs replies, ((if own.0 then 1 else 0) + count_grants q.run_id replies, own.1.1))

-- The guard of `autoStep` on the votes of the second round.
unfoldable pub is_elected : ℕ → ℕ → Bool
is_elected grants peers = not (leb (grants * 2) (1 + peers))
