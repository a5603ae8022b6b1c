-- ===== src/Sentinel/Tests.antt =====
-- Concrete runs of internal/sentinel, and its theorems at concrete inputs.
use gedis.Base.{
  ℕ, ◌&&◌, any_value, map_values, ◌≡◌, ◌≢◌, refl, true, false, Option, none, some, List, [], ◌∷◌,
  Bytes, codes, get, put, ok, arith,
}
use gedis.Base.Int.{pos, add64, ◌+ℤ◌}
use gedis.Base.Text.Decimal.{parse_int, parse_digits, parse_uint, format_int, format_uint}
use gedis.Sentinel.Address
use gedis.Sentinel.Registry.{
  NodeSpec, Registry, new_registry, masters_of, new_state, put_state, SentinelError, is_down,
  watches, contains_addr, get_master_addr, joined_master,
}
use gedis.Sentinel.Vote.{Request, has_majority, handle_vote, vote, is_elected}
use gedis.Sentinel.Election.{
  granted, vote_safety, votes_for, leader_unique, is_elected-has_majority,
}
use gedis.Sentinel.Probe.{
  reached, record_failure, record_probe_state, record_probe, is_subjectively_down,
  is_objectively_down, quorum_of,
}
use gedis.Sentinel.Select.{
  SlaveInfo, select_slave, candidates, candidate, index_infos, default_info, sort_slaves,
  insert_slave, less, first_usable, skipped,
}
use gedis.Sentinel.Failover.{
  Sent, Outside, no_one, failover_to, is_current, in_cooldown, switch_to, act_on, auto_tick,
}
use gedis.Sentinel.Answer.{
  answer_vote, query_reply, vote_reply, leader_answer, bulk_field, bulk_bytes,
}
use gedis.Sentinel.Answer.Counted.{HoldsVote, counted_vote}
use gedis.Sentinel.Down.{Probe, record_all, last_failed, watched, down_marks}
use gedis.Sentinel.Promotion.{Promoted, select_slave-Promoted}
use gedis.Sentinel.Switching.{auto_tick-once}

abbrev main_spec : NodeSpec
main_spec = record {
  name = codes "main";
  master_addr = codes "10.0.0.1:6379";
  slaves = codes "10.0.0.2:6379" ∷ codes "10.0.0.3:6379" ∷ [];
  quorum = pos 2;
}

abbrev main_registry : Registry
unfolding new_registry masters_of new_state put
main_registry = new_registry (main_spec ∷ []) (pos 1000)

abbrev ask : ℕ → Bytes → Request
ask e a = record { master = codes "main"; epoch = e; run_id = a }

-- The second candidate of epoch 1 is refused.
abbrev asked : List Request
asked = ask 1 (codes "a") ∷ ask 1 (codes "b") ∷ ask 1 (codes "a") ∷ []

second_candidate : granted main_registry asked (codes "main") 1 (codes "b") ≡ false
unfolding granted handle_vote vote put_state get put new_registry masters_of new_state
second_candidate = refl

split_plain :
    Address.split_host_port (codes "10.0.0.1:6379") ≡ some (codes "10.0.0.1", codes "6379")
unfolding Address.split_host_port Address.last_index_byte Address.index_byte Address.has_byte
    Address.split_checked
split_plain = refl

split_ipv6 : Address.split_host_port (codes "[::1]:80") ≡ some (codes "::1", codes "80")
unfolding Address.split_host_port Address.last_index_byte Address.index_byte Address.has_byte
    Address.split_checked Address.split_bracketed
split_ipv6 = refl

not_empty : {A : Type 0} (x : A) (xs : List A) → (x ∷ xs) ≢ []
not_empty x xs h = cc

abbrev a_id : Bytes
a_id = codes "a"

vote_safety_example : a_id ≡ a_id
unfolding granted handle_vote vote put_state get put new_registry masters_of new_state
vote_safety_example =
    vote_safety (codes "main") 1 a_id a_id (not_empty b'a' []) (not_empty b'a' []) main_registry
      asked refl refl

abbrev three_sentinels : List (Registry × List Request)
three_sentinels =
    (main_registry, asked)
    ∷ (main_registry, ask 1 (codes "a") ∷ [])
    ∷ (main_registry, ask 1 (codes "b") ∷ [])
    ∷ []

leader_unique_example : a_id ≡ a_id
unfolding votes_for granted has_majority handle_vote vote put_state get put new_registry masters_of
    new_state
leader_unique_example =
    leader_unique (codes "main") 1 a_id a_id (not_empty b'a' []) (not_empty b'a' []) three_sentinels
      refl refl

is_elected-has_majority_example : is_elected 2 2 ≡ has_majority 2 3
is_elected-has_majority_example = is_elected-has_majority 2 2

abbrev failed_master : List Probe
failed_master = (codes "10.0.0.1:6379", false) ∷ (codes "10.0.0.2:6379", true) ∷ []

down_marks_example :
    (is_down
        (record_all (new_registry (main_spec ∷ []) (pos 1000)) failed_master)
        (codes "10.0.0.1:6379")
      ≡ (watched (new_registry (main_spec ∷ []) (pos 1000)) (codes "10.0.0.1:6379")
          && last_failed (codes "10.0.0.1:6379") false failed_master))
    × (is_subjectively_down
          (record_all (new_registry (main_spec ∷ []) (pos 1000)) failed_master)
          (codes "10.0.0.1:6379")
        ≡ (watched (new_registry (main_spec ∷ []) (pos 1000)) (codes "10.0.0.1:6379")
            && last_failed (codes "10.0.0.1:6379") false failed_master))
down_marks_example =
    down_marks (main_spec ∷ []) (pos 1000) (codes "10.0.0.1:6379") failed_master (omega arith)

abbrev behind : SlaveInfo
behind = record {
  addr = codes "10.0.0.2:6379";
  priority = pos 100;
  offset = pos 5;
  run_id = [];
  state = codes "online";
}

abbrev ahead : SlaveInfo
ahead = record {
  addr = codes "10.0.0.3:6379";
  priority = pos 100;
  offset = pos 9;
  run_id = [];
  state = codes "online";
}

-- The slave that has replicated more is taken.
most_replicated :
    select_slave main_registry (codes "main") (behind ∷ ahead ∷ []) ≡ ok (codes "10.0.0.3:6379")
unfolding select_slave candidates candidate index_infos default_info sort_slaves insert_slave less
    first_usable skipped is_down any_value get put new_registry masters_of new_state
most_replicated = refl

select_slave-Promoted_example :
    Promoted main_registry main_spec.slaves
      (behind ∷ ahead ∷ [])
      (select_slave main_registry (codes "main") (behind ∷ ahead ∷ []))
unfolding get put new_registry masters_of new_state
select_slave-Promoted_example =
    select_slave-Promoted main_registry (codes "main") (behind ∷ ahead ∷ []) (new_state main_spec)
      refl

abbrev outside : ℕ → Outside
outside t = record { accepts = λ a args. true; role = λ a. none; now = t }

abbrev failed_registry : Registry
failed_registry = record_probe main_registry (codes "10.0.0.1:6379") false

-- The first tick switches to the slave ahead.
abbrev ticked : Option SentinelError × (Sent × Registry)
ticked =
    auto_tick (outside 100) failed_registry (codes "main") true (pos 1) (behind ∷ ahead ∷ []) 60

auto_tick-once_example :
    auto_tick (outside 130) ticked.1.1 (codes "main") true (pos 2) [] 60 ≡ (none, ([], ticked.1.1))
unfolding auto_tick act_on switch_to failover_to is_current joined_master get_master_addr
    is_objectively_down in_cooldown quorum_of reached record_probe record_probe_state record_failure
    add64 ◌+ℤ◌ watches contains_addr map_values Address.split_host_port Address.last_index_byte
    Address.index_byte Address.has_byte Address.split_checked Address.join_host_port Address.atoi
    Address.itoa parse_int parse_uint parse_digits format_int format_uint select_slave candidates
    candidate index_infos default_info sort_slaves insert_slave less first_usable skipped is_down
    any_value get put new_registry masters_of new_state
auto_tick-once_example =
    auto_tick-once (outside 100) (outside 130) failed_registry (codes "main") true true (pos 1)
      (pos 2) (behind ∷ ahead ∷ []) [] 60 refl (not_empty (codes "10.0.0.3:6379", no_one) _)
      (omega arith)

star_not_a : a_id ≢ codes "*"
star_not_a h = cc

counted_vote_example :
    HoldsVote (answer_vote main_registry (codes "10.0.0.1:6379") (ask 1 a_id)).1 (ask 1 a_id)
unfolding answer_vote query_reply vote_reply leader_answer bulk_field bulk_bytes
    is_subjectively_down reached any_value handle_vote vote put_state get put new_registry
    masters_of new_state format_uint parse_uint parse_digits
counted_vote_example =
    counted_vote main_registry (codes "10.0.0.1:6379") (ask 1 a_id) false 1 refl star_not_a
