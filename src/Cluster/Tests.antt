-- ===== src/Cluster/Tests.antt =====
-- Concrete runs of internal/cluster, and its theorems at concrete inputs.
use gedis.Base.{
  ◌<◌, ◌≡◌, refl, absurd_Bool, sym, List, [], ◌∷◌, codes, All, length, ok, arith, Result, err,
  Bytes, panic, out_of_fuel, inl, ℕ,
}
use gedis.Base.Int.{pos}
use gedis.Base.Text.Decimal.{parse_int, parse_uint, parse_digits}
use gedis.Base.Text.Fields.{space_width, fields, fields_from}
use gedis.Base.Text.Trim.{trim_space, trim_left, trim_right, all_space}
use gedis.Cluster.Slot.{
  num_slots, slot, index_byte, crc16, crc16_from, crc16_bits, crc16_bit, Range, parse_slot_ranges,
  parse_slot_range, check_range, check_slot,
}
use gedis.Cluster.Slot.Tags.{slot-tag, InSlots, parse_slot_ranges-InSlots}
use gedis.Cluster.Topology.{
  full_topology, empty_topology, TopoNode, Topology, TopologyError, build, build_nodes,
  finish_build, specs_or_self, node_of, sort_ranges, insert_range, claim_ranges, claim_slots,
  split_addr, self_after, is_self, own, slots_in, Snapshot,
}
use gedis.Cluster.Migration.Invariant.{
  SlotOk, migrate, stable, apply_all, apply_all-SlotOk, Below, Op, apply, kept,
}
use gedis.Sentinel.Address
use gedis.Cluster.Topology.Claims.{build-claims}
use gedis.Cluster.Migration.{
  in_slots, load_snapshot, snapshot, owns, owner_addr, set_migrating, owner_is_self, is_index,
}
use gedis.Cluster.Persist.{
  SnapshotError, last_with_id, slot_of, owner_line, slot_rest, slot_line, epoch_line, is_slot_word,
  slot_words, read_words, read_lines, lines_from, empty_snapshot, seen_epoch, unmarshal_snapshot,
}
use gedis.Cluster.Persist.Owners.{unmarshal_snapshot-Below}
use gedis.Cluster.Migration.Reload.{load_snapshot-reloads}

-- The check value of CRC-16/XMODEM.
crc16_check : crc16 (codes "123456789") ≡ 0x31c3
unfolding crc16 crc16_from crc16_bits crc16_bit
crc16_check = refl

two_ranges :
    parse_slot_ranges (codes "0-5460" ∷ codes " 7001" ∷ [])
    ≡ ok ((pos 0, pos 5460) ∷ (pos 7001, pos 7001) ∷ [])
unfolding parse_slot_ranges parse_slot_range check_range check_slot index_byte trim_space trim_left
    trim_right all_space space_width parse_int parse_uint parse_digits
two_ranges = refl

abbrev first_and_single : List Range
first_and_single = (pos 0, pos 5460) ∷ (pos 7001, pos 7001) ∷ []

parse_slot_ranges-InSlots_example : (length first_and_single ≡ 2) × All InSlots first_and_single
parse_slot_ranges-InSlots_example =
    parse_slot_ranges-InSlots (codes "0-5460" ∷ codes " 7001" ∷ [])
      ((pos 0, pos 5460) ∷ (pos 7001, pos 7001) ∷ []) two_ranges

slot-tag_example :
    (slot (codes "a{user}b") ≡ slot (codes "user")) × (slot (codes "user") < num_slots)
slot-tag_example =
    slot-tag (codes "a") (codes "ser") (codes "b") b'u' (omega arith) (omega arith) (omega arith)

apply_all-SlotOk_example :
    SlotOk (apply_all full_topology (migrate (pos 5) (codes "n") ∷ stable (pos 5) ∷ [])) 5
unfolding full_topology empty_topology
apply_all-SlotOk_example =
    apply_all-SlotOk full_topology (migrate (pos 5) (codes "n") ∷ stable (pos 5) ∷ []) 5
      (refl, omega arith, λ k. absurd_Bool (sym k), λ k. absurd_Bool (sym k))

unfoldable pick : Result TopologyError Topology → Topology
pick (ok t) = t
pick (err e) = full_topology
pick panic = full_topology
pick out_of_fuel = full_topology

abbrev two_nodes : List TopoNode
two_nodes =
    record { id = codes "a"; addr = codes "h:1"; ranges = (pos 0, pos 2) ∷ [] }
    ∷ record { id = codes "b"; addr = codes "h:2"; ranges = (pos 3, pos 4) ∷ [] }
    ∷ []

abbrev no_digest : Bytes → Bytes
no_digest a = []

abbrev built : Topology
built = pick (build no_digest (codes "h:1") two_nodes)

build-claims_example : built.owner 3 ≡ pos 1
unfolding build build_nodes finish_build specs_or_self empty_topology node_of sort_ranges
    insert_range claim_ranges claim_slots own slots_in split_addr self_after is_self
    Address.split_host_port Address.last_index_byte Address.index_byte Address.has_byte
    Address.split_checked pick
build-claims_example =
    build-claims no_digest (codes "h:1") two_nodes built 1
      (record { id = codes "b"; addr = codes "h:2"; ranges = (pos 3, pos 4) ∷ [] }) (pos 3, pos 4) 3
      refl refl (inl refl) (omega arith) (omega arith) (omega arith)

abbrev saved : Bytes
saved = codes "epoch 3\nowner 5 b\nmigrating 5 a\n"

unfoldable pick_snapshot : Result SnapshotError Snapshot → Snapshot
pick_snapshot (ok s) = s
pick_snapshot (err e) = empty_snapshot
pick_snapshot panic = empty_snapshot
pick_snapshot out_of_fuel = empty_snapshot

abbrev loaded : Snapshot
loaded = pick_snapshot (unmarshal_snapshot saved two_nodes)

unmarshal_snapshot-Below_example : Below (loaded.owner 5) (length two_nodes)
unfolding unmarshal_snapshot read_lines read_words epoch_line is_slot_word slot_words slot_line
    slot_of slot_rest owner_line last_with_id lines_from seen_epoch empty_snapshot in_slots fields
    fields_from space_width parse_int parse_uint parse_digits pick_snapshot
unmarshal_snapshot-Below_example = unmarshal_snapshot-Below saved two_nodes loaded 5 refl

full-SlotOk : (s : ℕ) → SlotOk full_topology s
unfolding full_topology empty_topology
full-SlotOk s = (refl, omega arith, λ k. absurd_Bool (sym k), λ k. absurd_Bool (sym k))

abbrev one_migration : List Op
one_migration = migrate (pos 5) (codes "n") ∷ []

load_snapshot-reloads_example :
    (v : Topology) × (load_snapshot full_topology (snapshot (apply_all full_topology one_migration))
      ≡ ok v)
    × (owns v (pos 5) ≡ owns (apply_all full_topology one_migration) (pos 5))
    × (owner_addr v (pos 5) ≡ owner_addr (apply_all full_topology one_migration) (pos 5))
    × (v.migrating ≡ (apply_all full_topology one_migration).migrating)
    × (v.importing ≡ (apply_all full_topology one_migration).importing)
    × (v.epoch ≡ (apply_all full_topology one_migration).epoch)
unfolding full_topology empty_topology apply_all apply kept set_migrating in_slots owner_is_self
    is_index
load_snapshot-reloads_example =
    load_snapshot-reloads (apply_all full_topology one_migration) full_topology (pos 5)
      (omega arith) refl refl refl
      (λ s. apply_all-SlotOk full_topology one_migration s (full-SlotOk s))
