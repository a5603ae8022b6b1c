-- ===== src/Sentinel/Switching.antt =====
-- A switch by `AutoTick` of internal/sentinel/auto.go keeps the next ones from switching again.
use gedis.Base.{
  ℕ, ◌-◌, ◌<◌, ◌≡◌, ◌≢◌, inl, inr, refl, sym, ◌∙◌, Bool, true, false, not, ◌||◌, Option, none, some,
  List, [], if◌then◌else◌, Bytes, get, get-put, Option-cases, Result, ok, err, panic, out_of_fuel,
  arith,
}
use gedis.Base.Int.{ℤ}
use gedis.Sentinel.Registry.{MasterState, Registry, SentinelError, unknown_master, put_state}
use gedis.Sentinel.Probe.{is_objectively_down}
use gedis.Sentinel.Select.{SlaveInfo, select_slave}
use gedis.Sentinel.Failover.{
  Outside, switched, failover_to, in_cooldown, switch_to, act_on, auto_tick,
}

-- The registry right after a switch of the master at the time `now`.
abbrev Switched : ℕ → Bytes → Registry → Type 0
Switched now name r =
    (st : MasterState) × (get name r.masters ≡ some st) × (st.last_failover ≡ some now)

Switched-switched :
    (o : Outside) (name target : Bytes) (st : MasterState) (r : Registry)
    → Switched o.now name (switched o name target st r)
unfolding switched put_state
Switched-switched o name target st r = (
  record st { current = target; last_failover = some o.now },
  get-put name (record st { current = target; last_failover = some o.now }) r.masters,
  refl,
)

none≢some : {A : Type 0} (e : SentinelError) → Path (Option SentinelError) (some e) none → A
none≢some e h = cc

-- Where the promotion succeeds, the cache is switched.
failover_to-switched :
    (o : Outside) (r : Registry) (name target : Bytes) (st : MasterState)
    → get name r.masters ≡ some st
    → (failover_to o r name target).0 ≡ none
    → (failover_to o r name target).1.1 ≡ switched o name target st r
unfolding failover_to
failover_to-switched o r name target st e h = ground (arith, e)

failover_to-unknown :
    (o : Outside) (r : Registry) (name target : Bytes)
    → get name r.masters ≡ none
    → (failover_to o r name target).0 ≡ some unknown_master
unfolding failover_to
failover_to-unknown o r name target e = rw (failover_to, e) refl

Switched-failover_to :
    (o : Outside) (r : Registry) (name target : Bytes)
    → (failover_to o r name target).0 ≡ none
    → Switched o.now name (failover_to o r name target).1.1
Switched-failover_to o r name target h = elim (Option-cases (get name r.masters)) [
  | inl e ↦ none≢some unknown_master (sym (failover_to-unknown o r name target e) ∙ h)
  | inr (st, e) ↦
      rw (failover_to-switched o r name target st e h) (Switched-switched o name target st r)
]

-- Commands are only sent by the switch itself.
switch_to-sent :
    (o : Outside) (r : Registry) (name target : Bytes)
    → (switch_to o r name target).1.0 ≢ []
    → switch_to o r name target ≡ failover_to o r name target
unfolding switch_to
switch_to-sent o r name target sent = ground arith

act_on-sent :
    (o : Outside) (r : Registry) (name : Bytes) (b : Bool) (s : Result SentinelError Bytes)
    → (if b then (none, ([], r)) else act_on o r name s).1.0 ≢ []
    → (target : Bytes) × ((if b then (none, ([], r)) else act_on o r name s)
        ≡ switch_to o r name target)
unfolding act_on
act_on-sent o r name true s sent = elim (sent refl) [ ]
act_on-sent o r name false (ok target) sent = (target, refl)
act_on-sent o r name false (err e) sent = elim (sent refl) [ ]
act_on-sent o r name false panic sent = elim (sent refl) [ ]
act_on-sent o r name false out_of_fuel sent = elim (sent refl) [ ]

auto_tick-sent :
    (o : Outside) (r : Registry) (name : Bytes) (is_leader : Bool) (peer_downs : ℤ)
    (infos : List SlaveInfo) (timeout : ℕ)
    → (auto_tick o r name is_leader peer_downs infos timeout).1.0 ≢ []
    → (target : Bytes) × (auto_tick o r name is_leader peer_downs infos timeout
        ≡ switch_to o r name target)
unfolding auto_tick
auto_tick-sent o r name is_leader peer_downs infos timeout sent =
    act_on-sent o r name
      (not is_leader
        || (not (is_objectively_down r name peer_downs) || in_cooldown o r name timeout))
      (select_slave r name infos) sent

Switched-auto_tick :
    (o : Outside) (r : Registry) (name : Bytes) (is_leader : Bool) (peer_downs : ℤ)
    (infos : List SlaveInfo) (timeout : ℕ)
    → (auto_tick o r name is_leader peer_downs infos timeout).0 ≡ none
    → (auto_tick o r name is_leader peer_downs infos timeout).1.0 ≢ []
    → Switched o.now name (auto_tick o r name is_leader peer_downs infos timeout).1.1
Switched-auto_tick o r name is_leader peer_downs infos timeout h sent =
    let (target, e) = auto_tick-sent o r name is_leader peer_downs infos timeout sent in
    let f = e ∙ switch_to-sent o r name target (λ none_sent. sent (rw e none_sent)) in
    rw f (Switched-failover_to o r name target (rw (← f) h))

in_cooldown-Switched :
    (o : Outside) (now : ℕ) (r : Registry) (name : Bytes) (timeout : ℕ)
    → o.now - now < timeout
    → Switched now name r
    → in_cooldown o r name timeout ≡ true
unfolding in_cooldown
in_cooldown-Switched o now r name timeout h (st, e, l) = rw (in_cooldown, e, l) (ground arith)

auto_tick-in_cooldown :
    (o : Outside) (r : Registry) (name : Bytes) (is_leader : Bool) (peer_downs : ℤ)
    (infos : List SlaveInfo) (timeout : ℕ)
    → in_cooldown o r name timeout ≡ true
    → auto_tick o r name is_leader peer_downs infos timeout ≡ (none, ([], r))
unfolding auto_tick
auto_tick-in_cooldown o r name is_leader peer_downs infos timeout h = ground (arith, h)

-- Where `AutoTick` sends a command and returns no error, another `AutoTick` of the same master on
-- the registry it leaves, at a time less than the timeout later, sends nothing, returns no error
-- and leaves the registry alone, whatever its other arguments.
pub auto_tick-once :
    (o p : Outside) (r : Registry) (name : Bytes) (is_leader next_leader : Bool)
    (peer_downs next_downs : ℤ) (infos next_infos : List SlaveInfo) (timeout : ℕ)
    → (auto_tick o r name is_leader peer_downs infos timeout).0 ≡ none
    → (auto_tick o r name is_leader peer_downs infos timeout).1.0 ≢ []
    → p.now - o.now < timeout
    → auto_tick p
        (auto_tick o r name is_leader peer_downs infos timeout).1.1
        name
        next_leader
        next_downs
        next_infos
        timeout
      ≡ (none, ([], (auto_tick o r name is_leader peer_downs infos timeout).1.1))
auto_tick-once o p r name l m d n i j timeout h sent within =
    let after : Registry = (auto_tick o r name l d i timeout).1.1 in
    auto_tick-in_cooldown p after name m n j timeout (
      in_cooldown-Switched p o.now after name timeout within
        (Switched-auto_tick o r name l d i timeout h sent))
