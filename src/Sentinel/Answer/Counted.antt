-- ===== src/Sentinel/Answer/Counted.antt =====
-- A vote that `voteRound` counts is held by the peer that answered.
use gedis.Base.{
  ℕ, ◌≤◌, ◌≡◌, ◌≢◌, inl, inr, refl, sym, ap, ◌∙◌, Bool, true, false, Option, none, some,
  if◌then◌else◌, Bytes, bytes_eq, codes, get, Bool-cases, Option-cases, arith,
}
use gedis.Base.Text.Decimal.{parse_uint, format_uint}
use gedis.Sentinel.Registry.{MasterState, Registry}
use gedis.Sentinel.Probe.{is_subjectively_down}
use gedis.Sentinel.Vote.{Request, vote, voted_for, handle_vote}
use gedis.Sentinel.Election.Holder.{
  handle_vote-some, handle_vote-none, voted_registry, get-voted_registry,
}
use gedis.Sentinel.Answer.{
  named_leader, leader_answer, vote_reply, answer_vote, query_reply, bulk_field, bulk_bytes,
}

vote-granted :
    (st : MasterState) (e : ℕ) (a : Bytes)
    → (vote st e a).0 ≡ true
    → ((vote st e a).1.voted_run_id ≡ a) × (e ≤ (vote st e a).1.current_epoch)
unfolding vote
vote-granted st e a h = ground arith

vote-epoch : (st : MasterState) (e : ℕ) (a : Bytes) → e ≤ (vote st e a).1.current_epoch
unfolding vote
vote-epoch st e a = ground arith

-- The sentinel's vote is the candidate's, in the request's epoch or a later one.
abbrev pub HoldsVote : Registry → Request → Type 0
HoldsVote r q =
    (st : MasterState) × (get q.master r.masters ≡ some st)
    × (st.voted_run_id ≡ q.run_id)
    × (q.epoch ≤ st.current_epoch)

voted_for-some :
    (r : Registry) (name : Bytes) (st : MasterState)
    → get name r.masters ≡ some st
    → voted_for r name ≡ some (st.voted_run_id, st.current_epoch)
unfolding voted_for
voted_for-some r name st h = rw (voted_for, h) refl

named_leader-some :
    (id : Bytes) (e : ℕ) (a : Bytes) → (named_leader (some (id, e))).0 ≡ a → a ≢ codes "*" → id ≡ a
unfolding named_leader
named_leader-some id e a h n = ground (arith, h, n)

voted_for-none : (r : Registry) (name : Bytes) → get name r.masters ≡ none → voted_for r name ≡ none
unfolding voted_for
voted_for-none r name h = rw (voted_for, h) refl

leader_answer-denied :
    (r : Registry) (q : Request)
    → (handle_vote r q).0 ≡ false
    → leader_answer (handle_vote r q) q.master q.run_id
      ≡ named_leader (voted_for (handle_vote r q).1.1 q.master)
unfolding leader_answer
leader_answer-denied r q h = rw (leader_answer, h) refl

HoldsVote-known :
    (r : Registry) (q : Request) (st : MasterState)
    → get q.master r.masters ≡ some st
    → (vote st q.epoch q.run_id).1.voted_run_id ≡ q.run_id
    → HoldsVote (handle_vote r q).1.1 q
HoldsVote-known r q st e h =
    rw (handle_vote-some r q st e).1
      ((vote st q.epoch q.run_id).1, get-voted_registry st r q, h, vote-epoch st q.epoch q.run_id)

HoldsVote-denied :
    (r : Registry) (q : Request) (st : MasterState)
    → get q.master r.masters ≡ some st
    → (named_leader (voted_for (handle_vote r q).1.1 q.master)).0 ≡ q.run_id
    → q.run_id ≢ codes "*"
    → HoldsVote (handle_vote r q).1.1 q
HoldsVote-denied r q st e h n =
    let after : MasterState = (vote st q.epoch q.run_id).1 in
    let found = voted_for-some (voted_registry st r q) q.master after (get-voted_registry st r q) in
    HoldsVote-known r q st e (
      named_leader-some after.voted_run_id after.current_epoch q.run_id
        (sym (rw ((handle_vote-some r q st e).1, found) refl) ∙ h) n)

named_leader-none : (a : Bytes) → (named_leader none).0 ≡ a → a ≢ codes "*" → ⊥
unfolding named_leader
named_leader-none a h n = n (sym h)

HoldsVote-leader_answer :
    (r : Registry) (q : Request)
    → (leader_answer (handle_vote r q) q.master q.run_id).0 ≡ q.run_id
    → q.run_id ≢ codes "*"
    → HoldsVote (handle_vote r q).1.1 q
HoldsVote-leader_answer r q h n = elim (Option-cases (get q.master r.masters)) [
  | inl e ↦
      let (denied, same) = handle_vote-none r q e in
      elim (named_leader-none q.run_id
        (sym (rw (leader_answer-denied r q denied, same, voted_for-none r q.master e) refl) ∙ h)
        n) [ ]
  | inr (st, e) ↦ elim (Bool-cases (handle_vote r q).0) [
    | inl granted ↦
        HoldsVote-known r q st e
          (vote-granted st q.epoch q.run_id (sym (handle_vote-some r q st e).0 ∙ granted)).0
    | inr denied ↦
        HoldsVote-denied r q st e (sym (ap (λ a. a.0) (leader_answer-denied r q denied)) ∙ h) n
  ]
]

no_reply {ℓ} :
    {A : Type ℓ} (d : Bool) (lead : Bytes) (e : ℕ)
    → Path (Option (Bool × (Bytes × ℕ))) none (some (d, (lead, e)))
    → A
no_reply d lead e h = cc

same_lead :
    (c : Bool) (found : Bytes) (n : ℕ) (d : Bool) (lead : Bytes) (e : ℕ)
    → Path (Option (Bool × (Bytes × ℕ))) (some (c, (found, n))) (some (d, (lead, e)))
    → found ≡ lead
same_lead c found n d lead e h = cc

query_reply-vote_reply :
    (down : Bool) (leader : Bytes × ℕ) (d : Bool) (lead : Bytes) (e : ℕ)
    → query_reply (vote_reply down leader) ≡ some (d, (lead, e))
    → leader.0 ≡ lead
unfolding query_reply vote_reply bulk_field bulk_bytes
query_reply-vote_reply down leader d lead e h =
    elim (Option-cases (parse_uint (format_uint leader.1))) [
      | inl bad ↦ no_reply d lead e (sym (rw (query_reply, bad) refl) ∙ h)
      | inr (n, good) ↦
          same_lead (bytes_eq (if down then codes "1" else codes "0") (codes "1")) leader.0 n d lead
            e (sym (rw (query_reply, good) refl) ∙ h)
    ]

-- Where `QueryPeer` reads the candidate's run id, which is not "*", from the answer to its request,
-- the sentinel that answered has the candidate as the one it voted for, in the request's epoch or
-- in a later one.
pub counted_vote :
    (r : Registry) (addr : Bytes) (q : Request) (down : Bool) (e : ℕ)
    → query_reply (answer_vote r addr q).0 ≡ some (down, (q.run_id, e))
    → q.run_id ≢ codes "*"
    → HoldsVote (answer_vote r addr q).1 q
unfolding answer_vote
counted_vote r addr q down e h n =
    HoldsVote-leader_answer r q
      (query_reply-vote_reply (is_subjectively_down r addr)
        (leader_answer (handle_vote r q) q.master q.run_id) down q.run_id e h)
      n
