-- ===== src/Sentinel/Election/Holder.antt =====
-- Who holds a sentinel's vote for an epoch.
use gedis.Base.{
  ℕ, ◌<◌, ◌≡◌, ◌≢◌, ◌⊎◌, inl, inr, refl, sym, ◌∙◌, true, false, none, some, [], Bytes, bytes_eq,
  bytes_eq_iff, get, get-put, get-put_other, Bool-cases, Option-cases, arith, absurd_Bool,
}
use gedis.Sentinel.Registry.{MasterState, Registry, put_state}
use gedis.Sentinel.Vote.{Request, vote, handle_vote}

-- The epoch is over, or its vote is `a`'s.
abbrev pub StateHolds : MasterState → ℕ → Bytes → Type 0
StateHolds st e a =
    (e < st.current_epoch) ⊎ ((st.current_epoch ≡ e) × (st.voted_epoch ≡ e) × (st.voted_run_id ≡ a))

StateHolds-granted :
    (st : MasterState) (e : ℕ) (a : Bytes) → (vote st e a).0 ≡ true → StateHolds (vote st e a).1 e a
unfolding vote
StateHolds-granted st e a h = ground arith

StateHolds-vote :
    (st : MasterState) (e : ℕ) (a : Bytes)
    → a ≢ []
    → (f : ℕ) (b : Bytes) → StateHolds st e a
    → StateHolds (vote st f b).1 e a
unfolding vote
StateHolds-vote st e a na f b h =
    ground (arith, bytes_eq_iff st.voted_run_id [], bytes_eq_iff st.voted_run_id b)

StateHolds-unique :
    (st : MasterState) (e : ℕ) (a : Bytes)
    → a ≢ []
    → (b : Bytes) → StateHolds st e a
    → (vote st e b).0 ≡ true
    → b ≡ a
unfolding vote
StateHolds-unique st e a na b h g =
    ground (arith, bytes_eq_iff st.voted_run_id [], bytes_eq_iff st.voted_run_id b)

abbrev pub Holds : Registry → Bytes → ℕ → Bytes → Type 0
Holds r name e a = (st : MasterState) × (get name r.masters ≡ some st) × StateHolds st e a

-- The registry after a vote on a registered master.
pub voted_registry : MasterState → Registry → Request → Registry
voted_registry st r q = put_state q.master (vote st q.epoch q.run_id).1 r

pub handle_vote-some :
    (r : Registry) (q : Request) (st : MasterState)
    → get q.master r.masters ≡ some st
    → ((handle_vote r q).0 ≡ (vote st q.epoch q.run_id).0)
      × ((handle_vote r q).1.1 ≡ voted_registry st r q)
unfolding handle_vote voted_registry
handle_vote-some r q st e = rw (e, handle_vote) (refl, refl)

pub handle_vote-none :
    (r : Registry) (q : Request)
    → get q.master r.masters ≡ none
    → ((handle_vote r q).0 ≡ false) × ((handle_vote r q).1.1 ≡ r)
unfolding handle_vote
handle_vote-none r q e = rw (e, handle_vote) (refl, refl)

pub get-voted_registry :
    (st : MasterState) (r : Registry) (q : Request)
    → get q.master (voted_registry st r q).masters ≡ some (vote st q.epoch q.run_id).1
unfolding voted_registry put_state
get-voted_registry st r q = get-put q.master (vote st q.epoch q.run_id).1 r.masters

get-voted_registry_other :
    (st : MasterState) (r : Registry) (q : Request) (name : Bytes)
    → q.master ≢ name
    → get name (voted_registry st r q).masters ≡ get name r.masters
unfolding voted_registry put_state
get-voted_registry_other st r q name n =
    get-put_other q.master name (vote st q.epoch q.run_id).1 r.masters n

pub Holds-granted :
    (r : Registry) (q : Request)
    → (handle_vote r q).0 ≡ true
    → Holds (handle_vote r q).1.1 q.master q.epoch q.run_id
Holds-granted r q h = elim (Option-cases (get q.master r.masters)) [
  | inl e ↦ absurd_Bool (sym h ∙ (handle_vote-none r q e).0)
  | inr (st, e) ↦ rw (handle_vote-some r q st e).1 (
    (vote st q.epoch q.run_id).1,
    get-voted_registry st r q,
    StateHolds-granted st q.epoch q.run_id (sym (handle_vote-some r q st e).0 ∙ h),
  )
]

pub Holds-unique :
    (a : Bytes)
    → a ≢ []
    → (r : Registry) (q : Request) → Holds r q.master q.epoch a
    → (handle_vote r q).0 ≡ true
    → q.run_id ≡ a
Holds-unique a na r q (st, gets, h) g =
    StateHolds-unique st q.epoch a na q.run_id h (sym (handle_vote-some r q st gets).0 ∙ g)

-- A vote on the master itself, where its name is the request's.
Holds-handle_vote_same :
    (e : ℕ) (a : Bytes)
    → a ≢ []
    → (r : Registry) (q : Request) → Holds r q.master e a
    → Holds (handle_vote r q).1.1 q.master e a
Holds-handle_vote_same e a na r q (st, gets, h) = rw (handle_vote-some r q st gets).1 (
  (vote st q.epoch q.run_id).1,
  get-voted_registry st r q,
  StateHolds-vote st e a na q.epoch q.run_id h,
)

Holds-handle_vote_other :
    (name : Bytes) (e : ℕ) (a : Bytes) (r : Registry) (q : Request)
    → q.master ≢ name
    → Holds r name e a
    → Holds (handle_vote r q).1.1 name e a
Holds-handle_vote_other name e a r q n (st, gets, h) =
    elim (Option-cases (get q.master r.masters)) [
      | inl none_there ↦ rw (handle_vote-none r q none_there).1 (st, gets, h)
      | inr (other, there) ↦
          rw (handle_vote-some r q other there).1
            (st, get-voted_registry_other other r q name n ∙ gets, h)
    ]

pub Holds-handle_vote :
    (name : Bytes) (e : ℕ) (a : Bytes)
    → a ≢ []
    → (r : Registry) (q : Request) → Holds r name e a
    → Holds (handle_vote r q).1.1 name e a
Holds-handle_vote name e a na r q h = elim (Bool-cases (bytes_eq q.master name)) [
  | inl eq ↦
      let same : q.master ≡ name = (bytes_eq_iff q.master name).0 eq in
      rw (← same) (Holds-handle_vote_same e a na r q (rw same h))
  | inr ne ↦
      Holds-handle_vote_other name e a r q
        (λ same. absurd_Bool (sym ((bytes_eq_iff q.master name).1 same) ∙ ne)) h
]
