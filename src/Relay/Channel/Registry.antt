-- ===== src/Relay/Channel/Registry.antt =====
-- The registry of byo-relay/src/channel.rs: its channels have clients, and whom a call disturbs.
use wattcloud.Common.{
  ℕ, ◌+◌, ◌≤◌, ◌≡◌, refl, sym, ap, ◌∙◌, inl, inr, not, Bool-cases, Option, Option-cases, none, some,
  List, [], ◌∷◌, Result, ok, err, ok-injective, ==_iff, ◌==◌, if◌then◌else◌, arith,
}
use wattcloud.Common.Bytes.{bytes_eq_inst, bytes_eq, bytes_eq_iff}
use wattcloud.Common.Maps.{
  get, insert, remove, get-insert, get-remove, get-insert_self, AllValues, retain-AllValues,
  insert-AllValues, remove-AllValues,
}
use wattcloud.Relay.Channel.{
  Slot, slot0, slot1, Channel, ChannelId, ChannelRegistry, RelayError, channel_full, new, sender,
  set_sender, is_some, active_slots, first_empty, touch, is_idle_expired, channel_or_new, join,
  leave, sweep_expired,
}

data Call : Type 0 where
  -- now, the channel, the client's queue
  join_call : ℕ → ChannelId → ℕ → Call
  leave_call : ChannelId → Slot → Call
  sweep_call : ℕ → Call

call : Call → ChannelRegistry → ChannelRegistry
call (join_call now id tx) r = (join now id tx r).0
call (leave_call id slot) r = leave id slot r
call (sweep_call now) r = sweep_expired now r

calls : List Call → ChannelRegistry → ChannelRegistry
calls [] r = r
calls (c ∷ cs) r = calls cs (call c r)

abbrev IsInUse : Channel → Type 0
IsInUse ch = 1 ≤ active_slots ch

-- Every channel of the registry has a client.
IsTidy : ChannelRegistry → Type 0
IsTidy r = AllValues IsInUse r.channels

joined-IsInUse :
    (now tx : ℕ) (slot : Slot) (ch : Channel) → IsInUse (touch now (set_sender slot (some tx) ch))
unfolding active_slots touch
joined-IsInUse now tx slot0 ch = ground arith
joined-IsInUse now tx slot1 ch = ground arith

full-IsInUse : (ch : Channel) → first_empty ch ≡ none → IsInUse ch
unfolding first_empty active_slots
full-IsInUse ch h = ground (arith, h)

join-IsTidy :
    (now : ℕ) (id : ChannelId) (tx : ℕ) (r : ChannelRegistry)
    → IsTidy r
    → IsTidy (join now id tx r).0
unfolding join IsTidy
join-IsTidy now id tx r h =
    let ch = channel_or_new now (get id r.channels) in
    elim (Option-cases (first_empty ch)) [
      | inl full ↦
          rw (full, join) (insert-AllValues IsInUse id ch r.channels (full-IsInUse ch full) h)
      | inr (slot, free) ↦
          rw (free, join)
            (insert-AllValues IsInUse id (touch now (set_sender slot (some tx) ch)) r.channels
              (joined-IsInUse now tx slot ch) h)
    ]

leave-IsTidy :
    (id : ChannelId) (slot : Slot) (r : ChannelRegistry) → IsTidy r → IsTidy (leave id slot r)
unfolding leave IsTidy
leave-IsTidy id slot r h = elim (Option-cases (get id r.channels)) [
  | inl gone ↦ rw (gone, leave) h
  | inr (ch, there) ↦
      let left = set_sender slot none ch in
      elim (Bool-cases (active_slots left == 0)) [
        | inl empty ↦ rw (there, empty, leave) (remove-AllValues IsInUse id r.channels h)
        | inr used ↦
            rw (there, used, leave)
              (insert-AllValues IsInUse id left r.channels (ground (arith, used)) h)
      ]
]

call-IsTidy : (c : Call) (r : ChannelRegistry) → IsTidy r → IsTidy (call c r)
unfolding call IsTidy sweep_expired
call-IsTidy (join_call now id tx) r h = join-IsTidy now id tx r h
call-IsTidy (leave_call id slot) r h = leave-IsTidy id slot r h
call-IsTidy (sweep_call now) r h =
    retain-AllValues IsInUse (λ ch. not (is_idle_expired now ch)) r.channels h

-- Whatever the calls on a registry are, each of its channels has a client from then on.
calls-IsTidy : (cs : List Call) (r : ChannelRegistry) → IsTidy r → IsTidy (calls cs r)
unfolding calls
calls-IsTidy [] r h = h
calls-IsTidy (c ∷ cs) r h = calls-IsTidy cs (call c r) (call-IsTidy c r h)

-- Who is in a channel: the two queues, or nobody where there is no channel.
abbrev pub clients_of : Option Channel → Option ℕ × Option ℕ
clients_of none = (none, none)
clients_of (some ch) = (ch.sender0, ch.sender1)

unfoldable pub clients : ChannelId → ChannelRegistry → Option ℕ × Option ℕ
clients id r = clients_of (get id r.channels)

-- The slot that `first_empty_slot` names is free.
free_slot : (ch : Channel) (slot : Slot) → first_empty ch ≡ some slot → sender ch slot ≡ none
unfolding first_empty
free_slot ch slot h = by_senders ch.sender0 ch.sender1 slot h
  where
    by_senders :
        (a b : Option ℕ) (slot : Slot)
        → (if not (is_some a) then some slot0 else if not (is_some b) then some slot1 else none)
          ≡ some slot
        → sender (record { sender0 = a; sender1 = b; last_activity = 0; total_bytes = 0 }) slot
          ≡ none
    by_senders none b slot0 h = refl
    by_senders none b slot1 h = cc
    by_senders (some x) none slot0 h = cc
    by_senders (some x) none slot1 h = refl
    by_senders (some x) (some y) slot h = cc

module _ (now tx : ℕ) (ch : Channel) where
  abbrev seated : Slot → Channel
  seated slot = touch now (set_sender slot (some tx) ch)

  unseated :
      (slot : Slot)
      → sender ch slot ≡ none
      → clients_of (some (set_sender slot none (seated slot))) ≡ clients_of (some ch)
  unfolding touch
  unseated slot0 h = rw h
  unseated slot1 h = rw h

  emptied :
      (slot : Slot)
      → sender ch slot ≡ none
      → active_slots (set_sender slot none (seated slot)) ≡ active_slots ch
  unfolding touch active_slots
  emptied slot0 h = rw h
  emptied slot1 h = rw h

nobody : (ch : Channel) → active_slots ch ≡ 0 → clients_of (some ch) ≡ (none, none)
unfolding active_slots
nobody ch h = by_senders ch.sender0 ch.sender1 h
  where
    by_senders :
        (a b : Option ℕ)
        → (if is_some a then 1 else 0) + (if is_some b then 1 else 0) ≡ 0
        → ◌≡◌ {A = Option ℕ × Option ℕ} (a, b) (none, none)
    by_senders none none h = refl
    by_senders (some x) none h = absurd (omega arith)
    by_senders none (some y) h = absurd (omega arith)
    by_senders (some x) (some y) h = absurd (omega arith)

new_clients :
    (now : ℕ) (o : Option Channel) → clients_of (some (channel_or_new now o)) ≡ clients_of o
unfolding new
new_clients now none = refl
new_clients now (some ch) = refl

-- The map behind a client that joined and left: only the entry of its channel may have changed, and
-- there it shows the same clients.
module _ (id other : ChannelId) (m : List (ChannelId × Channel)) (joined left : Channel) where
  same_if_removed :
      clients_of (get id m) ≡ (none, none)
      → clients_of (get other (remove id (insert id joined m))) ≡ clients_of (get other m)
  same_if_removed h = elim (Bool-cases (bytes_eq id other)) [
    | inl t ↦
        rw (get-remove id other (insert id joined m), t)
          (sym h ∙ ap (λ k. clients_of (get k m)) ((bytes_eq_iff id other).0 t))
    | inr f ↦ rw (get-remove id other (insert id joined m), f, get-insert id other joined m, f)
  ]

  same_if_kept :
      clients_of (some left) ≡ clients_of (get id m)
      → clients_of (get other (insert id left (insert id joined m))) ≡ clients_of (get other m)
  same_if_kept h = elim (Bool-cases (bytes_eq id other)) [
    | inl t ↦
        rw (get-insert id other left (insert id joined m), t)
          (h ∙ ap (λ k. clients_of (get k m)) ((bytes_eq_iff id other).0 t))
    | inr f ↦ rw (get-insert id other left (insert id joined m), f, get-insert id other joined m, f)
  ]

module _ (now : ℕ) (id : ChannelId) (tx : ℕ) (r : ChannelRegistry) where
  abbrev ch : Channel
  ch = channel_or_new now (get id r.channels)

  -- A `join` that succeeds, spelled out.
  joined :
      (slot : Slot)
      → (join now id tx r).1 ≡ ok slot
      → (first_empty ch ≡ some slot)
        × ((join now id tx r).0
            ≡ record { channels = insert id (seated now tx ch slot) r.channels })
  unfolding join
  joined slot h = elim (Option-cases (first_empty ch)) [
    | inl full ↦ absurd (refused (rw (full, join) at h))
    | inr (s, free) ↦
        let same : s ≡ slot = ok-injective (rw (free, join) at h) in
        (
          free ∙ ap some same,
          rw (free, join)
              (ap (λ x. record { channels = insert id (seated now tx ch x) r.channels }) same),
        )
  ]
    where
      refused : ◌≡◌ {A = Result RelayError Slot} (err channel_full) (ok slot) → ⊥
      refused h = cc

  left_again :
      (slot : Slot) (other : ChannelId)
      → first_empty ch ≡ some slot
      → clients other
          (leave id slot (record { channels = insert id (seated now tx ch slot) r.channels }))
        ≡ clients other r
  unfolding leave clients
  left_again slot other free =
      let vacant = free_slot ch slot free in
      let there = get-insert_self id (seated now tx ch slot) r.channels in
      let left = set_sender slot none (seated now tx ch slot) in
      elim (Bool-cases (active_slots left == 0)) [
        | inl empty ↦
            let zero_clients = (==_iff (active_slots left) 0).0 empty in
            rw (there, empty, leave)
              (same_if_removed id other r.channels (seated now tx ch slot) left (
                sym (new_clients now (get id r.channels))
                ∙ nobody ch (sym (emptied now tx ch slot vacant) ∙ zero_clients)))
        | inr used ↦
            rw (there, used, leave)
              (same_if_kept id other r.channels (seated now tx ch slot) left
                (unseated now tx ch slot vacant ∙ new_clients now (get id r.channels)))
      ]

-- A client that joins a channel gets a slot that was free, and when it leaves the slot again the
-- clients of every channel are those from before.
pub leave-join :
    (now : ℕ) (id : ChannelId) (tx : ℕ) (r : ChannelRegistry) (slot : Slot) (other : ChannelId)
    → (join now id tx r).1 ≡ ok slot
    → (sender (channel_or_new now (get id r.channels)) slot ≡ none)
      × (clients other (leave id slot (join now id tx r).0) ≡ clients other r)
leave-join now id tx r slot other h =
    let (free, made) = joined now id tx r slot h in
    (
      free_slot (channel_or_new now (get id r.channels)) slot free,
      ap (λ x. clients other (leave id slot x)) made ∙ left_again now id tx r slot other free,
    )
