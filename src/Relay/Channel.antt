-- ===== src/Relay/Channel.antt =====
-- byo-relay/src/channel.rs: the registry of enrollment channels and what a client's message does.
-- The clock is an argument, in seconds; the end of a client's queue is known by a number, `tx`. The
-- registry's lock makes each of its calls one step.
pub mod Limits
pub mod Registry
pub mod Stale
use wattcloud.Common.{
  ℕ, ◌+◌, ◌-◌, not, Bool, true, false, Option, none, some, List, [], ◌∷◌, Result, ok, err, ◌==◌,
  ltb, if◌then◌else◌,
}
use wattcloud.Common.Bytes.{Bytes, bytes_eq_inst, saturating_add}
use wattcloud.Common.Maps.{get, insert, remove, retain}

abbrev pub channel_idle_ttl : ℕ
channel_idle_ttl = 180

abbrev pub max_message_bytes : ℕ
max_message_bytes = 1024

abbrev pub max_channel_bytes : ℕ
max_channel_bytes = 8192

-- The two slots of `senders`.
pub data Slot : Type 0 where
  slot0 slot1 : Slot

pub record Channel : Type 0 where
  pub sender0 : Option ℕ
  pub sender1 : Option ℕ
  pub last_activity : ℕ
  pub total_bytes : ℕ

-- `Channel::new`
unfoldable pub new : ℕ → Channel
new now = record { sender0 = none; sender1 = none; last_activity = now; total_bytes = 0 }

abbrev pub sender : Channel → Slot → Option ℕ
sender ch slot0 = ch.sender0
sender ch slot1 = ch.sender1

-- `ch.senders[slot] = tx`
abbrev pub set_sender : Slot → Option ℕ → Channel → Channel
set_sender slot0 tx ch = record ch { sender0 = tx }
set_sender slot1 tx ch = record ch { sender1 = tx }

abbrev pub is_some {ℓ} : {A : Type ℓ} → Option A → Bool
is_some none = false
is_some (some a) = true

-- `active_slots`
unfoldable pub active_slots : Channel → ℕ
active_slots ch = (if is_some ch.sender0 then 1 else 0) + (if is_some ch.sender1 then 1 else 0)

-- `first_empty_slot`
unfoldable pub first_empty : Channel → Option Slot
first_empty ch =
    if not (is_some ch.sender0)
    then some slot0
    else if not (is_some ch.sender1)
    then some slot1
    else none

-- `peer_sender`
unfoldable pub peer_sender : Channel → Slot → Option ℕ
peer_sender ch slot0 = ch.sender1
peer_sender ch slot1 = ch.sender0

-- `touch`
unfoldable pub touch : ℕ → Channel → Channel
touch now ch = record ch { last_activity = now }

-- `is_idle_expired`
unfoldable pub is_idle_expired : ℕ → Channel → Bool
is_idle_expired now ch = ltb channel_idle_ttl (now - ch.last_activity)

-- `add_bytes`: the channel, and whether it has now exceeded its cap.
unfoldable pub add_bytes : ℕ → Channel → Channel × Bool
add_bytes n ch =
    let total = saturating_add ch.total_bytes n in
    (record ch { total_bytes = total }, ltb max_channel_bytes total)

-- What `relay_loop` does with a client's binary or text message of `len` bytes: it ends the client's
-- session, or passes the message on to the peer's queue if there is a peer.
pub data Verdict : Type 0 where
  message_too_large channel_byte_cap : Verdict
  passed_on : Option ℕ → Verdict

unfoldable pub client_message : ℕ → Slot → ℕ → Channel → Channel × Verdict
client_message now my_slot len ch =
    if ltb max_message_bytes len
    then (ch, message_too_large)
    else let (counted, cap_exceeded) = add_bytes len (touch now ch) in
      if cap_exceeded
      then (counted, channel_byte_cap)
      else (counted, passed_on (peer_sender counted my_slot))

abbrev pub ChannelId : Type 0
ChannelId = Bytes

pub record ChannelRegistry : Type 0 where
  pub channels : List (ChannelId × Channel)

-- The only error of this file's calls.
pub data RelayError : Type 0 where
  channel_full : RelayError

-- `entry(id).or_insert_with(Channel::new)`
abbrev pub channel_or_new : ℕ → Option Channel → Channel
channel_or_new now none = new now
channel_or_new now (some ch) = ch

-- `ChannelRegistry::join`: the client's slot.
unfoldable pub join : ℕ → ChannelId → ℕ → ChannelRegistry → ChannelRegistry × Result RelayError Slot
join now id tx r =
    let ch = channel_or_new now (get id r.channels) in
    elim (first_empty ch) [
      | none ↦ (record { channels = insert id ch r.channels }, err channel_full)
      | some slot ↦ (
        record { channels = insert id (touch now (set_sender slot (some tx) ch)) r.channels },
        ok slot,
      )
    ]

-- `ChannelRegistry::leave`
unfoldable pub leave : ChannelId → Slot → ChannelRegistry → ChannelRegistry
leave id slot r = elim (get id r.channels) [
  | none ↦ r
  | some ch ↦
      let left = set_sender slot none ch in
      if active_slots left == 0
      then record { channels = remove id r.channels }
      else record { channels = insert id left r.channels }
]

-- `ChannelRegistry::sweep_expired`
unfoldable pub sweep_expired : ℕ → ChannelRegistry → ChannelRegistry
sweep_expired now r = record { channels = retain (λ ch. not (is_idle_expired now ch)) r.channels }
