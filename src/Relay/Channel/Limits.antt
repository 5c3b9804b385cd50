-- ===== src/Relay/Channel/Limits.antt =====
-- The limits on what one channel of byo-relay/src/channel.rs passes on.
use wattcloud.Common.{
  ℕ, ◌+◌, ◌≤◌, ◌<◌, max, ◌≡◌, refl, sym, Bool-cases, inl, inr, Option, List, [], ◌∷◌, ltb,
  le_of_ltb, ltb→lt, arith,
}
use wattcloud.Relay.Channel.{
  Channel, new, Slot, Verdict, message_too_large, channel_byte_cap, passed_on, client_message,
  add_bytes, touch, max_channel_bytes, max_message_bytes,
}
use wattcloud.Common.Bytes.{saturating_add}

-- A message of a client: when, from which slot, and how long.
pub record Sent : Type 0 where
  pub now : ℕ
  pub slot : Slot
  pub len : ℕ

-- The messages of both clients in the order in which they get the channel's lock.
unfoldable pub client_messages : List Sent → Channel → Channel × List Verdict
client_messages [] ch = (ch, [])
client_messages (m ∷ ms) ch =
    let (next, verdict) = client_message m.now m.slot m.len ch in
    let (last, verdicts) = client_messages ms next in (last, verdict ∷ verdicts)

-- The bytes passed on to a peer's queue, or to nobody where there is no peer.
abbrev pub bytes_passed : List Sent → List Verdict → ℕ
bytes_passed (m ∷ ms) (passed_on tx ∷ vs) = m.len + bytes_passed ms vs
bytes_passed (m ∷ ms) (message_too_large ∷ vs) = bytes_passed ms vs
bytes_passed (m ∷ ms) (channel_byte_cap ∷ vs) = bytes_passed ms vs
bytes_passed [] vs = 0
bytes_passed (m ∷ ms) [] = 0

-- The three ways that a message can go.
data Went (len : ℕ) (ch next : Channel) : Verdict → Type 0 where
  refused : next ≡ ch → Went len ch next message_too_large
  capped : max_channel_bytes < next.total_bytes → Went len ch next channel_byte_cap
  counted :
      {tx : Option ℕ}
      → next.total_bytes ≡ ch.total_bytes + len
      → next.total_bytes ≤ max_channel_bytes
      → len ≤ max_message_bytes
      → Went len ch next (passed_on tx)

went :
    (now : ℕ) (slot : Slot) (len : ℕ) (ch : Channel)
    → Went len ch (client_message now slot len ch).0 (client_message now slot len ch).1
unfolding client_message add_bytes touch
went now slot len ch = elim (Bool-cases (ltb max_message_bytes len)) [
  | inl long ↦ rw (long, client_message) (refused refl)
  | inr short ↦ elim (Bool-cases (ltb max_channel_bytes (saturating_add ch.total_bytes len))) [
    | inl over ↦ rw (short, over, client_message) (capped (ltb→lt _ _ over))
    | inr under ↦
        let small = le_of_ltb max_channel_bytes (saturating_add ch.total_bytes len) under in
        rw (short, under, client_message)
          (counted (ground (arith, small)) small (le_of_ltb _ _ short))
  ]
]

bound :
    (ms : List Sent) (ch : Channel)
    → ch.total_bytes + bytes_passed ms (client_messages ms ch).1
      ≤ max ch.total_bytes max_channel_bytes
unfolding client_messages
bound [] ch = omega arith
bound (m ∷ ms) ch =
    let step = client_message m.now m.slot m.len ch in
    rest m ms ch step.0 step.1 (went m.now m.slot m.len ch) (bound ms step.0)
  where
    rest :
        (m : Sent) (ms : List Sent) (ch next : Channel) (v : Verdict)
        → Went m.len ch next v
        → next.total_bytes + bytes_passed ms (client_messages ms next).1
          ≤ max next.total_bytes max_channel_bytes
        → ch.total_bytes + bytes_passed (m ∷ ms) (v ∷ (client_messages ms next).1)
          ≤ max ch.total_bytes max_channel_bytes
    rest m ms ch next message_too_large (refused same) h = rw (sym same) h
    rest m ms ch next channel_byte_cap (capped over) h = omega (arith, over, h)
    rest m ms ch next (passed_on tx) (counted sum under short) h = omega (arith, sum, under, h)

-- No message that is passed on is larger than the limit of a message.
pub Small : List Sent → List Verdict → Type 0
Small (m ∷ ms) (passed_on tx ∷ vs) = (m.len ≤ max_message_bytes) × Small ms vs
Small (m ∷ ms) (message_too_large ∷ vs) = Small ms vs
Small (m ∷ ms) (channel_byte_cap ∷ vs) = Small ms vs
Small [] vs = Unit
Small (m ∷ ms) [] = Unit

all-Small : (ms : List Sent) (ch : Channel) → Small ms (client_messages ms ch).1
unfolding client_messages Small
all-Small [] ch = tt
all-Small (m ∷ ms) ch =
    let step = client_message m.now m.slot m.len ch in
    first m ms (client_messages ms step.0).1 step.1 (went m.now m.slot m.len ch)
      (all-Small ms step.0)
  where
    first :
        (m : Sent) (ms : List Sent) (vs : List Verdict) {ch next : Channel} (v : Verdict)
        → Went m.len ch next v
        → Small ms vs
        → Small (m ∷ ms) (v ∷ vs)
    first m ms vs message_too_large w h = h
    first m ms vs channel_byte_cap w h = h
    first m ms vs (passed_on tx) (counted sum under short) h = (short, h)

-- However the messages of its clients interleave, a channel that starts with no bytes passes on at
-- most 8192 bytes in all, in messages of at most 1024 bytes each.
pub client_messages_bound :
    (now : ℕ) (ms : List Sent)
    → (bytes_passed ms (client_messages ms (new now)).1 ≤ max_channel_bytes)
      × Small ms (client_messages ms (new now)).1
unfolding new
client_messages_bound now ms = (omega (arith, bound ms (new now)), all-Small ms (new now))
