-- ===== src/Examples/Relays.antt =====
-- A relay with a channel, a refused address, a store of one share, and the downloads of a share.
use wattcloud.Common.{◌≤◌, ◌≡◌, refl, false, none, List, [], ◌∷◌, ok, err, any, All, arith}
use wattcloud.Common.Bytes.{bytes_eq_inst, bytes_eq}
use wattcloud.Common.Maps.{get, insert}
use wattcloud.Relay.Channel.{
  slot0, slot1, ChannelRegistry, new, join, leave, sweep_expired, channel_or_new, sender,
  first_empty, max_channel_bytes,
}
use wattcloud.Relay.Channel.Limits.{
  Sent, client_messages, client_messages_bound, bytes_passed, Small,
}
use wattcloud.Relay.Channel.Registry.{clients, leave-join}
use wattcloud.Relay.Channel.Stale.{leave-sweep_expired}
use wattcloud.Relay.IpFilter.{Ipv4Addr, v4, v6, is_ip_blocked}
use wattcloud.Relay.IpFilter.Blocks.{in_block, to_u32, blocked_blocks}
use wattcloud.Relay.IpFilter.Embedded.{mapped, six_to_four, is_ip_blocked-any}
use wattcloud.Relay.Store.{
  ShareStore, folder, not_found, mark_sealed, verify_bundle_token, set_bundle_token, create_share,
  record_blob, revoke_share,
}
use wattcloud.Relay.Store.Totals
use wattcloud.Relay.Store.Totals.{
  create_call, record_call, seal_call, token_call, revoke_call, delete_call, purge_call,
  IsConsistent,
}
use wattcloud.Relay.Store.Owned.{IsOwned, IsOther, calls-IsOwned}
use wattcloud.Relay.Store.Tokens.{verify_bundle_token-mark_sealed}
use wattcloud.RateLimit.Downloads.{
  Counter, fetch_add, drop_download, fresh, then_step, acquires, drops, IsCounted,
  reachable-IsCounted,
}

abbrev messages : List Sent
messages =
    record { now = 5; slot = slot0; len = 32 }
    ∷ record { now = 6; slot = slot1; len = 2000 }
    ∷ record { now = 7; slot = slot1; len = 92 }
    ∷ []

client_messages_bound_example :
    (bytes_passed messages (client_messages messages (new 4)).1 ≤ max_channel_bytes)
    × Small messages (client_messages messages (new 4)).1
client_messages_bound_example = client_messages_bound 4 messages

abbrev no_channels : ChannelRegistry
no_channels = record { channels = [] }

joined_first : (join 4 (1 ∷ []) 10 no_channels).1 ≡ ok slot0
unfolding join new first_empty get
joined_first = refl

leave-join_example :
    (sender (channel_or_new 4 (get (1 ∷ []) no_channels.channels)) slot0 ≡ none)
    × (clients (1 ∷ []) (leave (1 ∷ []) slot0 (join 4 (1 ∷ []) 10 no_channels).0)
        ≡ clients (1 ∷ []) no_channels)
leave-join_example = leave-join 4 (1 ∷ []) 10 no_channels slot0 (1 ∷ []) joined_first

nobody_there : get (1 ∷ []) no_channels.channels ≡ none
unfolding get
nobody_there = refl

leave-sweep_expired_example :
    ((join 300 (1 ∷ []) 11 (sweep_expired 300 (join 4 (1 ∷ []) 10 no_channels).0)).1 ≡ ok slot0)
    × (clients (1 ∷ []) (
          leave
            (1 ∷ [])
            slot0
            (join 300 (1 ∷ []) 11 (sweep_expired 300 (join 4 (1 ∷ []) 10 no_channels).0)).0)
        ≡ (none, none))
leave-sweep_expired_example =
    leave-sweep_expired 4 300 (1 ∷ []) 10 11 no_channels tt nobody_there (omega arith)

abbrev metadata_service : Ipv4Addr
metadata_service = record { a = 169; b = 254; c = 169; d = 254 }

is_ip_blocked-any_example :
    (is_ip_blocked (v4 metadata_service) ≡ any (in_block (to_u32 metadata_service)) blocked_blocks)
    × (is_ip_blocked (v6 (mapped metadata_service))
        ≡ any (in_block (to_u32 metadata_service)) blocked_blocks)
    × (is_ip_blocked (v6 (six_to_four metadata_service 0 0 0 0 1))
        ≡ any (in_block (to_u32 metadata_service)) blocked_blocks)
is_ip_blocked-any_example =
    is_ip_blocked-any metadata_service (omega arith) (omega arith) (omega arith) (omega arith) 0 0 0
      0 1

abbrev empty_store : ShareStore
empty_store = record { shares = []; blobs = [] }

empty-IsConsistent : IsConsistent empty_store
unfolding IsConsistent get
empty-IsConsistent id = refl

-- A folder of two blobs, of which one is sent twice.
abbrev uploads : List Totals.Call
uploads =
    create_call 100 (7 ∷ []) folder 9000 []
    ∷ token_call (7 ∷ []) (1 ∷ 2 ∷ [])
    ∷ record_call (7 ∷ []) (1 ∷ []) 50
    ∷ record_call (7 ∷ []) (2 ∷ []) 60
    ∷ record_call (7 ∷ []) (1 ∷ []) 55
    ∷ []

empty-IsOwned : IsOwned empty_store
unfolding IsOwned
empty-IsOwned = tt

calls-IsOwned_example :
    IsConsistent (Totals.calls uploads empty_store)
    × IsOwned (Totals.calls uploads empty_store)
    × All (IsOther (7 ∷ [])) (revoke_share (7 ∷ []) (Totals.calls uploads empty_store)).0.blobs
calls-IsOwned_example = calls-IsOwned uploads empty_store (7 ∷ []) empty-IsConsistent empty-IsOwned

uploaded_sealed : (mark_sealed (7 ∷ []) (Totals.calls uploads empty_store)).1 ≡ ok tt
unfolding mark_sealed Totals.calls Totals.call create_share set_bundle_token record_blob get insert
    bytes_eq
uploaded_sealed = refl

-- Among other calls an attempt to make the share again; then it is purged.
abbrev later : List Totals.Call
later =
    record_call (7 ∷ []) (3 ∷ []) 5
    ∷ create_call 150 (7 ∷ []) folder 9000 []
    ∷ revoke_call (7 ∷ [])
    ∷ []

abbrev last : List Totals.Call
last = purge_call ((7 ∷ []) ∷ []) ∷ delete_call (7 ∷ []) (2 ∷ []) ∷ []

verify_bundle_token-mark_sealed_example :
    let then =
      Totals.calls last
        (Totals.calls later (mark_sealed (7 ∷ []) (Totals.calls uploads empty_store)).0) in
    (verify_bundle_token (7 ∷ []) (1 ∷ 2 ∷ []) 200 then ≡ false)
    × ((set_bundle_token (7 ∷ []) (3 ∷ []) then).1 ≡ err not_found)
verify_bundle_token-mark_sealed_example =
    verify_bundle_token-mark_sealed (7 ∷ []) later last (Totals.calls uploads empty_store)
      (1 ∷ 2 ∷ []) (3 ∷ []) 200 uploaded_sealed (refl, (refl, (refl, tt))) (refl, (refl, tt))

abbrev idle_counter : Counter
idle_counter = record { value = 0; guards = 0; refused = 0 }

-- One download, one refusal, and the download ends.
abbrev after_three : Counter
after_three = drop_download (fetch_add 1 (fetch_add 1 idle_counter))

one_alive : 1 ≤ (fetch_add 1 (fetch_add 1 idle_counter)).guards
unfolding fetch_add
one_alive = omega arith

reachable-IsCounted_example : IsCounted 1 after_three
reachable-IsCounted_example =
    reachable-IsCounted 1 after_three
      (then_step (then_step (then_step fresh acquires) acquires) (drops one_alive))
