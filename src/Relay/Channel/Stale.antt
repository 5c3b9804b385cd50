-- ===== src/Relay/Channel/Stale.antt =====
-- A session of byo-relay/src/channel.rs that outlives its channel: `ChannelRegistry::leave` knows the
-- channel by its id, and the id may stand for another channel by then.
use wattcloud.Common.{ℕ, ◌+◌, ◌<◌, ◌≡◌, ap, ◌∙◌, not, false, none, some, ok, arith}
use wattcloud.Common.Bytes.{bytes_eq_inst}
use wattcloud.Common.Maps.{
  get, insert, get-insert_self, get-remove_self, get-retain_dropped, insert-IsUnique, IsUnique,
}
use wattcloud.Relay.Channel.{
  slot0, Channel, ChannelId, ChannelRegistry, new, set_sender, touch, is_idle_expired, first_empty,
  active_slots, join, leave, sweep_expired,
}
use wattcloud.Relay.Channel.Registry.{clients}

-- A client that joins where there is no channel.
module _ (now : ℕ) (id : ChannelId) (tx : ℕ) (r : ChannelRegistry)
    (h : get id r.channels ≡ none) where
  abbrev alone : Channel
  alone = touch now (set_sender slot0 (some tx) (new now))

  join-alone : join now id tx r ≡ (record { channels = insert id alone r.channels }, ok slot0)
  unfolding join new first_empty
  join-alone = rw (h, join, h)

  -- The only client leaves.
  leave-alone :
      clients id (leave id slot0 (record { channels = insert id alone r.channels })) ≡ (none, none)
  unfolding leave clients active_slots touch new
  leave-alone =
      rw (
        get-insert_self id alone r.channels,
        leave,
        get-remove_self id (insert id alone r.channels),
      )

-- Where a client's channel has been swept away and another client has joined under the same id, the
-- first client's `leave` throws the other one out: the relay then knows nobody in the channel.
pub leave-sweep_expired :
    (t0 t1 : ℕ) (id : ChannelId) (first second : ℕ) (r : ChannelRegistry)
    → IsUnique r.channels
    → get id r.channels ≡ none
    → t0 + 180 < t1
    → ((join t1 id second (sweep_expired t1 (join t0 id first r).0)).1 ≡ ok slot0)
      × (clients id (leave id slot0 (join t1 id second (sweep_expired t1 (join t0 id first r).0)).0)
          ≡ (none, none))
unfolding sweep_expired touch new is_idle_expired
leave-sweep_expired t0 t1 id first second r u h late =
    let one = alone t0 id first r h in
    let idle : not (is_idle_expired t1 one) ≡ false = ground (arith, late) in
    let swept : get id (sweep_expired t1 (join t0 id first r).0).channels ≡ none =
      rw (join-alone t0 id first r h) (
        get-retain_dropped (λ c. not (is_idle_expired t1 c)) id one (insert id one r.channels)
          (insert-IsUnique id one r.channels u) (get-insert_self id one r.channels) idle) in
    let again = sweep_expired t1 (join t0 id first r).0 in
    let joined = join-alone t1 id second again swept in
    (
      ap (λ x. x.1) joined,
      ap (λ x. clients id (leave id slot0 x.0)) joined ∙ leave-alone t1 id second again swept,
    )
