-- ===== src/Tests/Select.antt =====
-- A router that listens for clients on channel 50: two come, the first goes, and the second is
-- chosen.
use pwrapi.Prelude.{
  ℕ, ◌≡◌, refl, Option, none, some, Bool, List, [], ◌∷◌, ◌==◌, if◌then◌else◌, arith,
}
use pwrapi.Channel.Wait.{wait, wait-least}
use pwrapi.Prelude.Map.{nat_eq, lookup, insert, erase}
use pwrapi.Router.Clients.{add_client_chan, del_client_chan, destroy_comms}
use pwrapi.Router.Select.{
  client_side, accepts, events, Routing, Input, accepted, hung_up, add_channel, add_fresh,
  del_channel, add_chan, del_chan, process_accept, process_closed, dispatch, process, work,
}
use pwrapi.Router.Select.Wired.{IsWired, work-IsWired}
use pwrapi.Tests.Sending.{plus, running}

abbrev listening : Routing
listening = record {
  router = record { state = running; clients = []; next_info = 0 };
  chan_map = (50, accepts client_side) ∷ [];
  closed = [];
}

abbrev served : Routing
served = record {
  router = record { state = running; clients = (61, []) ∷ []; next_info = 0 };
  chan_map = (50, accepts client_side) ∷ (61, events client_side) ∷ [];
  closed = 60 ∷ [];
}

abbrev comings : List (ℕ × Input)
comings = (50, accepted 60) ∷ (50, accepted 61) ∷ (60, hung_up) ∷ []

worked : work plus comings listening ≡ some served
unfolding work process dispatch process_accept process_closed add_channel add_fresh del_channel
    add_chan del_chan add_client_chan del_client_chan destroy_comms lookup insert erase
worked = refl

listening-IsWired : IsWired listening
unfolding lookup
listening-IsWired k = (λ h. absurd (ground (arith, h)), λ h. absurd (ground (arith, h.1)))

work-IsWired_example : IsWired served
work-IsWired_example = work-IsWired plus comings listening served listening-IsWired worked

-- The descriptors of the two channels.
abbrev descriptor : ℕ → Option ℕ
descriptor k = if k == 50 then some 4 else if k == 61 then some 7 else none

abbrev only_seven : ℕ → Bool
only_seven i = i == 7

wait-least_example : wait descriptor only_seven served.chan_map ≡ some (events client_side)
unfolding lookup
wait-least_example =
    wait-least descriptor only_seven served.chan_map 61 7 (events client_side) refl refl
      (λ k h. ground (arith, h)) refl (λ j less. ground (arith, less))
