-- ===== src/Examples/Routing.antt =====
-- The theorems on forwarding, removal and the sweep of idle transports, on the session of `Examples`.
use sfu.Prelude.{ℕ, ◌≡◌, refl, ◌≢◌, ◌↔◌, List, In, inl, inr, arith, ◌<◌, ◌-◌, some, ap}
use sfu.Prelude.HashMap.{get, remove}
use sfu.Prelude.Results.{Error, ok, err, transport_not_found}
use sfu.Types.{FourTuple, TransportContext, EndpointId, four_tuple}
use sfu.Messages.{TaggedMessageEvent, rtp, RtpMessageEvent}
use sfu.Endpoint.{keep_alive, Endpoint, Transport}
use sfu.States.{find_endpoint, get_transport, update_transport, remove_transport}
use sfu.States.Routes.{Leads}
use sfu.States.Removal.{
  remove_transport-Leads, remove_transport_gone, remove_transport_leaves_route,
}
use sfu.Gateway.{forward, handle_timeout}
use sfu.Gateway.Forward.{IsPeer, forward_reaches_peers}
use sfu.Gateway.Binding.{add_endpoint}
use sfu.Gateway.Joining.{nomination_spares}
use sfu.Gateway.Sweep.{handle_timeout_removes}
use sfu.Gateway.Timeout.{IsRecent, handle_timeout_spares}
use sfu.Examples.{
  nomination, candidate, crates, context, tuple, transport, endpoint, session, states,
  session_with_two, endpoint_with_two, states_with_two, gateway,
}

abbrev route_20 : Leads (tuple 20) states 1 7 (transport 20 7)
unfolding get
route_20 = record {
  session = session;
  endpoint = endpoint 20 7;
  routed = refl;
  in_sessions = refl;
  in_session = refl;
  in_endpoint = refl;
}

abbrev route_of_two : Leads (tuple 20) states_with_two 1 7 (transport 20 7)
unfolding get
route_of_two = record {
  session = session_with_two;
  endpoint = endpoint_with_two;
  routed = refl;
  in_sessions = refl;
  in_session = refl;
  in_endpoint = refl;
}

other : tuple 30 ≢ tuple 20
other e = ground (arith, ap (λ (x : FourTuple). x.peer_addr.ip) e)

active_at :
    (n : ℕ) (eid : EndpointId) (z : FourTuple × Transport crates)
    → In z (endpoint n eid).transports
    → 100 - 30 < z.1.last_activity
active_at n eid z (inl g) = rw g (omega arith)
active_at n eid z (inr i) = elim i [ ]

active_in_session :
    (y : EndpointId × Endpoint crates) (z : FourTuple × Transport crates)
    → In y session.endpoints
    → In z y.1.transports
    → 100 - 30 < z.1.last_activity
active_in_session y z (inl f) k = active_at 20 7 z (rw f at k)
active_in_session y z (inr (inl f)) k = active_at 30 8 z (rw f at k)
active_in_session y z (inr (inr i)) k = elim i [ ]

active_20 : IsRecent (100 - 30) (tuple 20) states
active_20 x y z (inl e) i k same = active_in_session y z (rw e at i) k
active_20 x y z (inr i) j k same = elim i [ ]

abbrev packet : RtpMessageEvent crates
packet = RtpMessageEvent.packet 5

forward_reaches_peers_example :
    (messages : List (TaggedMessageEvent crates)) × (forward 100 99 (context 20) packet states
      ≡ (ok messages, update_transport 1 7 (tuple 20) (keep_alive 100) states))
    × ((m : TaggedMessageEvent crates)
        → In m messages ↔ (
            (to : TransportContext) × IsPeer (context 20) 7 route_20.session to
            × (m ≡ record { now = 99; transport = to; message = rtp packet })))
forward_reaches_peers_example =
    forward_reaches_peers 100 99 (context 20) packet states 1 7 (transport 20 7) route_20

remove_transport-Leads_example :
    Leads (tuple 20) (remove_transport (tuple 30) states) 1 7 (transport 20 7)
remove_transport-Leads_example =
    remove_transport-Leads (tuple 30) (tuple 20) states 1 7 (transport 20 7) other route_20

remove_transport_gone_example :
    (e : Error) × (get_transport (tuple 20) (remove_transport (tuple 20) states_with_two) ≡ err e)
remove_transport_gone_example = remove_transport_gone (tuple 20) states_with_two

remove_transport_leaves_route_example :
    (find_endpoint (tuple 20) (remove_transport (tuple 20) states_with_two) ≡ some (1, 7))
    × (get_transport (tuple 20) (remove_transport (tuple 20) states_with_two)
        ≡ err transport_not_found)
unfolding remove route_of_two
remove_transport_leaves_route_example =
    remove_transport_leaves_route (tuple 20) states_with_two 1 7 (transport 20 7) route_of_two refl

handle_timeout_spares_example :
    Leads (tuple 20) (handle_timeout 100 gateway).states 1 7 (transport 20 7)
handle_timeout_spares_example =
    handle_timeout_spares 100 gateway (tuple 20) 1 7 (transport 20 7) route_20 active_20

nomination_spares_example :
    Leads
      (tuple 20)
      (add_endpoint 95 nomination (candidate 9) (context 40) states).1
      1
      7
      (transport 20 7)
unfolding get
nomination_spares_example =
    nomination_spares 95 nomination (candidate 9) (context 40) (tuple 20) states session 1 7
      (transport 20 7) refl refl refl elsewhere route_20
  where
    elsewhere : four_tuple (context 40) ≢ tuple 20
    elsewhere e = ground (arith, ap (λ (x : FourTuple). x.peer_addr.ip) e)

handle_timeout_removes_example :
    (e : Error) × (get_transport (tuple 20) (handle_timeout 200 gateway).states ≡ err e)
handle_timeout_removes_example =
    handle_timeout_removes 200 gateway (tuple 20) 1 7 (transport 20 7) (omega arith) route_20 refl
      (omega arith)
