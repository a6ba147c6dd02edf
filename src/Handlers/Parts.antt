-- ===== src/Handlers/Parts.antt =====
-- A transmit of src/handlers/sctp.rs that is split into its contents.
use sfu.Prelude.{ℕ, ◌≡◌, refl, ap, List, In, [], ◌∷◌, map, In-map_inv, nat_eq, flat_map}
use sfu.Crates.{Crates, SctpTransmit, Payload, raw_encode, partial_decode}
use sfu.Types.{SocketAddr, tuple_eq}
use sfu.Handlers.Sctp.{outbound, split_transmit, single}

module _ {c : Crates} where
  outbound_parts :
      (local : SocketAddr) (x : SctpTransmit) (contents : List (List ℕ))
      → flat_map (outbound {c = c} local) (map (single x) contents)
        ≡ outbound local (record x { payload = raw_encode contents })
  unfolding outbound
  outbound_parts local x [] = refl
  outbound_parts local x (content ∷ contents) = rw (outbound_parts local x contents) refl

  -- What a transmit adds to the queue is the same whether it is split or not, in the order of its
  -- contents; a part has one content.
  outbound-split_transmit :
      (local : SocketAddr) (x : SctpTransmit)
      → (flat_map (outbound {c = c} local) (split_transmit x) ≡ outbound local x)
        × ((part : SctpTransmit)
            → In part (split_transmit x)
            → (content : List ℕ) × (part.payload ≡ raw_encode (content ∷ [])))
  unfolding split_transmit outbound
  outbound-split_transmit local x = by_payload x.payload refl
    where
      by_payload :
          (p : Payload)
          → x.payload ≡ p
          → (flat_map (outbound {c = c} local) (split_transmit x) ≡ outbound local x)
            × ((part : SctpTransmit)
                → In part (split_transmit x)
                → (content : List ℕ) × (part.payload ≡ raw_encode (content ∷ [])))
      by_payload (raw_encode contents) h = (
        rw (split_transmit, h) (outbound_parts local x contents),
        λ part i.
            let (content, _, e) =
              In-map_inv (single x) part contents (rw (split_transmit, h) at i) in
            (content, ap (λ (y : SctpTransmit). y.payload) e),
      )
      by_payload partial_decode h =
          (rw (split_transmit, outbound, h) refl, λ part i. elim (rw (split_transmit, h) at i) [ ])
