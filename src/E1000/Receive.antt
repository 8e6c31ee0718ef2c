-- ===== src/E1000/Receive.antt =====
-- `receive_packet` takes what the card has written and gives the descriptor back.
use crab_os.Prelude.{
  ℕ, ◌+◌, ◌-◌, ◌%◌, ◌≤◌, ◌<◌, ◌≡◌, refl, sym, ◌∙◌, ap, ◌⊎◌, inl, inr, true, false, Bool-cases,
  Option, none, some, List, length, take, set, get_elem?, get_elem?_of_lt, get_elem?-set_self,
  length-set, store-eq_some, slice-eq_some, All, All-get_elem?, has_bit, arith,
}
use crab_os.E1000.{
  E1000, RxDescriptor, ring_size, packet_size, is_good, packet_of, take_packet, receive_packet,
}

abbrev pub FullBuffer : List ℕ → Type 0
FullBuffer b = length b ≡ packet_size

-- Eight descriptors and buffers on each side.
pub record IsValid (e : E1000) : Type 0 where
  pub rx : length e.dma.rx ≡ ring_size
  pub tx : length e.dma.tx ≡ ring_size
  pub rx_packets : length e.dma.rx_packets ≡ ring_size
  pub tx_packets : length e.dma.tx_packets ≡ ring_size
  pub rx_full : All FullBuffer e.dma.rx_packets
  pub tx_full : All FullBuffer e.dma.tx_packets
  pub rx_next : e.rx_next < ring_size
  pub tx_next : e.tx_next < ring_size

-- The descriptor at the place of the ring is the card's again, its tail says so, and the next one is
-- up. A packet is given where the descriptor is good: the bytes of the buffer that it says.
pub record Takes (e : E1000) (d : RxDescriptor) (result : Option (E1000 × Option (List ℕ)))
    : Type 0 where
  pub after : E1000
  pub packet : Option (List ℕ)
  pub buffer : List ℕ
  pub returns : result ≡ some (after, packet)
  pub at_place : get_elem? e.dma.rx_packets e.rx_next ≡ some buffer
  pub given_back : get_elem? after.dma.rx e.rx_next ≡ some (record d { status = 0 })
  pub tail : after.rx_tail ≡ e.rx_next
  pub next : after.rx_next ≡ (e.rx_next + 1) % ring_size
  pub good : is_good d ≡ true → packet ≡ some (take d.length buffer)
  pub bad : is_good d ≡ false → packet ≡ none
  pub valid : IsValid after

packet_of-cases :
    (d : RxDescriptor) (buffer : List ℕ)
    → FullBuffer buffer
    → (packet : Option (List ℕ)) × (packet_of d buffer ≡ some packet)
      × (is_good d ≡ true → packet ≡ some (take d.length buffer))
      × (is_good d ≡ false → packet ≡ none)
packet_of-cases d buffer full = elim (Bool-cases (is_good d)) [
  | inl g ↦
      let short : d.length ≤ length buffer = ground arith in
      let whole : d.length - 0 ≡ d.length = omega arith in
      (
        some (take d.length buffer),
        rw g (
            rw (slice-eq_some buffer 0 d.length (omega arith) short)
              (ap (λ (n : ℕ). some (some (take n buffer))) whole)),
        λ _. refl,
        λ f. absurd (let q : true ≡ false = sym g ∙ f in cc),
      )
  | inr g ↦ (none, rw g refl, λ t. absurd (let q : true ≡ false = sym t ∙ g in cc), λ _. refl)
]

take_packet-Takes :
    (e : E1000) (d : RxDescriptor)
    → IsValid e
    → get_elem? e.dma.rx e.rx_next ≡ some d
    → Takes e d (take_packet e d)
unfolding take_packet
take_packet-Takes e d v at =
    let index = e.rx_next in
    let n = v.rx_next in
    let sizes = v.rx in
    let buffers = v.rx_packets in
    let inside : index < length e.dma.rx = omega arith in
    let (buffer, b) = get_elem?_of_lt e.dma.rx_packets index (omega arith) in
    let full = All-get_elem? FullBuffer e.dma.rx_packets index buffer v.rx_full b in
    let (packet, p, good, bad) = packet_of-cases d buffer full in
    let back : RxDescriptor = record d { status = 0 } in
    record {
      after = record e {
        dma = record (e.dma) { rx = set e.dma.rx index back };
        rx_tail = index;
        rx_next = (index + 1) % ring_size;
      };
      packet = packet;
      buffer = buffer;
      returns = rw b (rw p (rw (store-eq_some e.dma.rx index back inside) refl));
      at_place = b;
      given_back = get_elem?-set_self e.dma.rx index back inside;
      tail = refl;
      next = refl;
      good = good;
      bad = bad;
      valid = record {
        rx = length-set e.dma.rx index back ∙ v.rx;
        tx = v.tx;
        rx_packets = v.rx_packets;
        tx_packets = v.tx_packets;
        rx_full = v.rx_full;
        tx_full = v.tx_full;
        rx_next = omega arith;
        tx_next = v.tx_next;
      };
    }

-- On valid rings `receive_packet` never panics. Where the card has not written the next descriptor it
-- changes nothing; otherwise the descriptor goes back to the card with the ring's tail, whether its
-- packet is whole or not, and the packet's bytes are returned if it is.
pub receive_packet-Takes :
    (e : E1000)
    → IsValid e
    → (d : RxDescriptor) × (get_elem? e.dma.rx e.rx_next ≡ some d)
      × (((has_bit 0 d.status ≡ false) × (receive_packet e ≡ some (e, none)))
          ⊎ ((has_bit 0 d.status ≡ true) × Takes e d (receive_packet e)))
unfolding receive_packet
receive_packet-Takes e v =
    let (d, at) =
      get_elem?_of_lt e.dma.rx e.rx_next (let s = v.rx in let n = v.rx_next in omega arith) in
    (
      d,
      at,
      elim (Bool-cases (has_bit 0 d.status)) [
        | inr f ↦ inl (f, rw at (rw f refl))
        | inl t ↦ inr (t, rw at (rw t (take_packet-Takes e d v at)))
      ],
    )
