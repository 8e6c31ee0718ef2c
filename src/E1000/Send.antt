-- ===== src/E1000/Send.antt =====
-- `send_packet` puts a packet in the next buffer, or drops it.
use crab_os.Prelude.{
  ℕ, ◌+◌, ◌%◌, ◌^◌, ◌≤◌, ◌<◌, ◌≡◌, refl, ◌∙◌, ap, ◌⊎◌, inl, inr, true, false, Bool-cases, Option,
  some, List, [], ◌∷◌, ◌++◌, length, take, drop, length-append, length-drop, set, get_elem?,
  get_elem?_of_lt, get_elem?-set_self, length-set, store-eq_some, All-get_elem?, All-set, ltb,
  ltb→lt, le→leb, has_bit, arith,
}
use crab_os.E1000.{E1000, TxDescriptor, ring_size, packet_size, put_packet, send_packet}
use crab_os.E1000.Receive.{IsValid, FullBuffer}

-- The packet is at the start of the buffer, and the descriptor, which says its length, is the card's.
pub record Puts (e : E1000) (d : TxDescriptor) (packet : List ℕ) (result : Option E1000)
    : Type 0 where
  pub after : E1000
  pub buffer : List ℕ
  pub returns : result ≡ some after
  pub at_place : get_elem? after.dma.tx_packets e.tx_next ≡ some buffer
  pub bytes : take (length packet) buffer ≡ packet
  pub handed :
      get_elem? after.dma.tx e.tx_next
      ≡ some (record d { length = length packet; command = 11; status = 0 })
  pub next : after.tx_next ≡ (e.tx_next + 1) % ring_size
  pub tail : after.tx_tail ≡ after.tx_next
  pub valid : IsValid after

take_all : (xs ys : List ℕ) → take (length xs) (xs ++ ys) ≡ xs
take_all [] ys = refl
take_all (x ∷ xs) ys = ap (λ (zs : List ℕ). x ∷ zs) (take_all xs ys)

put_packet-Puts :
    (e : E1000) (d : TxDescriptor) (packet : List ℕ)
    → IsValid e
    → length packet ≤ packet_size
    → Puts e d packet (put_packet e d packet)
unfolding put_packet
put_packet-Puts e d packet v short =
    let index = e.tx_next in
    let n = v.tx_next in
    let sizes = v.tx in
    let buffers = v.tx_packets in
    let (old, b) = get_elem?_of_lt e.dma.tx_packets index (omega arith) in
    let full = All-get_elem? FullBuffer e.dma.tx_packets index old v.tx_full b in
    let new = packet ++ drop (length packet) old in
    let fits : length packet ≤ length old = omega arith in
    let whole : FullBuffer new =
      omega
        (arith, length-append packet (drop (length packet) old), length-drop (length packet) old) in
    let handed : TxDescriptor = record d { length = length packet; command = 11; status = 0 } in
    let small : length packet % 2 ^ 16 ≡ length packet = omega arith in
    let in_buffers : index < length e.dma.tx_packets = omega arith in
    let in_ring : index < length e.dma.tx = omega arith in
    record {
      after = record e {
        dma = record (e.dma) {
          tx_packets = set e.dma.tx_packets index new;
          tx = set e.dma.tx index handed;
        };
        tx_next = (index + 1) % ring_size;
        tx_tail = (index + 1) % ring_size;
      };
      buffer = new;
      returns = rw b (
          rw (le→leb (length packet) (length old) fits) (
            rw (store-eq_some e.dma.tx_packets index new in_buffers)
              (rw small (rw (store-eq_some e.dma.tx index handed in_ring) refl))));
      at_place = get_elem?-set_self e.dma.tx_packets index new in_buffers;
      bytes = take_all packet (drop (length packet) old);
      handed = get_elem?-set_self e.dma.tx index handed in_ring;
      next = refl;
      tail = refl;
      valid = record {
        rx = v.rx;
        tx = length-set e.dma.tx index handed ∙ v.tx;
        rx_packets = v.rx_packets;
        tx_packets = length-set e.dma.tx_packets index new ∙ v.tx_packets;
        rx_full = v.rx_full;
        tx_full = All-set FullBuffer e.dma.tx_packets index new v.tx_full whole;
        rx_next = v.rx_next;
        tx_next = omega arith;
      };
    }

-- On valid rings `send_packet` never panics. A packet that is longer than a buffer, or comes when the
-- card still has the next descriptor, is dropped and nothing changes; any other one is handed over.
pub send_packet-Puts :
    (e : E1000) (packet : List ℕ)
    → IsValid e
    → (d : TxDescriptor) × (get_elem? e.dma.tx e.tx_next ≡ some d)
      × (((send_packet e packet ≡ some e)
            × ((packet_size < length packet) ⊎ (has_bit 0 d.status ≡ false)))
          ⊎ ((length packet ≤ packet_size)
              × (has_bit 0 d.status ≡ true)
              × Puts e d packet (send_packet e packet)))
unfolding send_packet
send_packet-Puts e packet v =
    let (d, at) =
      get_elem?_of_lt e.dma.tx e.tx_next (let s = v.tx in let n = v.tx_next in omega arith) in
    (
      d,
      at,
      elim (Bool-cases (ltb packet_size (length packet))) [
        | inl long ↦ inl (rw long refl, inl (ltb→lt _ _ long))
        | inr short ↦ elim (Bool-cases (has_bit 0 d.status)) [
          | inr f ↦ inl (rw short (rw at (rw f refl)), inr f)
          | inl t ↦
              let fits : length packet ≤ packet_size = ground arith in
              inr (fits, t, rw short (rw at (rw t (put_packet-Puts e d packet v fits))))
        ]
      ],
    )
