-- ===== src/E1000/Tests.antt =====
-- The driver before its first packet.
use crab_os.Prelude.{
  ℕ, ◌≤◌, ◌<◌, ◌≡◌, refl, ◌⊎◌, true, false, none, some, List, [], ◌∷◌, replicate, length-replicate,
  All-replicate, get_elem?, has_bit, arith,
}
use crab_os.E1000.{
  E1000, RxDescriptor, TxDescriptor, empty_rx, empty_tx, packet_size, receive_packet, send_packet,
}
use crab_os.E1000.Receive.{IsValid, FullBuffer, Takes, receive_packet-Takes}
use crab_os.E1000.Send.{Puts, send_packet-Puts}

abbrev buffers : List (List ℕ)
buffers = replicate 8 (replicate 2048 0)

abbrev card : E1000
card = record {
  dma = record {
    rx = record empty_rx { status = 3; length = 2 } ∷ replicate 7 empty_rx;
    tx = replicate 8 empty_tx;
    rx_packets = buffers;
    tx_packets = buffers;
  };
  rx_next = 0;
  tx_next = 0;
  rx_tail = 7;
  tx_tail = 0;
}

card-IsValid : IsValid card
card-IsValid = record {
  rx = refl;
  tx = refl;
  rx_packets = refl;
  tx_packets = refl;
  rx_full = All-replicate FullBuffer 8 (replicate 2048 0) (length-replicate {A = ℕ} 2048 0);
  tx_full = All-replicate FullBuffer 8 (replicate 2048 0) (length-replicate {A = ℕ} 2048 0);
  rx_next = omega arith;
  tx_next = omega arith;
}

receive_packet-Takes_example :
    (d : RxDescriptor) × (get_elem? card.dma.rx 0 ≡ some d)
    × (((has_bit 0 d.status ≡ false) × (receive_packet card ≡ some (card, none)))
        ⊎ ((has_bit 0 d.status ≡ true) × Takes card d (receive_packet card)))
receive_packet-Takes_example = receive_packet-Takes card card-IsValid

send_packet-Puts_example :
    (d : TxDescriptor) × (get_elem? card.dma.tx 0 ≡ some d)
    × (((send_packet card (7 ∷ 8 ∷ []) ≡ some card)
          × ((packet_size < 2) ⊎ (has_bit 0 d.status ≡ false)))
        ⊎ ((2 ≤ packet_size)
            × (has_bit 0 d.status ≡ true)
            × Puts card d (7 ∷ 8 ∷ []) (send_packet card (7 ∷ 8 ∷ []))))
send_packet-Puts_example = send_packet-Puts card (7 ∷ 8 ∷ []) card-IsValid
