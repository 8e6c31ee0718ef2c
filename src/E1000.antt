-- ===== src/E1000.antt =====
-- The rings of the network card's driver, src/net/e1000.rs. The card writes a descriptor's status
-- between two calls. `none` is a panic.
pub mod Receive
pub mod Send
mod Tests
use crab_os.Prelude.{
  ℕ, ◌+◌, ◌%◌, ◌^◌, Bool, not, ◌&&◌, Option, none, some, List, [], ◌∷◌, ◌++◌, length, drop,
  get_elem?, store, slice, leb, ltb, ◌==◌, if◌then◌else◌, has_bit, ◌>>=◌,
}

abbrev pub ring_size : ℕ
ring_size = 8

abbrev pub packet_size : ℕ
packet_size = 2048

pub record RxDescriptor : Type 0 where
  pub address : ℕ
  pub length : ℕ
  pub checksum : ℕ
  pub status : ℕ
  pub errors : ℕ
  pub special : ℕ

abbrev pub empty_rx : RxDescriptor
empty_rx = record { address = 0; length = 0; checksum = 0; status = 0; errors = 0; special = 0 }

pub record TxDescriptor : Type 0 where
  pub address : ℕ
  pub length : ℕ
  pub checksum_offset : ℕ
  pub command : ℕ
  pub status : ℕ
  pub checksum_start : ℕ
  pub special : ℕ

abbrev pub empty_tx : TxDescriptor
empty_tx = record {
  address = 0;
  length = 0;
  checksum_offset = 0;
  command = 0;
  status = 1;
  checksum_start = 0;
  special = 0;
}

pub record DmaState : Type 0 where
  pub rx : List RxDescriptor
  pub tx : List TxDescriptor
  pub rx_packets : List (List ℕ)
  pub tx_packets : List (List ℕ)

-- The driver, with the two registers that hold the tails of the rings, 0x2818 and 0x3818.
pub record E1000 : Type 0 where
  pub dma : DmaState
  pub rx_next : ℕ
  pub tx_next : ℕ
  pub rx_tail : ℕ
  pub tx_tail : ℕ

-- A whole packet without an error.
abbrev pub is_good : RxDescriptor → Bool
is_good d = has_bit 1 d.status && (d.errors == 0 && leb d.length packet_size)

abbrev pub packet_of : RxDescriptor → List ℕ → Option (Option (List ℕ))
packet_of d buffer =
    if is_good d then (slice buffer 0 d.length >>= λ bytes. some (some bytes)) else some none

-- The branch for a descriptor that the card has written.
unfoldable pub take_packet : E1000 → RxDescriptor → Option (E1000 × Option (List ℕ))
take_packet e d = do
  let index = e.rx_next
  buffer ← get_elem? e.dma.rx_packets index
  packet ← packet_of d buffer
  rx ← store e.dma.rx index (record d { status = 0 })
  some (
    record e {
      dma = record (e.dma) { rx = rx };
      rx_tail = index;
      rx_next = (index + 1) % ring_size;
    },
    packet,
  )

unfoldable pub receive_packet : E1000 → Option (E1000 × Option (List ℕ))
receive_packet e = do
  d ← get_elem? e.dma.rx e.rx_next
  let taken = take_packet e d
  if not (has_bit 0 d.status) then some (e, none) else taken

-- `buffer[..packet.len()].copy_from_slice(packet)`
abbrev pub copy_from_slice : List ℕ → List ℕ → Option (List ℕ)
copy_from_slice buffer packet =
    if leb (length packet) (length buffer)
    then some (packet ++ drop (length packet) buffer)
    else none

-- The branch for a descriptor that is free. The command is 1 | 2 | 8.
unfoldable pub put_packet : E1000 → TxDescriptor → List ℕ → Option E1000
put_packet e d packet = do
  let index = e.tx_next
  let next = (index + 1) % ring_size
  buffer ← get_elem? e.dma.tx_packets index
  bytes ← copy_from_slice buffer packet
  tx_packets ← store e.dma.tx_packets index bytes
  tx ← store e.dma.tx index (record d { length = length packet % 2 ^ 16; command = 11; status = 0 })
  some (record e {
    dma = record (e.dma) { tx_packets = tx_packets; tx = tx };
    tx_next = next;
    tx_tail = next;
  })

unfoldable pub send_packet : E1000 → List ℕ → Option E1000
send_packet e packet = if ltb packet_size (length packet) then some e else (do
  d ← get_elem? e.dma.tx e.tx_next
  let put = put_packet e d packet
  if not (has_bit 0 d.status) then some e else put)

unfoldable pub transmit_ready : E1000 → Option Bool
transmit_ready e = get_elem? e.dma.tx e.tx_next >>= λ d. some (has_bit 0 d.status)

-- `Device::receive`, without the tokens: no packet is taken where none could be sent.
unfoldable pub receive : E1000 → Option (E1000 × Option (List ℕ))
receive e = do
  ready ← transmit_ready e
  let received = receive_packet e
  if not ready then some (e, none) else received
