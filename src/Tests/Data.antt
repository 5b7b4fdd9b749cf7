-- ===== src/Tests/Data.antt =====
-- The inputs that the tests share: two hosts "ada" and "bob", with the node IDs 1 and 2, and a
-- third, "cyd", with the node ID 3.
use text.Mathlib.Text.{◌==◌ as str_eq}
use Prim.Native.String.{String}
use cs.Base.{
  ℕ, refl, List, [], ◌∷◌, Bool, true, if◌then◌else◌, length, replicate, length-replicate, some,
  arith, ◌++◌,
}
use cs.Wire.Layout.{Packet, IsPacket, Segment, IsSegment, SendSegmentArg, SendPacketArg}
use cs.Wire.Packets.RoundTrip.{Sends}
use cs.Topology.{Line, Site}

abbrev pub all_sent : ℕ → Bool
all_sent i = true

pub all_sent-Sends : Sends all_sent
all_sent-Sends = record { opens = refl; writes = refl; ends = refl }

-- A packet of three data bytes, one of them a '!'.
abbrev pub small_packet : Packet
small_packet = record {
  header = record { src_node = 1; dest_node = 2; length = 3; type = 2 };
  payload = 104 ∷ 105 ∷ 33 ∷ replicate 1485 0;
}

pub small_packet-IsPacket : IsPacket small_packet
small_packet-IsPacket = record {
  src_fits = omega arith;
  dest_fits = omega arith;
  length_fits = omega arith;
  type_fits = omega arith;
  payload_len = omega (arith, length-replicate {A = ℕ} 1485 0);
}

abbrev pub packet_arg : SendPacketArg
packet_arg = record { next_node = 2; packet = small_packet }

abbrev pub data_of : ℕ → ℕ → List ℕ → ℕ → Segment
data_of type seq_num front rest = record {
  header = record {
    src_port = 5;
    dest_port = 7;
    seq_num = seq_num;
    ack_num = 0;
    length = length front;
    type = type;
    rcv_win = 0;
    checksum = 0;
  };
  payload = front ++ replicate rest 0;
}

-- A DATA segment of two bytes.
abbrev pub two_bytes : Segment
two_bytes = data_of 4 0 (104 ∷ 105 ∷ []) 1462

pub two_bytes-IsSegment : IsSegment two_bytes
two_bytes-IsSegment = record {
  src_fits = omega arith;
  dest_fits = omega arith;
  seq_fits = omega arith;
  ack_fits = omega arith;
  length_fits = omega arith;
  type_fits = omega arith;
  rcv_win_fits = omega arith;
  checksum_fits = omega arith;
  payload_len = omega (arith, length-replicate {A = ℕ} 1462 0);
}

abbrev pub segment_arg : SendSegmentArg
segment_arg = record { node = 2; segment = two_bytes }

abbrev pub address_of : String → ℕ
address_of name = if str_eq name "ada" then 1 else if str_eq name "bob" then 2 else 3

abbrev pub link : Line
link = record { host1 = "ada"; host2 = "bob"; link_cost = 5 }

abbrev pub site_of : String → List Line → Site
site_of name lines = record {
  hostname = name;
  address_end = address_of;
  file = some lines;
  fresh = 0;
}

-- The two ends of one link.
abbrev pub ada : Site
ada = site_of "ada" (link ∷ [])

abbrev pub bob : Site
bob = site_of "bob" (link ∷ [])
