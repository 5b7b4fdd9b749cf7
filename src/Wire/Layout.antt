-- ===== src/Wire/Layout.antt =====
-- The structures of lab4/common/pkt.h and seg.h, and their bytes in memory: `send` is given the
-- address of a structure, and a receiver copies the bytes back. Integers are little-endian, as on
-- the machines the labs name; no structure here has padding.
use cs.Base.{ℕ, ◌+◌, ◌*◌, ◌/◌, ◌%◌, ◌<◌, ◌≡◌, List, ◌∷◌, length, get_or, drop, replicate, arith}

-- typedef struct mnpheader
pub record MnpHeader : Type 0 where
  pub src_node : ℕ
  pub dest_node : ℕ
  pub length : ℕ
  pub type : ℕ

-- typedef struct packet, whose array `data` is `payload`
pub record Packet : Type 0 where
  pub header : MnpHeader
  pub payload : List ℕ

-- typedef struct sendPktArgument
pub record SendPacketArg : Type 0 where
  pub next_node : ℕ
  pub packet : Packet

-- typedef struct mrt_hdr
pub record MrtHeader : Type 0 where
  pub src_port : ℕ
  pub dest_port : ℕ
  pub seq_num : ℕ
  pub ack_num : ℕ
  pub length : ℕ
  pub type : ℕ
  pub rcv_win : ℕ
  pub checksum : ℕ

-- typedef struct segment
pub record Segment : Type 0 where
  pub header : MrtHeader
  pub payload : List ℕ

-- typedef struct sendsegargument
pub record SendSegmentArg : Type 0 where
  pub node : ℕ
  pub segment : Segment

abbrev pub max_seg_len : ℕ
max_seg_len = 1464

abbrev pub max_pkt_len : ℕ
max_pkt_len = 1488

-- The segment types of seg.h.
abbrev pub syn : ℕ
syn = 0

abbrev pub synack : ℕ
synack = 1

abbrev pub fin : ℕ
fin = 2

abbrev pub finack : ℕ
finack = 3

abbrev pub data_segment : ℕ
data_segment = 4

abbrev pub dataack : ℕ
dataack = 5

-- `memset(&seg, 0, sizeof(seg))`, with the fields that every control segment sets.
unfoldable pub control_segment : ℕ → ℕ → ℕ → ℕ → Segment
control_segment type src_port dest_port ack_num = record {
  header = record {
    src_port = src_port;
    dest_port = dest_port;
    seq_num = 0;
    ack_num = ack_num;
    length = 0;
    type = type;
    rcv_win = 0;
    checksum = 0;
  };
  payload = replicate 1464 0;
}

-- The bytes of an `unsigned int` and of an `unsigned short`, in front of others.
abbrev pub put4 : ℕ → List ℕ → List ℕ
put4 n rest = n % 256 ∷ n / 256 % 256 ∷ n / 65536 % 256 ∷ n / 16777216 % 256 ∷ rest

abbrev pub put2 : ℕ → List ℕ → List ℕ
put2 n rest = n % 256 ∷ n / 256 % 256 ∷ rest

-- The integers at an offset.
abbrev pub get4 : List ℕ → ℕ → ℕ
get4 bs o =
    get_or bs o 0
    + 256 * get_or bs (o + 1) 0
    + 65536 * get_or bs (o + 2) 0
    + 16777216 * get_or bs (o + 3) 0

abbrev pub get2 : List ℕ → ℕ → ℕ
get2 bs o = get_or bs o 0 + 256 * get_or bs (o + 1) 0

unfoldable pub encode_packet : Packet → List ℕ
encode_packet p =
    put4 p.header.src_node
      (put4 p.header.dest_node (put2 p.header.length (put2 p.header.type p.payload)))

unfoldable pub decode_packet : List ℕ → Packet
decode_packet bs = record {
  header = record {
    src_node = get4 bs 0;
    dest_node = get4 bs 4;
    length = get2 bs 8;
    type = get2 bs 10;
  };
  payload = drop 12 bs;
}

unfoldable pub encode_packet_arg : SendPacketArg → List ℕ
encode_packet_arg a = put4 a.next_node (encode_packet a.packet)

unfoldable pub decode_packet_arg : List ℕ → SendPacketArg
decode_packet_arg bs = record { next_node = get4 bs 0; packet = decode_packet (drop 4 bs) }

unfoldable pub encode_segment : Segment → List ℕ
encode_segment s = put4 s.header.src_port (
    put4 s.header.dest_port (
      put4 s.header.seq_num (
        put4 s.header.ack_num (
          put2 s.header.length
            (put2 s.header.type (put2 s.header.rcv_win (put2 s.header.checksum s.payload)))))))

unfoldable pub decode_segment : List ℕ → Segment
decode_segment bs = record {
  header = record {
    src_port = get4 bs 0;
    dest_port = get4 bs 4;
    seq_num = get4 bs 8;
    ack_num = get4 bs 12;
    length = get2 bs 16;
    type = get2 bs 18;
    rcv_win = get2 bs 20;
    checksum = get2 bs 22;
  };
  payload = drop 24 bs;
}

unfoldable pub encode_segment_arg : SendSegmentArg → List ℕ
encode_segment_arg a = put4 a.node (encode_segment a.segment)

unfoldable pub decode_segment_arg : List ℕ → SendSegmentArg
decode_segment_arg bs = record { node = get4 bs 0; segment = decode_segment (drop 4 bs) }

-- Each field fits its C type, and the array has its declared length.
pub record IsPacket (p : Packet) : Type 0 where
  pub src_fits : p.header.src_node < 4294967296
  pub dest_fits : p.header.dest_node < 4294967296
  pub length_fits : p.header.length < 65536
  pub type_fits : p.header.type < 65536
  pub payload_len : length p.payload ≡ max_pkt_len

pub record IsSegment (s : Segment) : Type 0 where
  pub src_fits : s.header.src_port < 4294967296
  pub dest_fits : s.header.dest_port < 4294967296
  pub seq_fits : s.header.seq_num < 4294967296
  pub ack_fits : s.header.ack_num < 4294967296
  pub length_fits : s.header.length < 65536
  pub type_fits : s.header.type < 65536
  pub rcv_win_fits : s.header.rcv_win < 65536
  pub checksum_fits : s.header.checksum < 65536
  pub payload_len : length s.payload ≡ max_seg_len

pub get4-put4 : (n : ℕ) (rest : List ℕ) → n < 4294967296 → get4 (put4 n rest) 0 ≡ n
get4-put4 n rest h = omega arith

pub decode-encode_packet : (p : Packet) → IsPacket p → decode_packet (encode_packet p) ≡ p
unfolding encode_packet decode_packet
decode-encode_packet p h = ground arith

pub decode-encode_packet_arg :
    (a : SendPacketArg)
    → a.next_node < 4294967296
    → IsPacket a.packet
    → decode_packet_arg (encode_packet_arg a) ≡ a
unfolding encode_packet_arg decode_packet_arg
decode-encode_packet_arg a n h = ground (arith, decode-encode_packet a.packet h)

pub decode-encode_segment : (s : Segment) → IsSegment s → decode_segment (encode_segment s) ≡ s
unfolding encode_segment decode_segment
decode-encode_segment s h = ground arith

pub decode-encode_segment_arg :
    (a : SendSegmentArg)
    → a.node < 4294967296
    → IsSegment a.segment
    → decode_segment_arg (encode_segment_arg a) ≡ a
unfolding encode_segment_arg decode_segment_arg
decode-encode_segment_arg a n h = ground (arith, decode-encode_segment a.segment h)

pub length-encode_packet_arg :
    (a : SendPacketArg) → IsPacket a.packet → length (encode_packet_arg a) ≡ 1504
unfolding encode_packet_arg encode_packet
length-encode_packet_arg a h = omega arith

pub length-encode_packet : (p : Packet) → IsPacket p → length (encode_packet p) ≡ 1500
unfolding encode_packet
length-encode_packet p h = omega arith

pub length-encode_segment_arg :
    (a : SendSegmentArg) → IsSegment a.segment → length (encode_segment_arg a) ≡ 1492
unfolding encode_segment_arg encode_segment
length-encode_segment_arg a h = omega arith

pub length-encode_segment : (s : Segment) → IsSegment s → length (encode_segment s) ≡ 1488
unfolding encode_segment
length-encode_segment s h = omega (arith, h.payload_len)
