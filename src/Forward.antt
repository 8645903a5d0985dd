-- ===== src/Forward.antt =====
-- flow_forward/flow_forward.c: the receive loop of a worker and what it does with each packet. The
-- device, the headers as DPDK lays them over a packet, the HTTP parser and the detector are
-- parameters; a packet is the number of its buffer.
pub mod Guards
pub mod Conservation
pub mod Receive
use uaflow.Prelude.{
  ℕ, zero, suc, ◌+◌, ◌-◌, ◌*◌, ◌≡◌, Bool, true, false, ◌&&◌, not, Option, none, some, List, [], ◌∷◌,
  leb, ◌==◌, if◌then◌else◌, length, take, drop, bit_and,
}
use uaflow.Prelude.Int.{ℤ}
use uaflow.Dpdk.{max_pkt_burst}
use uaflow.Egress.{RingQueue, World, Device, send_pkt_default}
use uaflow.Ua.{Event, httphandle}

-- ETHER_TYPE_IPv4, ETHER_TYPE_IPv6, IPV4_HDR_IHL_MASK (DPDK) and FLOW_IPPROTO_TCP
abbrev pub ether_type_ipv4 : ℕ
ether_type_ipv4 = 0x0800

abbrev pub ether_type_ipv6 : ℕ
ether_type_ipv6 = 0x86dd

abbrev pub ipv4_hdr_ihl_mask : ℕ
ipv4_hdr_ihl_mask = 0x0f

abbrev pub ipproto_tcp : ℕ
ipproto_tcp = 6

-- PREFETCH_OFFSET
abbrev pub prefetch_offset : ℕ
prefetch_offset = 3

-- The fields that the code reads, 16-bit lengths and types in the host's byte order.
pub record Ipv4Hdr : Type 0 where
  pub next_proto_id : ℕ
  pub version_ihl : ℕ
  pub total_length : ℕ
  pub src_addr : ℕ

pub record Ipv6Hdr : Type 0 where
  pub proto : ℕ
  pub payload_len : ℕ
  pub src_addr : ℕ

pub record TcpHdr : Type 0 where
  pub src_port : ℕ
  pub tcp_flags : ℕ

-- A packet: the two flags of `ol_flags`, and the headers at an offset from its start. What is read
-- at an offset that is not a header's is whatever the bytes there make of it.
pub record Frame : Type 0 where
  pub rx_ipv4_hdr : Bool
  pub rx_ipv6_hdr : Bool
  pub ether_type : ℕ
  pub ipv4_at : ℕ → Ipv4Hdr
  pub ipv6_at : ℕ → Ipv6Hdr
  pub tcp_at : ℕ → TcpHdr

-- `sizeof` of the three headers of fixed length.
pub record Sizes : Type 0 where
  pub ether_hdr : ℕ
  pub ipv6_hdr : ℕ
  pub tcp_hdr : ℕ

-- What is handed to the detector and to the HTTP handler: the network header's offset, the pointer
-- `tcp_hdr` after it was advanced by one header, and the length of the data.
pub record Segment : Type 0 where
  pub ip : ℕ
  pub tcp_hdr : ℕ
  pub length : ℕ

module _ (size : Sizes) where
  -- The guards of `flow_forward_module_inside_ipv4_fwd_pkts`; `none` is the jump to `def` with a
  -- packet for the default port. (`rte_pktmbuf_mtod` yields no null pointer. Where the difference
  -- of the lengths is negative in the source it is 0 here, and the guard holds for both.)
  unfoldable pub ipv4_segment : Frame → Option Segment
  ipv4_segment f =
      let ip = f.ipv4_at size.ether_hdr in
      let ipv4_headerlen = bit_and ip.version_ihl ipv4_hdr_ihl_mask * 4 in
      let tcp_totlen = ip.total_length - ipv4_headerlen in
      if not (f.ether_type == ether_type_ipv4)
      then none
      else if not (ip.next_proto_id == ipproto_tcp)
      then none
      else if leb tcp_totlen size.tcp_hdr
      then none
      else some (record {
        ip = size.ether_hdr;
        tcp_hdr = size.ether_hdr + ipv4_headerlen + size.tcp_hdr;
        length = tcp_totlen - size.tcp_hdr;
      })

  -- The guards of `flow_forward_module_inside_ipv6_fwd_pkts`.
  unfoldable pub ipv6_segment : Frame → Option Segment
  ipv6_segment f =
      let ip = f.ipv6_at size.ether_hdr in
      let tcp_totlen = ip.payload_len - size.ipv6_hdr in
      if not (f.ether_type == ether_type_ipv6)
      then none
      else if not (ip.proto == ipproto_tcp)
      then none
      else if leb tcp_totlen size.tcp_hdr
      then none
      else some (record {
        ip = size.ether_hdr;
        tcp_hdr = size.ether_hdr + size.ipv6_hdr + size.tcp_hdr;
        length = tcp_totlen - size.tcp_hdr;
      })

-- The detector of flow_ddos/flow_ddos.c: its tables, and its verdicts, which are only printed.
pub record Detector : Type 1 where
  pub Tables : Type 0
  pub v4detect : Ipv4Hdr → TcpHdr → Tables → Tables × Bool
  pub v6detect : Ipv6Hdr → TcpHdr → Tables → Tables × Bool

-- What a worker's steps change: the detector's tables and where packets are. `alarms` counts the
-- lines that are printed.
module _ (q : RingQueue) (d : Detector) where
  pub record Core : Type 0 where
    pub tables : d.Tables
    pub alarms : ℕ
    pub world : World q

-- The surroundings of a worker: the device, the packets' contents, the callbacks that the parser
-- makes for a packet's data at an offset, and the search for a port.
pub record Env (q : RingQueue) : Type 0 where
  pub takes : Device q
  pub size : Sizes
  pub frame : ℕ → Frame
  pub parse : (packet offset length : ℕ) → List Event
  pub search : List ℕ → ℤ
  pub lcore_id : ℕ

module _ (q : RingQueue) (d : Detector) (env : Env q) where
  default : ℕ → Core q d → Core q d
  default p c = record c { world = send_pkt_default q env.takes p c.world }

  http : ℕ → Segment → Core q d → Core q d
  http p s c = record c {
    world =
        httphandle q env.takes env.search env.lcore_id p (env.parse p s.tcp_hdr s.length) c.world;
  }

  -- What a call of the detector leaves.
  observed : Core q d → d.Tables × Bool → Core q d
  observed c (t, alarm) = record c { tables = t; alarms = if alarm then c.alarms + 1 else c.alarms }

  -- The detector sees the packet where the bits 0xa of the flags at `tcp_hdr` are clear.
  detect_v4 : ℕ → Segment → Core q d → Core q d
  unfolding observed
  detect_v4 p s c =
      let tcp = (env.frame p).tcp_at s.tcp_hdr in
      if bit_and tcp.tcp_flags 0xa == 0
      then observed c (d.v4detect ((env.frame p).ipv4_at s.ip) tcp c.tables)
      else c

  detect_v6 : ℕ → Segment → Core q d → Core q d
  unfolding observed
  detect_v6 p s c =
      observed c (d.v6detect ((env.frame p).ipv6_at s.ip) ((env.frame p).tcp_at s.tcp_hdr) c.tables)

  -- `flow_forward_module_inside_ipv4_fwd_pkts`
  unfoldable pub ipv4_fwd_pkts : ℕ → Core q d → Core q d
  unfolding default http detect_v4
  ipv4_fwd_pkts p c = elim (ipv4_segment env.size (env.frame p)) [
    | none ↦ default p c
    | some s ↦ http p s (detect_v4 p s c)
  ]

  -- `flow_forward_module_inside_ipv6_fwd_pkts`
  unfoldable pub ipv6_fwd_pkts : ℕ → Core q d → Core q d
  unfolding default http detect_v6
  ipv6_fwd_pkts p c = elim (ipv6_segment env.size (env.frame p)) [
    | none ↦ default p c
    | some s ↦ http p s (detect_v6 p s c)
  ]

  -- `flow_forward_module_inside_forward`
  unfoldable pub inside_forward : ℕ → Core q d → Core q d
  unfolding ipv4_fwd_pkts ipv6_fwd_pkts
  inside_forward p c =
      if (env.frame p).rx_ipv4_hdr
      then ipv4_fwd_pkts p c
      else if (env.frame p).rx_ipv6_hdr
      then ipv6_fwd_pkts p c
      else default p c

  -- A loop over received packets.
  unfoldable pub forward_all : List ℕ → Core q d → Core q d
  forward_all [] c = c
  forward_all (p ∷ ps) c = forward_all ps (inside_forward p c)

  -- The two loops over a burst: up to PREFETCH_OFFSET before its end, and from there on. (The
  -- prefetches change nothing.)
  unfoldable pub forward_burst : List ℕ → Core q d → Core q d
  forward_burst burst c =
      let n = length burst - prefetch_offset in
      forward_all (drop n burst) (forward_all (take n burst) c)

  -- The loop of `flow_forward_module_forward` over the receive ports, with `left` rounds to go.
  -- `rx_burst idx queueid i` is the burst that the device delivers in round `i`.
  unfoldable pub receive_loop :
      (rx_burst : ℕ → ℕ → ℕ → List ℕ) → (idx queueid left i : ℕ) → Core q d → Core q d
  receive_loop rx_burst idx queueid zero i c = c
  receive_loop rx_burst idx queueid (suc left) i c =
      receive_loop rx_burst idx queueid left (i + 1)
        (forward_burst (take max_pkt_burst (rx_burst idx queueid i)) c)

  -- `flow_forward_module_forward`: `idx` is read once, from the first entry of the receive ports;
  -- `none` is the use of the null pointer that is there if there is none.
  unfoldable pub forward :
      (rx_burst : ℕ → ℕ → ℕ → List ℕ)
      → (rxidx : List ℕ) → (queueid : ℕ) → Core q d
      → Option (Core q d)
  forward rx_burst [] queueid c = none
  forward rx_burst (idx ∷ rest) queueid c =
      some (receive_loop rx_burst idx queueid (length (idx ∷ rest)) 0 c)
