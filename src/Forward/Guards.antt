-- ===== src/Forward/Guards.antt =====
-- Which packets are taken for HTTP, and which of their bytes.
use uaflow.Prelude.{ℕ, ◌+◌, ◌*◌, ◌<◌, ◌≡◌, bit_and}
use uaflow.Forward.{
  Frame, Sizes, Segment, ether_type_ipv4, ether_type_ipv6, ipproto_tcp, ipv4_hdr_ihl_mask,
}

-- The length of the IPv4 header, options included.
abbrev pub ihl : Sizes → Frame → ℕ
ihl size f = bit_and (f.ipv4_at size.ether_hdr).version_ihl ipv4_hdr_ihl_mask * 4

-- The frame says that it is TCP over IPv4, and has data behind the two headers.
pub record CarriesV4 (size : Sizes) (f : Frame) : Type 0 where
  pub ether : f.ether_type ≡ ether_type_ipv4
  pub proto : (f.ipv4_at size.ether_hdr).next_proto_id ≡ ipproto_tcp
  pub payload : ihl size f + size.tcp_hdr < (f.ipv4_at size.ether_hdr).total_length

pub record CarriesV6 (size : Sizes) (f : Frame) : Type 0 where
  pub ether : f.ether_type ≡ ether_type_ipv6
  pub proto : (f.ipv6_at size.ether_hdr).proto ≡ ipproto_tcp
  pub payload : size.ipv6_hdr + size.tcp_hdr < (f.ipv6_at size.ether_hdr).payload_len

module _ (size : Sizes) (f : Frame) where
  -- The data of a packet over IPv4 begins one TCP header behind the IPv4 header, is not empty, and
  -- ends where the packet ends.
  pub record SegmentV4 (s : Segment) : Type 0 where
    pub begins : s.tcp_hdr ≡ size.ether_hdr + ihl size f + size.tcp_hdr
    pub some_data : 0 < s.length
    pub ends : s.tcp_hdr + s.length ≡ size.ether_hdr + (f.ipv4_at size.ether_hdr).total_length

  -- The data of a packet over IPv6 begins one TCP header behind the IPv6 header, is not empty, and
  -- ends short of the packet's end by the length of the IPv6 header.
  pub record SegmentV6 (s : Segment) : Type 0 where
    pub begins : s.tcp_hdr ≡ size.ether_hdr + size.ipv6_hdr + size.tcp_hdr
    pub some_data : 0 < s.length
    pub short :
        s.tcp_hdr + s.length + size.ipv6_hdr
        ≡ size.ether_hdr + size.ipv6_hdr + (f.ipv6_at size.ether_hdr).payload_len
