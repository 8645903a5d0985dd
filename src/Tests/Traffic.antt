-- ===== src/Tests/Traffic.antt =====
-- The receive path, the user agent and the default sender on small inputs.
use uaflow.Prelude.{
  ℕ, ◌+◌, ◌≡◌, refl, true, false, some, List, [], ◌∷◌, arith, take, ◌==◌, if◌then◌else◌,
}
use uaflow.Prelude.CString.{text}
use uaflow.Prelude.Int.{pos}
use uaflow.Egress.Holdings.{held, count}
use uaflow.Ua.{
  Slice, Event, fresh, run, httphandle, message_begin, url, header_field, header_value,
  headers_complete, pattern_string,
}
use uaflow.Ua.Buffer.{IsTerminated, fresh-IsTerminated}
use uaflow.Ua.Fields.{without_fields, httphandle-without_fields}
use uaflow.Ua.Dispatch.{run-value, is_value}
use uaflow.Forward.{
  Frame, Sizes, Detector, Core, Env, ipv4_segment, ipv6_segment, inside_forward, forward_all,
  forward,
}
use uaflow.Forward.Conservation.{holds-inside_forward}
use uaflow.Forward.Receive.{forward-delivered, held-forward, delivered}
use uaflow.Tests.Instances.{small_ring, port_one, waiting}

abbrev sizes : Sizes
sizes = record { ether_hdr = 14; ipv6_hdr = 40; tcp_hdr = 20 }

-- A TCP segment over IPv4 with five bytes of data.
abbrev pub v4_frame : Frame
v4_frame = record {
  rx_ipv4_hdr = true;
  rx_ipv6_hdr = false;
  ether_type = 0x0800;
  ipv4_at = λ _. record { next_proto_id = 6; version_ihl = 0x45; total_length = 45; src_addr = 9 };
  ipv6_at = λ _. record { proto = 0; payload_len = 0; src_addr = 0 };
  tcp_at = λ _. record { src_port = 1000; tcp_flags = 0 };
}

-- The same over IPv6, with 50 bytes of data.
abbrev v6_frame : Frame
v6_frame = record v4_frame {
  rx_ipv4_hdr = false;
  rx_ipv6_hdr = true;
  ether_type = 0x86dd;
  ipv6_at = λ _. record { proto = 6; payload_len = 70; src_addr = 9 };
}

abbrev agent : List ℕ
agent = b'M' ∷ b'I' ∷ b'U' ∷ b'I' ∷ []

abbrev slice : List ℕ → ℕ → Slice
slice bytes n = record { at = some bytes; length = n }

abbrev request : List Event
request =
    message_begin
    ∷ url (slice (b'/' ∷ []) 1)
    ∷ header_field (slice pattern_string 10)
    ∷ header_value (slice agent 4)
    ∷ headers_complete
    ∷ []

abbrev pub quiet_detector : Detector
quiet_detector = record {
  Tables = Unit {0};
  v4detect = λ ip tcp t. (t, false);
  v6detect = λ ip tcp t. (t, false);
}

abbrev pub env : Env small_ring
env = record {
  takes = port_one;
  size = sizes;
  frame = λ p. if p == 6 then v6_frame else v4_frame;
  parse = λ p offset n. request;
  search = λ ua. pos 1;
  lcore_id = 1;
}

abbrev core : Core small_ring quiet_detector
core = record { tables = tt; alarms = 0; world = waiting }

abbrev bursts : ℕ → ℕ → ℕ → List ℕ
bursts idx queueid i = if idx == 0 then 4 ∷ 6 ∷ [] else 5 ∷ []

fresh-IsTerminated_example : IsTerminated (run fresh request)
fresh-IsTerminated_example = fresh-IsTerminated request

httphandle-without_fields_example :
    httphandle small_ring port_one (λ ua. pos 1) 1 4 request waiting
    ≡ httphandle small_ring port_one (λ ua. pos 1) 1 4 (without_fields request) waiting
httphandle-without_fields_example =
    httphandle-without_fields small_ring port_one (λ ua. pos 1) 1 4 request waiting

run-value_example :
    ((run fresh request).oncplt ≡ true) × (text (run fresh request).ua ≡ text (take 4 agent))
unfolding is_value
run-value_example =
    run-value
      (message_begin ∷ url (slice (b'/' ∷ []) 1) ∷ header_field (slice pattern_string 10) ∷ [])
      (headers_complete ∷ []) (slice agent 4) (refl, (refl, (refl, tt))) (refl, tt) refl
      (omega arith)

ipv4_segment_five :
    ipv4_segment sizes v4_frame ≡ some (record { ip = 14; tcp_hdr = 54; length = 5 })
unfolding ipv4_segment
ipv4_segment_five = refl

ipv6_segment_ten :
    ipv6_segment sizes v6_frame ≡ some (record { ip = 14; tcp_hdr = 74; length = 10 })
unfolding ipv6_segment
ipv6_segment_ten = refl

holds-inside_forward_example :
    held small_ring 4 (inside_forward small_ring quiet_detector env 4 core).world
    ≡ held small_ring 4 waiting + 1
holds-inside_forward_example = holds-inside_forward small_ring quiet_detector env 4 4 core

forward-delivered_example :
    forward small_ring quiet_detector env bursts (0 ∷ 1 ∷ []) 0 core
    ≡ some (forward_all small_ring quiet_detector env (delivered bursts 0 0 2 0) core)
forward-delivered_example = forward-delivered small_ring quiet_detector env bursts 0 (1 ∷ []) 0 core

held-forward_example :
    (c' : Core small_ring quiet_detector) × (forward small_ring quiet_detector env bursts
        (0 ∷ 1 ∷ [])
        0
        core
      ≡ some c')
    × (held small_ring 4 c'.world ≡ held small_ring 4 waiting + count 4 (delivered bursts 0 0 2 0))
held-forward_example = held-forward small_ring quiet_detector env 4 bursts 0 (1 ∷ []) 0 core
