-- ===== src/Ua.antt =====
-- flow_ua/flow_ua_common.c and flow_ua/flow_ua_common.h: the callbacks that collect a request's
-- user agent, and the choice of the port. The HTTP parser is a parameter: what matters here are the
-- callbacks that it makes, in order.
pub mod Buffer
pub mod Fields
pub mod Dispatch
use uaflow.Prelude.{
  ℕ, ◌+◌, ◌-◌, ◌≡◌, Bool, true, false, ◌&&◌, not, Option, none, some, List, [], ◌∷◌, ltb, ◌==◌,
  if◌then◌else◌, length, replicate,
}
use uaflow.Prelude.CString.{eq_nocase, strncpy}
use uaflow.Prelude.Int.{ℤ, pos, negsuc}
use uaflow.Egress.{RingQueue, World, Device, send, send_pkt_default}

-- `sizeof(node->ua)`
abbrev pub ua_size : ℕ
ua_size = 1024

-- `flow_ua_common_node_t`
pub record Node : Type 0 where
  pub onbeg : Bool
  pub onurl : Bool
  pub onua : Bool
  pub oncplt : Bool
  pub ua : List ℕ
  pub ua_len : ℕ

-- The arguments `at` and `length` of a callback; `at` gives the bytes from there to the end of the
-- packet, or is a null pointer.
pub record Slice : Type 0 where
  pub at : Option (List ℕ)
  pub length : ℕ

pub data Event : Type 0 where
  message_begin headers_complete message_complete : Event
  url status header_field header_value body : Slice → Event

-- FLOW_UA_COMMON_PATTERN_STRING, "User-Agent:"
abbrev pub pattern_string : List ℕ
pattern_string = b'U' ∷ b's' ∷ b'e' ∷ b'r' ∷ b'-' ∷ b'A' ∷ b'g' ∷ b'e' ∷ b'n' ∷ b't' ∷ b':' ∷ []

-- `memset(&node, 0, sizeof(node))`
unfoldable pub fresh : Node
fresh = record {
  onbeg = false;
  onurl = false;
  onua = false;
  oncplt = false;
  ua = replicate ua_size 0;
  ua_len = 0;
}

on_url : Node → Slice → Node
on_url n s = elim s.at [
  | none ↦ n
  | some _ ↦ if ltb 0 s.length then record n { onurl = true } else n
]

on_header_field : Node → Slice → Node
on_header_field n s = elim s.at [
  | none ↦ n
  | some bytes ↦
      if ltb 0 s.length
        && n.onbeg
        && n.onurl
        && eq_nocase (length pattern_string) bytes pattern_string
      then record n { onua = true }
      else n
]

-- The third test of the source is of the array `node->ua`, which is no null pointer.
on_header_value : Node → Slice → Node
on_header_value n s = elim s.at [
  | none ↦ n
  | some bytes ↦
      if ltb 0 s.length
      then (let len = if ltb (ua_size - 1) s.length then ua_size - 1 else s.length in
          record n { ua_len = len; ua = strncpy n.ua bytes len; onua = false; oncplt = true })
      else n
]

-- The callbacks of `flow_ua_common_module_init`. All of them return 0.
unfoldable pub on_event : Node → Event → Node
unfolding on_url on_header_field on_header_value
on_event n message_begin = record n { onbeg = true }
on_event n (url s) = on_url n s
on_event n (status s) = n
on_event n (header_field s) = on_header_field n s
on_event n (header_value s) = on_header_value n s
on_event n headers_complete = n
on_event n (body s) = n
on_event n message_complete = n

unfoldable pub run : Node → List Event → Node
run n [] = n
run n (e ∷ es) = run (on_event n e) es

-- `portid <= 0`
abbrev pub is_default : ℤ → Bool
is_default (pos n) = n == 0
is_default (negsuc n) = true

abbrev pub port_number : ℤ → ℕ
port_number (pos n) = n
port_number (negsuc n) = 0

-- `flow_ua_common_module_httphandle`: `search` is `flow_config_module.search` on this core.
module _ (q : RingQueue) (takes : Device q) (search : List ℕ → ℤ) where
  unfoldable pub httphandle : (lcore_id packet : ℕ) → List Event → World q → World q
  httphandle lcore_id p events w =
      let node = run fresh events in
      let portid = if node.oncplt then search node.ua else pos 0 in
      if is_default portid
      then send_pkt_default q takes p w
      else send q takes p (port_number portid) (lcore_id - 1) w
