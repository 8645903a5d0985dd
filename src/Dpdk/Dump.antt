-- ===== src/Dpdk/Dump.antt =====
-- `flow_dpdk_module_dump` of flow_dpdk/flow_dpdk.c: what it writes of the ports into the log, by way
-- of a buffer of 1024 bytes. The ports' links and counters are DPDK's.
use uaflow.Prelude.{
  ℕ, zero, suc, ◌+◌, min, Bool, true, false, Option, none, some, List, [], ◌∷◌, ◌++◌, ltb,
  if◌then◌else◌, length,
}
use Prim.Native.String.{String}
use uaflow.Prelude.Ascii.{ascii, Piece, words, number, format}

-- `struct rte_eth_link` and `struct rte_eth_stats`, as far as they are printed.
pub record Link : Type 0 where
  pub status : Bool
  pub speed : ℕ
  pub full_duplex : Bool

pub record Stats : Type 0 where
  pub ipackets : ℕ
  pub ibytes : ℕ
  pub imissed : ℕ
  pub opackets : ℕ
  pub obytes : ℕ
  pub oerrors : ℕ

abbrev pub zero_stats : Stats
zero_stats = record { ipackets = 0; ibytes = 0; imissed = 0; opackets = 0; obytes = 0; oerrors = 0 }

-- What DPDK says of the ports: how many there are, RTE_MAX_ETHPORTS, the link of each, and its
-- counters unless they cannot be read.
pub record Ports : Type 0 where
  pub dev_count : ℕ
  pub max_ethports : ℕ
  pub link_get : ℕ → Link
  pub stats_get : ℕ → Option Stats

abbrev pub stars : Piece
stars = words "**************************************************************\n"

abbrev pub duplex : Bool → String
duplex true = "full-duplex"
duplex false = "halt-duplex\n"

-- The two formats.
abbrev pub link_up : ℕ → Link → Stats → List Piece
link_up i link stats =
    words "Port "
    ∷ number i
    ∷ words " Link Up - speed "
    ∷ number link.speed
    ∷ words " Mbps -"
    ∷ words (duplex link.full_duplex)
    ∷ words "  \nrecvips "
    ∷ number stats.ipackets
    ∷ words ", recvibyte "
    ∷ number stats.ibytes
    ∷ words ", imissips "
    ∷ number stats.imissed
    ∷ words "\nsendvips "
    ∷ number stats.opackets
    ∷ words ", sendbyte "
    ∷ number stats.obytes
    ∷ words ", oerrors "
    ∷ number stats.oerrors
    ∷ words "\n"
    ∷ stars
    ∷ []

abbrev pub link_down : ℕ → List Piece
link_down i = words "Port " ∷ number i ∷ words " Link Down\n" ∷ stars ∷ []

abbrev pub known_stats : Option Stats → Stats
known_stats none = zero_stats
known_stats (some stats) = stats

unfoldable pub port_line : Ports → ℕ → List ℕ
port_line ports i =
    let link = ports.link_get i in
    let stats = known_stats (ports.stats_get i) in
    if link.status then format (link_up i link stats) else format (link_down i)

-- `sizeof(buff)`, and `sprintf` into the buffer: `none` is a write behind its end.
abbrev pub line_size : ℕ
line_size = 1024

abbrev pub into_line : List ℕ → Option (List ℕ)
into_line line = if ltb (length line) line_size then some line else none

-- The loop of `flow_dpdk_module_dump_inside_link_status` over `n` ports from `i` on.
unfoldable pub dump_ports : Ports → (n i : ℕ) → (log : List ℕ) → Option (List ℕ)
dump_ports ports zero i log = some log
dump_ports ports (suc n) i log = elim (into_line (port_line ports i)) [
  | none ↦ none
  | some buff ↦ dump_ports ports n (i + 1) (log ++ buff)
]

unfoldable pub dump_link_status : Ports → (log : List ℕ) → Option (List ℕ)
dump_link_status ports log = dump_ports ports (min ports.dev_count ports.max_ethports) 0 log

-- `flow_dpdk_module_dump`: the log afterwards, where it can be opened or not.
unfoldable pub dump_module : (opens : Bool) → Ports → (log : List ℕ) → Option (List ℕ)
dump_module false ports log = some log
dump_module true ports log = dump_link_status ports (log ++ ascii "\n\n[NIC-LinkStatus]:\n\n")
