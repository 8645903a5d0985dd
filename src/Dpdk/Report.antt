-- ===== src/Dpdk/Report.antt =====
-- What the log says of the ports, and the buffer that each port's text goes through.
use mathlib.Core.List.{append_assoc, append-nil}
use uaflow.Prelude.{
  ℕ, zero, suc, ◌+◌, ◌^◌, ◌≤◌, ◌<◌, ◌≡◌, refl, sym, ◌∙◌, ap, min, Bool, true, false, some, List, [],
  ◌++◌, arith, lt→ltb, if◌then◌else◌, length, Bool-cases, inl, inr,
}
use Prim.Native.String.{count}
use uaflow.Prelude.Ascii.{ascii, Words64, length-format}
use uaflow.Dpdk.Dump.{
  Link, Stats, Ports, known_stats, link_up, link_down, duplex, port_line, line_size, dump_ports,
  dump_link_status, dump_module,
}

-- The counters have 64 bits.
pub record Counters64 (stats : Stats) : Type 0 where
  pub ipackets : stats.ipackets < 2 ^ 64
  pub ibytes : stats.ibytes < 2 ^ 64
  pub imissed : stats.imissed < 2 ^ 64
  pub opackets : stats.opackets < 2 ^ 64
  pub obytes : stats.obytes < 2 ^ 64
  pub oerrors : stats.oerrors < 2 ^ 64

-- The numbers have the widths of DPDK's types: 32 bits for the number of ports and a link's speed,
-- and 64 for the counters.
pub record HasWidths (ports : Ports) : Type 0 where
  pub ethports : ports.max_ethports < 2 ^ 32
  pub speed : (i : ℕ) → (ports.link_get i).speed < 2 ^ 32
  pub stats : (i : ℕ) → Counters64 (known_stats (ports.stats_get i))

duplex_short : (full_duplex : Bool) → count (duplex full_duplex) ≤ 12
duplex_short true = omega arith
duplex_short false = omega arith

link_up-Words64 :
    (i : ℕ) (link : Link) (stats : Stats)
    → i < 2 ^ 64
    → link.speed < 2 ^ 32
    → Counters64 stats
    → Words64 (link_up i link stats)
link_up-Words64 i link stats small speed c = (
  small,
  (omega arith, (c.ipackets, (c.ibytes, (c.imissed, (c.opackets, (c.obytes, (c.oerrors, tt))))))),
)

port_line-short :
    (ports : Ports) (i : ℕ) → HasWidths ports → i < 2 ^ 32 → length (port_line ports i) < line_size
unfolding port_line
port_line-short ports i w small =
    let link = ports.link_get i in
    let stats = known_stats (ports.stats_get i) in
    let widths = link_up-Words64 i link stats (omega arith) (w.speed i) (w.stats i) in
    let up = length-format (link_up i link stats) widths in
    let down = length-format (link_down i) (omega arith, tt) in
    elim (Bool-cases link.status) [
      | inl e ↦ rw e (omega (arith, up, duplex_short link.full_duplex))
      | inr e ↦ rw e (omega (arith, down))
    ]

-- The texts of the ports, one after the other.
abbrev pub report : Ports → (n i : ℕ) → List ℕ
report ports zero i = []
report ports (suc n) i = port_line ports i ++ report ports n (i + 1)

dump_ports-report :
    (ports : Ports)
    → HasWidths ports
    → (n i : ℕ) (log : List ℕ) → i + n < 2 ^ 32
    → dump_ports ports n i log ≡ some (log ++ report ports n i)
unfolding dump_ports
dump_ports-report ports w zero i log h = ap some (sym (append-nil log))
dump_ports-report ports w (suc n) i log h =
    rw
      (
        lt→ltb (length (port_line ports i)) line_size (port_line-short ports i w (omega arith)),
        dump_ports,
      )
      (dump_ports-report ports w n (i + 1) (log ++ port_line ports i) (omega arith)
        ∙ ap some (append_assoc log (port_line ports i) (report ports n (i + 1))))

-- Where the numbers have the widths of DPDK's types, no port's text leaves the buffer, whatever the
-- state of the links: the dump appends to the log the heading and the texts of the ports, as many
-- as there are or RTE_MAX_ETHPORTS allows; where the log cannot be opened it changes nothing.
pub dump_module-report :
    (opens : Bool) (ports : Ports) (log : List ℕ)
    → HasWidths ports
    → dump_module opens ports log
      ≡ some (
          if opens
          then log
            ++ ascii "\n\n[NIC-LinkStatus]:\n\n"
            ++ report ports (min ports.dev_count ports.max_ethports) 0
          else log)
unfolding dump_module dump_link_status
dump_module-report true ports log w =
    dump_ports-report ports w (min ports.dev_count ports.max_ethports) 0
      (log ++ ascii "\n\n[NIC-LinkStatus]:\n\n") (omega (arith, w.ethports))
dump_module-report false ports log w = refl
