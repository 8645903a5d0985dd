-- ===== src/Lib.antt =====
-- UAFlow, a traffic balancer on DPDK: workers receive packets, look for the user agent of HTTP
-- requests, and send each packet to the port that the user agent selects, or by way of a ring to
-- a default sender. A detector of port scans watches the TCP packets.
--
-- Parts, and the files that model them:
--   Prelude      shared names; lists, bits, signed and decimal numbers, C strings and formats.
--   Dpdk         flow_dpdk/flow_dpdk.c: `init` is flow_dpdk_module_init, `setconf` (with a function
--                for each of its loops) flow_dpdk_module_setconf, `cores_loop` and `getaliq` the
--                functions of those names; `setbid` is that of flow_forward_defsend.c. Its child
--                modules are about the mask (Aliq), the cores (Cores), the set-up (Setup) and the
--                ports' pools in it (Pools); Queues and SendQueues say what a set-up that ends
--                normally has set up, whatever DPDK answers on the way.
--                Dump is flow_dpdk_module_dump, with Report about what it writes.
--   Ddos         flow_ddos/flow_ddos.c: `v4detect` and `v6detect` over the memory of Ddos/Items,
--                which has the list operations of flow_core/flow_core_list.h. `scan` is the loop
--                over a bucket, `insert_v4` and `insert_v6` what follows the label `next` for a
--                source without an item, `account` the rest, on one item. Ring says what a bucket
--                is; Scan, Account, Window, Insert and Detect are about the steps and the whole;
--                Oldest, Cut, Taken, Reuse, Late and Full are about a full bucket; Alarm, Burst,
--                NewSource and Moved about the packets of one source. Table has
--                flow_ddos_module_init and the calls for one packet after another; Table.Sources
--                says without the memory what they keep, and Refines compares the two; Isolation
--                takes one core and table out of the whole; PortSet is the quotient in which the
--                order of a source's ports is forgotten.
--   Egress       flow_forward_module_send of flow_forward/flow_forward.c and the functions of
--                flow_forward/flow_forward_defsend.c. `World` has the ring, what the device took
--                and what was freed.
--   Ua           flow_ua/flow_ua_common.c: the callbacks are `on_event`, `httphandle` has its name.
--   Forward      flow_forward/flow_forward.c: `forward` is the worker's step, `inside_forward`,
--                `ipv4_fwd_pkts` and `ipv6_fwd_pkts` are the functions of those names; the guards of
--                the last two are `ipv4_segment` and `ipv6_segment`.
--   Config       the tables of flow_config/flow_config_parser.c. Tree is
--                flow_config/flow_config_xml.c (`search4`, `add_node4`, `unlink_children4`, `load`
--                and `save` are the functions of those names, with config_); Devices has
--                rte_eth_dev_attach_self and the lists of ports, Parse
--                flow_config_module_load_inside_parse, Build flow_config_module_build and
--                flow_config_module_search, Dump flow_config_module_dump. Paths, Unlink, Bindings,
--                Items, Keys, Slots, Search and Log are about them.
--   Kni          flow_kni/flow_kni.c: `init` and `run` are the module's two functions, `Step` has
--                the steps of its thread, `test` one turn of its loop. Bursts, Reach, Thread and End
--                are about the packets and the thread, Name about the interface that is created.
--   Current      flow_current/flow_current.c.
--   Start        flow_start/flow_start.c: `options` is the loop over the options and `serve` the
--                loop at the end of main, `wr_pid` and `print` are flow_start_wr_pid and flow_print.
--   Threads      main, the sender's thread and the workers as a step relation: how they start
--                (Startup), how the sender fares where `run` comes late (Early), and how they end
--                (Shutdown).
--   System       `boot`, the calls of main down to setconf, with the getters of flow_config; Boot,
--                Dispatch and Sender are about the whole that it makes of the parts. Log has
--                `serve_log`, the loop of main with what it writes into the log; Traffic is
--                about the workers and the sender in any order.
--   Tests        values for the parameters, and each theorem at a concrete input.
--
-- Interplay: `cores_loop` calls `forward`, that calls `httphandle` and the detector, and these call
-- `send` and the ring of `Egress`. Parameters are the device, rte_ring (`RingQueue`, a queue that
-- keeps its order), the mempool, the clock, DPDK's power-of-two test (`PowerTest`), the headers that
-- DPDK lays over a packet, and the callbacks that the HTTP parser makes.
--
-- Bounds and fuel: numbers of 32 bits keep their wrap-around where the code computes with them. The
-- loop over a bucket runs on fuel, since a list that is no circle makes it run for ever; a bucket of
-- n items needs n + 1 rounds, and `detect` is given the 11 of a full bucket. Loops that end by a
-- flag are given the number of their rounds.
--
-- Not modelled: flow_ua/flow_http_parser.c is a copy of a library; a use of an address is a fault
-- only where the code can pass a null pointer or an index outside an array.
-- The automaton of flow_core is a copy of a library, too, and the parameter `Automaton`; of the
-- list.h of flow_core, which is the Linux kernel's, there are the operations that are used. What the
-- program prints on the screen is left out, and so is that memory is given back.
pub mod Prelude
pub mod Dpdk
pub mod Ddos
pub mod Egress
pub mod Ua
pub mod Forward
pub mod Config
pub mod Kni
pub mod Current
pub mod Start
pub mod Threads
pub mod System
mod Tests
