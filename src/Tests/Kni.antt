-- ===== src/Tests/Kni.antt =====
-- The kernel's interface: its start, two bursts through its thread, and its end.
use uaflow.Prelude.{
  ℕ, ◌%◌, ◌^◌, ◌≡◌, refl, ◌⊎◌, true, false, none, some, List, [], ◌∷◌, arith, ◌==◌, if◌then◌else◌,
}
use uaflow.Prelude.Decimal.{decimal, digits_of}
use uaflow.Dpdk.{ok, exited, overflow}
use uaflow.Kni.{
  PciDev, KniHost, KniConf, Kni, conf_of, kni_init, init, created, run, test, round, missed, start,
  wait, wake, loop, waiting, looping, interrupt,
}
use uaflow.Kni.Name.{IsCreated, init-IsCreated}
use uaflow.Kni.Reach.{taken, Proper, Reach, here, next, IsSound}
use uaflow.Kni.Thread.{init-IsSound}
use uaflow.Kni.End.{Ends, init-Ends}

-- Port 3 has a PCI device, and no other.
abbrev host : KniHost
host = record {
  name_size = 32;
  pool_created = true;
  pci_dev = λ p. if p == 3 then some (record { addr = 8; id = 9 }) else none;
  allocated = λ _ _. true;
}

abbrev conf : KniConf
conf = record {
  name = b'F' ∷ b'l' ∷ b'o' ∷ b'w' ∷ b'E' ∷ b't' ∷ b'h' ∷ b'3' ∷ [];
  core_id = 0;
  force_bind = true;
  mbuf_size = 2048;
  addr = 8;
  id = 9;
}

abbrev ports : List ℕ
ports = 3 ∷ 5 ∷ []

host-init : init host ports ≡ ok (created 3 conf)
unfolding init kni_init conf_of decimal digits_of
host-init = refl

init-IsCreated_example :
    ((ports ≡ []) × (init host ports ≡ overflow))
    ⊎ ((idx : ℕ) × (rest : List ℕ) × (ports ≡ idx ∷ rest)
        × (((host.pool_created ≡ false) × (init host ports ≡ exited))
            ⊎ ((host.pool_created ≡ true)
                × (host.pci_dev (idx % 2 ^ 16) ≡ none)
                × (init host ports ≡ overflow))
            ⊎ ((dev : PciDev) × (host.pci_dev (idx % 2 ^ 16) ≡ some dev)
                × (host.allocated (conf_of 32 (idx % 2 ^ 16) dev) (idx % 2 ^ 16) ≡ false)
                × (init host ports ≡ exited))
            ⊎ ((s : Kni) × (init host ports ≡ ok s) × IsCreated host idx s)))
init-IsCreated_example = init-IsCreated host (omega arith) ports

-- The thread waits, is woken by `run`, and passes on a burst of which the device takes one packet.
abbrev in_wait : Kni
in_wait = record (created 3 conf) { task = waiting }

abbrev in_loop : Kni
in_loop = record (created 3 conf) { task = looping; runflag_set = true }

abbrev passed : Kni
passed = record in_loop { world = record { sent = 4 ∷ []; freed = 5 ∷ [] } }

abbrev stopping : Kni
stopping = record passed { run_flag = true }

passed-Reach : Reach (created 3 conf) (4 ∷ 5 ∷ []) passed
unfolding taken Proper run test round missed
passed-Reach =
    next
      (next (next (next here (wait refl refl) tt refl) (start refl refl) tt refl)
        (wake refl refl refl) tt refl)
      (loop (λ _. 1) (4 ∷ 5 ∷ []) refl refl) (omega arith) refl

stopping-Reach : Reach (created 3 conf) (4 ∷ 5 ∷ []) stopping
unfolding taken Proper
stopping-Reach = next passed-Reach (interrupt refl) tt refl

init-IsSound_example : IsSound (created 3 conf) (4 ∷ 5 ∷ []) passed
init-IsSound_example = init-IsSound host ports host-init passed-Reach

init-Ends_example : Ends (created 3 conf) (4 ∷ 5 ∷ [])
init-Ends_example = init-Ends host ports host-init stopping-Reach refl refl
