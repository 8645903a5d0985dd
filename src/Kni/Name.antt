-- ===== src/Kni/Name.antt =====
-- The creation of the kernel's interface: on which port, and under which name.
use uaflow.Prelude.{
  ℕ, ◌-◌, ◌%◌, ◌^◌, ◌≤◌, ◌<◌, ◌≡◌, refl, sym, ◌⊎◌, inl, inr, true, false, none, some, List, [], ◌∷◌,
  ◌++◌, arith, take-all, Option-cases, Bool-cases,
}
use uaflow.Prelude.Decimal.{decimal, length-decimal}
use uaflow.Dpdk.{ok, exited, overflow}
use uaflow.Dpdk.Outcomes.{ok-injective}
use uaflow.Kni.{KniHost, KniConf, PciDev, Kni, conf_of, kni_init, init, created, name_prefix}

-- The interface that the start creates for a receive port `idx`: its PCI device, and what DPDK is
-- asked for, by which the name ends in the port's number.
pub record IsCreated (h : KniHost) (idx : ℕ) (s : Kni) : Type 0 where
  pub dev : PciDev
  pub there : h.pci_dev (idx % 2 ^ 16) ≡ some dev
  pub allocated : h.allocated s.conf (idx % 2 ^ 16) ≡ true
  pub state : s ≡ created (idx % 2 ^ 16) s.conf
  pub device : (s.conf.addr ≡ dev.addr) × (s.conf.id ≡ dev.id)
  pub name : s.conf.name ≡ name_prefix ++ decimal (idx % 2 ^ 16)

-- A port's name fits the field, whose length is at least the 13 bytes that it may need.
conf_of-name :
    (size portid : ℕ) (dev : PciDev)
    → 13 ≤ size
    → portid < 2 ^ 16
    → (conf_of size portid dev).name ≡ name_prefix ++ decimal portid
unfolding conf_of
conf_of-name size portid dev room small =
    let digits = length-decimal 5 portid (omega arith) (omega arith) in
    take-all (size - 1) (name_prefix ++ decimal portid) (omega arith)

module _ (h : KniHost) (room : 13 ≤ h.name_size) where
  -- Where the field for the name has at least 13 bytes, the start of the interface fails in one of
  -- four ways, or creates it for the first receive port: there is no receive port, or the port has
  -- no PCI device, and a null pointer is used; the pool or the interface cannot be created, and the
  -- process exits; or the interface is created with the data of the port's PCI device, under a name
  -- that holds the port's number in full.
  pub init-IsCreated :
      (rx_idx : List ℕ)
      → ((rx_idx ≡ []) × (init h rx_idx ≡ overflow))
        ⊎ ((idx : ℕ) × (rest : List ℕ) × (rx_idx ≡ idx ∷ rest)
            × (((h.pool_created ≡ false) × (init h rx_idx ≡ exited))
                ⊎ ((h.pool_created ≡ true)
                    × (h.pci_dev (idx % 2 ^ 16) ≡ none)
                    × (init h rx_idx ≡ overflow))
                ⊎ ((dev : PciDev) × (h.pci_dev (idx % 2 ^ 16) ≡ some dev)
                    × (h.allocated (conf_of h.name_size (idx % 2 ^ 16) dev) (idx % 2 ^ 16) ≡ false)
                    × (init h rx_idx ≡ exited))
                ⊎ ((s : Kni) × (init h rx_idx ≡ ok s) × IsCreated h idx s)))
  unfolding init kni_init conf_of
  init-IsCreated [] = inl (refl, refl)
  init-IsCreated (idx ∷ rest) = inr (
    idx,
    rest,
    refl,
    elim (Bool-cases h.pool_created) [
      | inr e ↦ inl (e, rw e refl)
      | inl e ↦ elim (Option-cases (h.pci_dev (idx % 2 ^ 16))) [
        | inl gone ↦ inr (inl (e, gone, rw (e, gone) refl))
        | inr (dev, there) ↦
            let conf = conf_of h.name_size (idx % 2 ^ 16) dev in
            elim (Bool-cases (h.allocated conf (idx % 2 ^ 16))) [
              | inr refused ↦ inr (inr (inl (dev, there, refused, rw (e, there, refused) refl)))
              | inl allocated ↦ inr (
                  inr (
                    inr (
                      created (idx % 2 ^ 16) conf,
                      rw (e, there, allocated) refl,
                      record {
                        dev = dev;
                        there = there;
                        allocated = allocated;
                        state = refl;
                        device = (refl, refl);
                        name = conf_of-name h.name_size (idx % 2 ^ 16) dev room (omega arith);
                      },
                    )))
            ]
      ]
    ],
  )

-- What `init` yields is the state before the thread's first step.
pub init-created :
    (h : KniHost) (rx_idx : List ℕ) {s : Kni}
    → init h rx_idx ≡ ok s
    → (portid : ℕ) × (conf : KniConf) × (s ≡ created portid conf)
unfolding init kni_init
init-created h [] e = cc
init-created h (idx ∷ rest) {s} e = elim (Bool-cases h.pool_created) [
  | inr no_pool ↦ let bad : exited ≡ ok s = rw no_pool at e in cc
  | inl pool ↦ elim (Option-cases (h.pci_dev (idx % 2 ^ 16))) [
    | inl gone ↦ let bad : overflow ≡ ok s = rw (pool, gone) at e in cc
    | inr (dev, there) ↦
        let conf = conf_of h.name_size (idx % 2 ^ 16) dev in
        elim (Bool-cases (h.allocated conf (idx % 2 ^ 16))) [
          | inr refused ↦ let bad : exited ≡ ok s = rw (pool, there, refused) at e in cc
          | inl allocated ↦
              let same : ok (created (idx % 2 ^ 16) conf) ≡ ok s =
                rw (pool, there, allocated) at e in
              (idx % 2 ^ 16, conf, ok-injective s (created (idx % 2 ^ 16) conf) (sym same))
        ]
  ]
]
