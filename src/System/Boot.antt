-- ===== src/System/Boot.antt =====
-- What the start makes of the configuration.
use uaflow.Prelude.{
  Bool, ℕ, ◌≡◌, refl, sym, ap, ◌∙◌, Bool, none, some, List, arith, Option-cases, inl, inr,
}
use uaflow.Prelude.Int.{ℤ, pos, negsuc}
use uaflow.Prelude.Decimal.{atoi}
use uaflow.Dpdk.Outcomes.{bind-ok, ok-injective}
use uaflow.Dpdk.{Outcome, ok, overflow, Conf, init, setconf}
use mathlib.Core.Option.{some-injective}
use uaflow.Config.{Tables, fresh, scan_number_default, scan_millisecond_default}
use uaflow.Config.Tree.{Bytes, Xml, null, node, get_prop, load}
use uaflow.Config.Devices.{Machine}
use uaflow.Config.Items.{bind-some, for_each-keeps, parse_item-or}
use uaflow.Config.Parse.{
  parse, parse_item, parse_key, parse_limits, add_item, add_key, for_each, item_name, key_name,
  item_nodes, key_nodes, ddos_node, number_attr, time_attr,
}
use uaflow.Config.Build.{Automaton}
use uaflow.Ddos.{Limits}
use uaflow.Ddos.Items.{Ptr}
use uaflow.Ddos.Table
use uaflow.Forward.{Detector, Core, Env, forward}
use uaflow.Egress.{RingQueue}
use uaflow.System.{Host, Booted, assemble, zero_conf, boot, load_module, getnum, gettime, getrx}

abbrev limits_of : Tables → Limits
limits_of t = record { number = getnum t; millisecond = gettime t }

abbrev pub default_limits : Limits
default_limits = record { number = scan_number_default; millisecond = scan_millisecond_default }

-- Both limits are 0.
abbrev IsUnset : Tables → Type 0
IsUnset t = (t.scan_number ≡ 0) × (t.scan_millisecond ≡ 0)

add_item-IsUnset :
    (mc : Machine) (idx_memory : Bool) (name stype sid : Bytes) (t t' : Tables)
    → add_item mc idx_memory name stype sid t ≡ some t'
    → IsUnset t
    → IsUnset t'
unfolding add_item
add_item-IsUnset mc idx_memory name stype sid t t' h unset = ground arith

parse_item-IsUnset :
    (mc : Machine) (p : Xml) (t t' : Tables) → parse_item mc p t ≡ some t' → IsUnset t → IsUnset t'
parse_item-IsUnset mc p t t' h unset = elim (parse_item-or mc p t t' h) [
  | inl (_, same) ↦ rw (← same) unset
  | inr (name, stype, sid, added) ↦
      add_item-IsUnset mc (mc.idx_memory p) name stype sid t t' added unset
]

parse_key-IsUnset :
    (mc : Machine) (p : Xml) (t t' : Tables) → parse_key mc p t ≡ some t' → IsUnset t → IsUnset t'
unfolding parse_key add_key
parse_key-IsUnset mc p t t' h unset = ground arith

-- The limits of the element DDOS: its two attributes, the defaults where one of them is missing,
-- and 0 where there is no such element.
pub limits_in : Xml → Limits
limits_in null = record { number = 0; millisecond = 0 }
limits_in (node n a c x) = elim (get_prop a number_attr) [
  | none ↦ default_limits
  | some number ↦ elim (get_prop a time_attr) [
    | none ↦ default_limits
    | some time ↦ record { number = atoi number; millisecond = atoi time }
  ]
]

parse_limits-limits_in :
    (x : Xml) (t : Tables) → IsUnset t → limits_of (parse_limits x t) ≡ limits_in x
unfolding parse_limits limits_in
parse_limits-limits_in null t unset = ground arith
parse_limits-limits_in (node n a c x) t unset = ground arith

parse-limits_in :
    (mc : Machine) (doc : Xml) (t : Tables)
    → parse mc doc fresh ≡ some t
    → limits_of t ≡ limits_in (ddos_node doc)
unfolding parse fresh
parse-limits_in mc doc t h =
    let (t1, items, h1) =
      bind-some (for_each item_name (parse_item mc) (item_nodes doc) fresh) _ t h in
    let (t2, keys, h2) = bind-some (for_each key_name (parse_key mc) (key_nodes doc) t1) _ t h1 in
    let unset1 =
      for_each-keeps IsUnset item_name (parse_item mc) (parse_item-IsUnset mc) (item_nodes doc)
        fresh items (refl, refl) in
    let unset2 =
      for_each-keeps IsUnset key_name (parse_key mc) (parse_key-IsUnset mc) (key_nodes doc) t1 keys
        unset1 in
    rw (← some-injective _ t h2) (parse_limits-limits_in (ddos_node doc) t2 unset2)

module _ (ac : Automaton) (head : (is_v6 : Bool) → (coreid slot : ℕ) → Ptr) (h : Host) where
  abbrev pub LoadsAs : Tables × ℤ → Type 0
  LoadsAs loaded = load_module h.machine (load h.accessible h.read) fresh ≡ ok loaded

  pub boot-assemble :
      (b : Booted ac head)
      → boot ac head h ≡ ok b
      → (cores : ℕ × ℕ) × (loaded : Tables × ℤ) × (conf : Conf) × LoadsAs loaded
        × (assemble ac head h cores loaded conf ≡ b)
        × (setconf h.dev h.nb_lcores h.infos zero_conf ≡ ok conf)
  unfolding boot
  boot-assemble b run =
      let (cores, _, run1) = bind-ok (init h.eal_init h.ncpu) _ b run in
      let (loaded, read, run2) =
        bind-ok (load_module h.machine (load h.accessible h.read) fresh) _ b run1 in
      let (conf, set, run3) = bind-ok (setconf h.dev h.nb_lcores h.infos zero_conf) _ b run2 in
      (cores, loaded, conf, read, ok-injective _ b run3, set)

  -- The tables of the start are those that were loaded, and the limits are theirs.
  boot-loaded :
      (b : Booted ac head)
      → boot ac head h ≡ ok b
      → (r : ℤ) × LoadsAs (b.tables, r) × (b.detector.limits ≡ limits_of b.tables)
  unfolding assemble Table.init
  boot-loaded b run =
      let (cores, loaded, conf, read, same, _) = boot-assemble b run in
      rw (← same) (loaded.1, read, refl)

  -- Where no configuration can be loaded and the start ends normally all the same, the detector's
  -- limit is 0, and there is no receive port, so the first call of `forward` in each worker uses a
  -- null pointer.
  pub boot-unloaded :
      (b : Booted ac head)
      → load h.accessible h.read ≡ none
      → boot ac head h ≡ ok b
      → (b.detector.limits.number ≡ 0)
        × ((q : RingQueue) (d : Detector) (env : Env q) (rx_burst : ℕ → ℕ → ℕ → List ℕ)
              (queueid : ℕ) (c : Core q d)
            → forward q d env rx_burst (getrx b.tables) queueid c ≡ none)
  unfolding load_module fresh forward
  boot-unloaded b gone run =
      let (r, loaded, limits) = boot-loaded b run in
      let unread : Outcome (Tables × ℤ) = ok (fresh, negsuc 0) in
      let read : unread ≡ ok (b.tables, r) = rw (gone, load_module) at loaded in
      let tables : fresh ≡ b.tables = ap (λ (x : Tables × ℤ). x.0) (ok-injective _ _ read) in
      (
        ap (λ (l : Limits). l.number) limits ∙ ap (λ (t : Tables). t.scan_number) (sym tables),
        λ q d env rx_burst queueid c. rw (← tables) refl,
      )

  -- Where a configuration is loaded and the start ends normally, the detector works with the limits
  -- of the configuration's first element DDOS.
  pub boot-limits_in :
      (b : Booted ac head) (doc : Xml)
      → load h.accessible h.read ≡ some doc
      → boot ac head h ≡ ok b
      → b.detector.limits ≡ limits_in (ddos_node doc)
  unfolding load_module
  boot-limits_in b doc found run =
      let (r, loaded, limits) = boot-loaded b run in
      elim (Option-cases (parse h.machine doc fresh)) [
        | inl e ↦
            let unread : Outcome (Tables × ℤ) = overflow in
            let bad : unread ≡ ok (b.tables, r) = rw (found, load_module, e) at loaded in cc
        | inr (t, e) ↦
            let parsed : Outcome (Tables × ℤ) = ok (t, pos 0) in
            let read : parsed ≡ ok (b.tables, r) = rw (found, load_module, e) at loaded in
            let tables : t ≡ b.tables = ap (λ (x : Tables × ℤ). x.0) (ok-injective _ _ read) in
            limits ∙ ap limits_of (sym tables) ∙ parse-limits_in h.machine doc t e
      ]
