-- ===== src/Ddos/Items.antt =====
-- The memory of the detector: list heads and items by address, and the operations of
-- flow_core/flow_core_list.h on the links.
use uaflow.Prelude.{ne→==, ◌≡◌, ◌≢◌, ℕ, Option, none, some, ◌==◌, if◌then◌else◌}

abbrev pub Ptr : Type 0
Ptr = ℕ

abbrev pub null : Ptr
null = 0

-- `struct flow_ddos_entry`
pub record Entry : Type 0 where
  pub port : ℕ
  pub addr : ℕ

-- `struct flow_ddos_node`, less its link
pub record Node : Type 0 where
  pub addr : ℕ
  pub modtime : ℕ
  pub n_packets : ℕ
  pub entry : ℕ → Entry

-- An item's link, or a bucket's head, is at the item's own address.
pub record Memory : Type 0 where
  pub next : Ptr → Ptr
  pub prev : Ptr → Ptr
  pub node : Ptr → Node

abbrev pub update {ℓ} : {A : Type ℓ} → (ℕ → A) → ℕ → A → ℕ → A
update f p v q = if p == q then v else f q

-- How a piece of the detector ends: `fault` is a use of a null pointer or an access outside an
-- array, `out_of_fuel` a loop that was given too few rounds.
pub data Run (A : Type 0) : Type 0 where
  ok : A → Memory → Run A
  fault : Run A
  out_of_fuel : Run A

module _ {A B : Type 0} where
  abbrev pub and_then : Run A → (A → Memory → Run B) → Run B
  and_then (ok a m) k = k a m
  and_then fault k = fault
  and_then out_of_fuel k = out_of_fuel

  infixl 5 ◌>>=◌ ◌>>◌
  abbrev pub ◌>>=◌ : (Memory → Run A) → (A → Memory → Run B) → Memory → Run B
  f >>= k = λ m. and_then (f m) k

  abbrev pub ◌>>◌ : (Memory → Run A) → (Memory → Run B) → Memory → Run B
  f >> k = f >>= λ _. k

-- `*item`
unfoldable pub load : Ptr → Memory → Run Node
load p m = if p == null then fault else ok (m.node p) m

unfoldable pub store : Ptr → Node → Memory → Run (Unit {0})
store p n m = if p == null then fault else ok tt (record m { node = update m.node p n })

abbrev pub return : {A : Type 0} → A → Memory → Run A
return a m = ok a m

-- An access outside an array is a fault.
abbrev pub check : {A : Type 0} → Option A → Memory → Run A
check none m = fault
check (some a) m = ok a m

-- `p->next`
abbrev pub next_of : Ptr → Memory → Run Ptr
next_of p m = ok (m.next p) m

-- `memset(item, 0, sizeof(struct flow_ddos_node))`
abbrev pub zero_node : Node
zero_node = record {
  addr = 0;
  modtime = 0;
  n_packets = 0;
  entry = λ i. record { port = 0; addr = 0 };
}

abbrev pub zeroed : Ptr → Memory → Memory
zeroed p m = record {
  next = update m.next p null;
  prev = update m.prev p null;
  node = update m.node p zero_node;
}

unfoldable pub clear : Ptr → Memory → Run (Unit {0})
clear p m = if p == null then fault else ok tt (zeroed p m)

-- `INIT_LIST_HEAD`
unfoldable pub init_list_head : Ptr → Memory → Memory
init_list_head p m = record m { next = update m.next p p; prev = update m.prev p p }

-- `__list_add`: four writes, in the order of the source.
unfoldable pub list_add : (new prev next : Ptr) → Memory → Memory
list_add new prev next m =
    let m1 = record m { prev = update m.prev next new } in
    let m2 = record m1 { next = update m1.next new next } in
    let m3 = record m2 { prev = update m2.prev new prev } in
    record m3 { next = update m3.next prev new }

-- `list_add_tail`
unfoldable pub list_add_tail : (new head : Ptr) → Memory → Memory
unfolding list_add
list_add_tail new head m = list_add new (m.prev head) head m

module _ (p : Ptr) (m : Memory) (ne : p ≢ null) where
  pub load-ok : load p m ≡ ok (m.node p) m
  unfolding load
  load-ok = rw (ne→== p null ne)

  pub store-ok : (n : Node) → store p n m ≡ ok tt (record m { node = update m.node p n })
  unfolding store
  store-ok n = rw (ne→== p null ne)

  pub clear-ok : clear p m ≡ ok tt (zeroed p m)
  unfolding clear
  clear-ok = rw (ne→== p null ne)
