-- ===== src/Ddos/Insert.antt =====
-- The detector on a bucket that is a circular list: a known source, a new one, and no memory left.
use uaflow.Prelude.{
  ℕ, ◌+◌, ◌<◌, ◌≡◌, refl, sym, ◌≢◌, Bool, arith, ◌==◌, if◌then◌else◌, ==_refl, ne→==, some,
}
use uaflow.Ddos.Items.{
  Ptr, null, Node, Memory, Run, ok, update, zeroed, load-ok, store-ok, clear-ok, init_list_head,
  list_add_tail,
}
use uaflow.Ddos.{
  Limits, Probe, Call, account, finish, set_source, link, reset_link, insert_v4, insert_v6,
  everynode_entry_max_sz,
}
use uaflow.Ddos.Account.{Fits, account-first}
use uaflow.Ddos.Ring.{Appends}

pub finish-account :
    (l : Limits) (p : Probe) (now later : ℕ) (item : Ptr) (m : Memory) {n' : Node} {alarm : Bool}
    → item ≢ null
    → account l p now later (m.node item) ≡ some (n', alarm)
    → finish l p now later item m ≡ ok alarm (record m { node = update m.node item n' })
unfolding finish
finish-account l p now later item m {n'} ne run = rw (load-ok item m ne, run, store-ok item m ne n')

-- What putting a new item at the end of a bucket comes to: the bucket's links are those of
-- `Appends`, the item has the packet's address and port, and no other item has changed.
pub record Inserted (c : Call) (p : Probe) (item : Ptr) (m : Memory) (r : Run Bool) : Type 0 where
  pub after : Memory
  pub alarm : Bool
  pub returns : r ≡ ok alarm after
  pub alarmed : alarm ≡ (c.limits.number == 0)
  pub appends : Appends m after c.head item
  pub addr : (after.node item).addr ≡ p.addr
  pub port : ((after.node item).entry 0).port ≡ p.port
  pub entry_addr : ((after.node item).entry 0).addr ≡ p.addr
  pub time : (t : ℕ) × ((after.node item).modtime ≡ c.clock t)
  pub count : (after.node item).n_packets ≡ (if alarm then 0 else 1)
  pub fits : Fits c.limits (after.node item)
  pub others : (q : Ptr) → q ≢ item → after.node q ≡ m.node q

-- The item as it stands when its time is tested.
abbrev pub source : Call → Probe → ℕ → Node → Node
source c p t n = record n { modtime = c.clock t; n_packets = 0; addr = p.addr }

-- `b` is `m` but for the new item, which is set to the packet's source.
pub record Prepared (c : Call) (p : Probe) (t : ℕ) (item : Ptr) (m b : Memory) : Type 0 where
  pub old : Node
  pub next : (q : Ptr) → q ≢ item → b.next q ≡ m.next q
  pub prev : (q : Ptr) → q ≢ item → b.prev q ≡ m.prev q
  pub node : b.node item ≡ source c p t old
  pub others : (q : Ptr) → q ≢ item → b.node q ≡ m.node q

abbrev pub joined : Ptr → Ptr → Memory → Memory
joined item head b = list_add_tail item head (init_list_head item b)

pub joined-node : (item head : Ptr) (b : Memory) → (joined item head b).node ≡ b.node
unfolding list_add_tail init_list_head
joined-node item head b = refl

-- What the end of the detector does to a prepared item: the links are left alone.
pub record Finished (c : Call) (p : Probe) (item : Ptr) (m b : Memory) (r : Run Bool) : Type 0 where
  pub nodes : Ptr → Node
  pub alarm : Bool
  pub returns : r ≡ ok alarm (record (joined item c.head b) { node = nodes })
  pub alarmed : alarm ≡ (c.limits.number == 0)
  pub addr : (nodes item).addr ≡ p.addr
  pub port : ((nodes item).entry 0).port ≡ p.port
  pub entry_addr : ((nodes item).entry 0).addr ≡ p.addr
  pub time : (t : ℕ) × ((nodes item).modtime ≡ c.clock t)
  pub count : (nodes item).n_packets ≡ (if alarm then 0 else 1)
  pub fits : Fits c.limits (nodes item)
  pub others : (q : Ptr) → q ≢ item → nodes q ≡ m.node q

module _ (c : Call) (p : Probe) (t : ℕ) (item : Ptr) (m : Memory) (ne : item ≢ null) where
  finish-Finished :
      (b : Memory)
      → c.limits.number < everynode_entry_max_sz
      → Prepared c p t item m b
      → Finished c p item m b
          (finish c.limits p (c.clock (t + 1)) (c.clock (t + 2)) item (joined item c.head b))
  finish-Finished b room pre =
      let (n', alarm, run, fits, addr, alarmed, count, port, entry_addr, time) =
        account-first c.limits p (c.clock (t + 1)) (c.clock (t + 2)) (source c p t pre.old) refl
          room in
      record {
        nodes = update (joined item c.head b).node item n';
        alarm = alarm;
        returns =
            finish-account c.limits p (c.clock (t + 1)) (c.clock (t + 2)) item
              (joined item c.head b) ne (rw (joined-node item c.head b, pre.node) run);
        alarmed = alarmed;
        addr = rw (==_refl item) addr;
        port = rw (==_refl item) port;
        entry_addr = rw (==_refl item) entry_addr;
        time = (t + 2, rw (==_refl item) time);
        count = rw (==_refl item) count;
        fits = rw (==_refl item) fits;
        others = λ q other.
            rw (ne→== item q (λ e. other (sym e)), joined-node item c.head b) (pre.others q other);
      }

  -- The memory on which the first detector's insertion puts the item at the end.
  abbrev pub prepared_v4 : Memory
  prepared_v4 =
      let reset = init_list_head item (zeroed item m) in
      record (zeroed item m) {
        node = update (zeroed item m).node item (source c p t (reset.node item));
      }

  abbrev pub prepared_v6 : Memory
  prepared_v6 = record m { node = update m.node item (source c p t (m.node item)) }

  prepared_v4-Prepared : item ≢ c.head → Prepared c p t item m prepared_v4
  unfolding init_list_head
  prepared_v4-Prepared nh = record {
    old = (init_list_head item (zeroed item m)).node item;
    next = λ q other. rw (ne→== item q (λ e. other (sym e)));
    prev = λ q other. rw (ne→== item q (λ e. other (sym e)));
    node = rw (==_refl item);
    others = λ q other. rw (ne→== item q (λ e. other (sym e)));
  }

  prepared_v6-Prepared : Prepared c p t item m prepared_v6
  prepared_v6-Prepared = record {
    old = m.node item;
    next = λ q other. refl;
    prev = λ q other. refl;
    node = rw (==_refl item);
    others = λ q other. rw (ne→== item q (λ e. other (sym e)));
  }

  pub insert_v4-Finished :
      item ≢ c.head
      → c.limits.number < everynode_entry_max_sz
      → Finished c p item m prepared_v4 (insert_v4 c p t item m)
  unfolding insert_v4 set_source link reset_link init_list_head
  insert_v4-Finished nh room =
      let reset = init_list_head item (zeroed item m) in
      rw
        (
          clear-ok item m ne,
          load-ok item reset ne,
          store-ok item reset ne (source c p t (reset.node item)),
        )
        (finish-Finished prepared_v4 room (prepared_v4-Prepared nh))

  pub insert_v6-Finished :
      c.limits.number < everynode_entry_max_sz
      → Finished c p item m prepared_v6 (insert_v6 c p t item m)
  unfolding insert_v6 set_source link reset_link
  insert_v6-Finished room =
      rw (load-ok item m ne, store-ok item m ne (source c p t (m.node item)))
        (finish-Finished prepared_v6 room prepared_v6-Prepared)

module _ (c : Call) (p : Probe) (t : ℕ) (item : Ptr) (m : Memory) (ne : item ≢ null)
    (nh : item ≢ c.head) (apart : m.prev c.head ≢ item)
    (room : c.limits.number < everynode_entry_max_sz) where
  joined-Appends :
      (b : Memory) (nodes : Ptr → Node)
      → Prepared c p t item m b
      → Appends m (record (joined item c.head b) { node = nodes }) c.head item
  unfolding list_add_tail init_list_head
  joined-Appends b nodes pre =
      let tail = pre.prev c.head (λ e. nh (sym e)) in
      record {
        from_new = ground arith;
        from_end = ground arith;
        elsewhere = λ q other end. ground (arith, pre.next q other);
        backward = ground arith;
        before = λ q other further. ground (arith, pre.prev q other);
      }

  Finished-Inserted :
      {b : Memory} {r : Run Bool}
      → Prepared c p t item m b
      → Finished c p item m b r
      → Inserted c p item m r
  Finished-Inserted {b} pre f = record {
    after = record (joined item c.head b) { node = f.nodes };
    alarm = f.alarm;
    returns = f.returns;
    alarmed = f.alarmed;
    appends = joined-Appends b f.nodes pre;
    addr = f.addr;
    port = f.port;
    entry_addr = f.entry_addr;
    time = f.time;
    count = f.count;
    fits = f.fits;
    others = f.others;
  }

  pub insert_v4-Inserted : Inserted c p item m (insert_v4 c p t item m)
  insert_v4-Inserted =
      Finished-Inserted (prepared_v4-Prepared c p t item m ne nh)
        (insert_v4-Finished c p t item m ne nh room)

  pub insert_v6-Inserted : Inserted c p item m (insert_v6 c p t item m)
  insert_v6-Inserted =
      Finished-Inserted (prepared_v6-Prepared c p t item m ne)
        (insert_v6-Finished c p t item m ne room)
