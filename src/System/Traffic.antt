-- ===== src/System/Traffic.antt =====
-- The workers and the default sender at the same time, over the one ring that they share. A worker's
-- handling of a packet touches the ring or the device at most once, and so does a round of the
-- sender: each is one step, and the steps come in any order.
use uaflow.Prelude.{ℕ, ◌+◌, ◌≤◌, ◌≡◌, refl, List, [], ◌∷◌, ◌++◌, arith, length}
use uaflow.Egress.{RingQueue, Device, defsend_round, defsend_loop}
use uaflow.Egress.Holdings.{count, count-append, packets, held}
use uaflow.Egress.Conservation.{held-defsend_round, held-defsend_loop}
use uaflow.Egress.Drain.{defsend_loop_empties}
use uaflow.Forward.{Detector, Core, Env, inside_forward}
use uaflow.Forward.Conservation.{holds-inside_forward}

count_none : (a : ℕ) (xs : List ℕ) → length xs ≡ 0 → count a xs ≡ 0
unfolding count
count_none a [] h = refl
count_none a (x ∷ xs) h = absurd (omega arith)

module _ (q : RingQueue) (d : Detector) (worker : ℕ → Env q) (takes : Device q)
    (byte_at : ℕ → ℕ → ℕ) (defaultidx mask : ℕ) where
  -- The handling of the packet `p` by the worker `i`, or a round of the sender.
  pub data Turn (s t : Core q d) : Type 0 where
    handles : (i p : ℕ) → t ≡ inside_forward q d (worker i) p s → Turn s t
    sends :
        t ≡ record s { world = defsend_round q takes byte_at defaultidx mask s.world } → Turn s t

  unfoldable pub received : {s t : Core q d} → Turn s t → List ℕ
  received (handles i p _) = p ∷ []
  received (sends _) = []

  -- Steps in any order, with the packets received on the way.
  pub data Turns (s : Core q d) : List ℕ → Core q d → Type 0 where
    here : Turns s [] s
    next :
        {ps qs : List ℕ} {t u : Core q d}
        → Turns s ps t
        → (turn : Turn t u) → qs ≡ ps ++ received turn
        → Turns s qs u

  held-Turn :
      (a : ℕ) {s t : Core q d} (turn : Turn s t)
      → held q a t.world ≡ held q a s.world + count a (received turn)
  unfolding received count
  held-Turn a {s} (handles i p e) = rw e (omega (arith, holds-inside_forward q d (worker i) a p s))
  held-Turn a {s} (sends e) =
      rw e (omega (arith, held-defsend_round q takes a byte_at defaultidx mask s.world))

  held-Turns :
      (a : ℕ) {s t : Core q d} {ps : List ℕ}
      → Turns s ps t
      → held q a t.world ≡ held q a s.world + count a ps
  unfolding count
  held-Turns a here = omega arith
  held-Turns a (next {ps} before turn e) =
      rw e (omega (arith, held-Turn a turn, held-Turns a before, count-append a ps (received turn)))

  -- Where nothing is held at first, whatever the workers receive and in whatever order their steps
  -- and those of the sender come: as many more rounds of the sender as there are packets in the
  -- ring empty it, and each packet was then sent or given back as often as it was received.
  pub Turns-defsend_loop :
      {s t : Core q d} {ps : List ℕ}
      → ((a : ℕ) → held q a s.world ≡ 0)
      → Turns s ps t
      → (rounds : ℕ) → length (q.items t.world.ring) ≤ rounds
      → (length (q.items (defsend_loop q takes byte_at defaultidx mask rounds t.world).ring) ≡ 0)
        × ((a : ℕ)
            → count a (packets (defsend_loop q takes byte_at defaultidx mask rounds t.world).sent)
                + count a (defsend_loop q takes byte_at defaultidx mask rounds t.world).freed
              ≡ count a ps)
  unfolding held
  Turns-defsend_loop {s} {t} {ps} nothing turns rounds enough =
      let w = defsend_loop q takes byte_at defaultidx mask rounds t.world in
      let empty = defsend_loop_empties q takes byte_at defaultidx mask rounds t.world enough in
      (
        empty,
        λ a. omega (
          arith,
          held-Turns a turns,
          nothing a,
          held-defsend_loop q takes a byte_at defaultidx mask rounds t.world,
          count_none a (q.items w.ring) empty,
        ),
      )
