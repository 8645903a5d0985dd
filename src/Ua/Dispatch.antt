-- ===== src/Ua/Dispatch.antt =====
-- Where a request's packet goes.
use uaflow.Prelude.{
  ℕ, ◌≡◌, refl, ◌∙◌, Bool, true, false, none, some, List, [], ◌∷◌, ◌++◌, arith, ltb, lt→ltb, ◌+◌,
  ◌-◌, ◌<◌, inl, inr, Bool-cases, if◌then◌else◌, take, min,
}
use uaflow.Prelude.CString.{text, strncpy, text-strncpy_zeros}
use uaflow.Prelude.Int.{ℤ, pos}
use uaflow.Egress.{RingQueue, World, Device}
use uaflow.Egress.Holdings.{held}
use uaflow.Egress.Conservation.{one, held-send, held-send_pkt_default}
use uaflow.Ua.{
  Node, Slice, Event, fresh, on_header_value, on_event, run, httphandle, is_default, port_number,
  ua_size, message_begin, url, header_field, header_value,
}

-- Does the callback hand over the bytes of a header's value?
unfoldable pub is_value : Event → Bool
is_value (header_value s) = elim s.at [ none ↦ false | some _ ↦ ltb 0 s.length ]
is_value _ = false

-- No callback of the list does.
abbrev pub Quiet : List Event → Type 0
Quiet [] = Unit
Quiet (e ∷ es) = (is_value e ≡ false) × Quiet es

quiet-ua :
    (n : Node) (e : Event)
    → is_value e ≡ false
    → ((on_event n e).ua ≡ n.ua) × ((on_event n e).oncplt ≡ n.oncplt)
unfolding on_event is_value
quiet-ua n message_begin h = (refl, refl)
quiet-ua n (url s) h = ground arith
quiet-ua n (header_field s) h = ground arith
quiet-ua n (header_value s) h = ground arith
quiet-ua n _ h = (refl, refl)

run-Quiet :
    (n : Node) (es : List Event)
    → Quiet es
    → ((run n es).ua ≡ n.ua) × ((run n es).oncplt ≡ n.oncplt)
unfolding run
run-Quiet n [] h = (refl, refl)
run-Quiet n (e ∷ es) h =
    let first = quiet-ua n e h.0 in
    let rest = run-Quiet (on_event n e) es h.1 in (rest.0 ∙ first.0, rest.1 ∙ first.1)

run-append : (n : Node) (es es' : List Event) → run n (es ++ es') ≡ run (run n es) es'
unfolding run
run-append n [] es' = refl
run-append n (e ∷ es) es' = run-append (on_event n e) es es'

copied_length : (n : ℕ) → (if ltb (ua_size - 1) n then ua_size - 1 else n) ≡ min n (ua_size - 1)
copied_length n = ground arith

value-copied :
    (n : Node) (s : Slice) {bytes : List ℕ}
    → s.at ≡ some bytes
    → 0 < s.length
    → ((on_event n (header_value s)).ua ≡ strncpy n.ua bytes (min s.length (ua_size - 1)))
      × ((on_event n (header_value s)).oncplt ≡ true)
unfolding on_event
value-copied n s e long =
    let some_bytes = lt→ltb 0 s.length long in
    (
      rw (e, some_bytes, on_header_value) (rw (copied_length s.length)),
      rw (e, some_bytes, on_header_value),
    )

-- Where a request has one header with a value, in one piece, what is searched is that value up to
-- its first zero byte, cut to the 1023 bytes that the buffer has room for.
pub run-value :
    (before after : List Event) (s : Slice) {bytes : List ℕ}
    → Quiet before
    → Quiet after
    → s.at ≡ some bytes
    → 0 < s.length
    → ((run fresh (before ++ header_value s ∷ after)).oncplt ≡ true)
      × (text (run fresh (before ++ header_value s ∷ after)).ua
          ≡ text (take (min s.length (ua_size - 1)) bytes))
unfolding run fresh
run-value before after s {bytes} b a e long =
    let n = run fresh before in
    let start = run-Quiet fresh before b in
    let copy = value-copied n s e long in
    let rest = run-Quiet (on_event n (header_value s)) after a in
    rw (run-append fresh before (header_value s ∷ after), rest.0, rest.1, copy.0, copy.1, start.0)
      (refl, text-strncpy_zeros ua_size (min s.length (ua_size - 1)) bytes (omega arith))

module _ (q : RingQueue) (takes : Device q) (search : List ℕ → ℤ) where
  -- Wherever it goes, the packet is held once more than before, and no other packet is touched.
  pub held-httphandle :
      (a lcore_id p : ℕ) (es : List Event) (w : World q)
      → held q a (httphandle q takes search lcore_id p es w) ≡ held q a w + one a p
  unfolding httphandle
  held-httphandle a lcore_id p es w =
      let node = run fresh es in
      let portid = if node.oncplt then search node.ua else pos 0 in
      elim (Bool-cases (is_default portid)) [
        | inl e ↦ rw e (held-send_pkt_default q takes a p w)
        | inr e ↦ rw e (held-send q takes a p (port_number portid) (lcore_id - 1) w)
      ]
