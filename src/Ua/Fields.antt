-- ===== src/Ua/Fields.antt =====
-- What the headers' names have to do with the user agent that is searched: nothing.
use uaflow.Prelude.{ℕ, ◌≡◌, refl, List, [], ◌∷◌, arith}
use uaflow.Prelude.Int.{ℤ}
use uaflow.Egress.{RingQueue, World, Device}
use uaflow.Ua.{
  Node, Slice, Event, fresh, on_event, run, httphandle, message_begin, headers_complete,
  message_complete, url, status, header_field, header_value, body,
}

-- The callbacks less those for the headers' names.
pub without_fields : List Event → List Event
without_fields [] = []
without_fields (header_field s ∷ es) = without_fields es
without_fields (message_begin ∷ es) = message_begin ∷ without_fields es
without_fields (headers_complete ∷ es) = headers_complete ∷ without_fields es
without_fields (message_complete ∷ es) = message_complete ∷ without_fields es
without_fields (url s ∷ es) = url s ∷ without_fields es
without_fields (status s ∷ es) = status s ∷ without_fields es
without_fields (header_value s ∷ es) = header_value s ∷ without_fields es
without_fields (body s ∷ es) = body s ∷ without_fields es

-- Two states that agree on what is handed on.
record Agrees (n n' : Node) : Type 0 where
  ua : n.ua ≡ n'.ua
  ua_len : n.ua_len ≡ n'.ua_len
  oncplt : n.oncplt ≡ n'.oncplt

on_event-Agrees : (e : Event) (n n' : Node) → Agrees n n' → Agrees (on_event n e) (on_event n' e)
unfolding on_event
on_event-Agrees message_begin n n' a = ground arith
on_event-Agrees (url s) n n' a = ground arith
on_event-Agrees (header_field s) n n' a = ground arith
on_event-Agrees (header_value s) n n' a = ground arith
on_event-Agrees _ n n' a = a

field-Agrees : (s : Slice) (n n' : Node) → Agrees n n' → Agrees (on_event n (header_field s)) n'
unfolding on_event
field-Agrees s n n' a = ground arith

run-Agrees :
    (es : List Event) (n n' : Node) → Agrees n n' → Agrees (run n es) (run n' (without_fields es))
unfolding run without_fields
run-Agrees [] n n' a = a
run-Agrees (header_field s ∷ es) n n' a =
    run-Agrees es (on_event n (header_field s)) n' (field-Agrees s n n' a)
run-Agrees (e ∷ es) n n' a = run-Agrees es (on_event n e) (on_event n' e) (on_event-Agrees e n n' a)

module _ (q : RingQueue) (takes : Device q) (search : List ℕ → ℤ) where
  -- The names of a request's headers have no part in where its packet goes: without the callbacks
  -- for them it goes to the same place. So the value that is searched need not be a user agent's.
  pub httphandle-without_fields :
      (lcore_id p : ℕ) (es : List Event) (w : World q)
      → httphandle q takes search lcore_id p es w
        ≡ httphandle q takes search lcore_id p (without_fields es) w
  unfolding httphandle
  httphandle-without_fields lcore_id p es w =
      let a = run-Agrees es fresh fresh (record { ua = refl; ua_len = refl; oncplt = refl }) in
      rw (a.ua, a.oncplt)
