-- ===== src/Ua/Buffer.antt =====
-- The user agent's buffer.
use uaflow.Prelude.{
  ℕ, ◌-◌, ◌<◌, ◌≡◌, refl, ◌∙◌, true, false, some, List, [], ◌∷◌, arith, ltb, if◌then◌else◌, length,
  get_elem?, Option-cases, inl, inr, Bool-cases,
}
use uaflow.Prelude.CString.{strncpy, length-strncpy, get_elem?-strncpy}
use uaflow.Ua.{
  Node, Slice, Event, ua_size, fresh, on_header_value, on_event, run, message_begin,
  headers_complete, message_complete, url, status, header_field, header_value, body,
}

-- The buffer has its size, its last byte is the terminator, and the length that is kept leaves room
-- for it.
pub record IsTerminated (n : Node) : Type 0 where
  pub size : length n.ua ≡ ua_size
  pub end : get_elem? n.ua (ua_size - 1) ≡ some 0
  pub bound : n.ua_len < ua_size

-- A copy of fewer bytes than the buffer has keeps all that.
copy-IsTerminated :
    (n : Node) (bytes : List ℕ) (len : ℕ)
    → len < ua_size
    → IsTerminated n
    → IsTerminated
        (record n { ua_len = len; ua = strncpy n.ua bytes len; onua = false; oncplt = true })
copy-IsTerminated n bytes len short v = record {
  size = length-strncpy n.ua bytes len (omega (arith, v.size)) ∙ v.size;
  end = get_elem?-strncpy n.ua bytes len (ua_size - 1) (omega arith) ∙ v.end;
  bound = short;
}

value-IsTerminated : (n : Node) (s : Slice) → IsTerminated n → IsTerminated (on_header_value n s)
unfolding on_header_value
value-IsTerminated n s v = elim (Option-cases s.at) [
  | inl e ↦ rw (e, on_header_value) v
  | inr (bytes, e) ↦ elim (Bool-cases (ltb 0 s.length)) [
    | inl long ↦
        rw (e, long, on_header_value)
          (copy-IsTerminated n bytes (if ltb (ua_size - 1) s.length then ua_size - 1 else s.length)
            (ground arith) v)
    | inr empty ↦ rw (e, empty, on_header_value) v
  ]
]

on_event-IsTerminated : (n : Node) (e : Event) → IsTerminated n → IsTerminated (on_event n e)
unfolding on_event
on_event-IsTerminated n message_begin v = ground arith
on_event-IsTerminated n (url s) v = ground arith
on_event-IsTerminated n (status s) v = v
on_event-IsTerminated n (header_field s) v = ground arith
on_event-IsTerminated n (header_value s) v = value-IsTerminated n s v
on_event-IsTerminated n headers_complete v = v
on_event-IsTerminated n (body s) v = v
on_event-IsTerminated n message_complete v = v

run-IsTerminated : (n : Node) (es : List Event) → IsTerminated n → IsTerminated (run n es)
unfolding run
run-IsTerminated n [] v = v
run-IsTerminated n (e ∷ es) v = run-IsTerminated (on_event n e) es (on_event-IsTerminated n e v)

-- Whatever callbacks the parser makes, the buffer that is searched has its size, ends with a
-- terminator, and the length that is kept is smaller than it.
pub fresh-IsTerminated : (es : List Event) → IsTerminated (run fresh es)
unfolding fresh
fresh-IsTerminated es =
    run-IsTerminated fresh es (record { size = refl; end = refl; bound = omega arith })
