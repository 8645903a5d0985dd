-- ===== src/Config/Unlink.antt =====
-- What becomes of a document whose element is emptied.
use uaflow.Prelude.{
  ◌≡◌, refl, sym, ap, ◌∙◌, true, false, Option, none, some, List, inl, inr, Bool-cases,
}
use uaflow.Prelude.CString.{eq_bytes, eq_bytes_refl}
use uaflow.Config.Paths.{IsNamed, last_name, search_list-ensure}
use uaflow.Config.Tree.{
  Bytes, Xml, null, node, is_null, children_of, search_list, search_children, search_level, search4,
  ensure, add_node4, at_path, drop_children, unlink_children4,
}

-- What is done to the children of the node that a search among siblings finds, or to none.
ensure-search_list :
    (v : Bytes) (f g : Xml → Xml) (p : Xml)
    → f (children_of (search_list p v)) ≡ g (children_of (search_list p v))
    → ensure v f p ≡ ensure v g p
unfolding ensure search_list
ensure-search_list v f g null same = ap (λ c. node v List.[] c null) same
ensure-search_list v f g (node n a c x) same = elim (Bool-cases (eq_bytes n v)) [
  | inl e ↦ rw (e, (rw e at same)) refl
  | inr e ↦ rw (e, ensure-search_list v f g x (rw e at same)) refl
]

-- The node at a path among the root's children.
abbrev found_at : (f2 : Bytes) (f3 f4 : Option Bytes) → Xml → Xml
found_at f2 none f4 c = search_list c f2
found_at f2 (some t) none c = search_list (children_of (search_list c f2)) t
found_at f2 (some t) (some u) c =
    search_list (children_of (search_list (children_of (search_list c f2)) t)) u

at_path-found_at :
    (f2 : Bytes) (f3 f4 : Option Bytes) (f g : Xml → Xml) (c : Xml)
    → f (children_of (found_at f2 f3 f4 c)) ≡ g (children_of (found_at f2 f3 f4 c))
    → at_path f2 f3 f4 f c ≡ at_path f2 f3 f4 g c
unfolding at_path
at_path-found_at f2 none f4 f g c same = ensure-search_list f2 f g c same
at_path-found_at f2 (some t) none f g c same =
    ensure-search_list f2 (ensure t f) (ensure t g) c
      (ensure-search_list t f g (children_of (search_list c f2)) same)
at_path-found_at f2 (some t) (some u) f g c same =
    ensure-search_list f2 (ensure t (ensure u f)) (ensure t (ensure u g)) c (
      ensure-search_list t (ensure u f) (ensure u g) (children_of (search_list c f2)) (
        ensure-search_list u f g (children_of (search_list (children_of (search_list c f2)) t))
          same))

search_level-some : (p : Xml) (t : Bytes) → search_level p (some t) ≡ search_list (children_of p) t
unfolding search_level search_children search_list
search_level-some null t = refl
search_level-some (node n a c x) t = refl

search4-found_at :
    (a : List (Bytes × Bytes)) (c x : Xml) (f1 f2 : Bytes) (f3 f4 : Option Bytes)
    → search4 (node f1 a c x) f1 f2 f3 f4 ≡ found_at f2 f3 f4 c
unfolding search4 search_level search_children
search4-found_at a c x f1 f2 none f4 = rw (eq_bytes_refl f1) refl
search4-found_at a c x f1 f2 (some t) none =
    rw (eq_bytes_refl f1) (search_level-some (search_list c f2) t)
search4-found_at a c x f1 f2 (some t) (some u) = rw (eq_bytes_refl f1) (
    search_level-some (search_level (search_list c f2) (some t)) u
    ∙ ap (λ p. search_list (children_of p) u) (search_level-some (search_list c f2) t))

add_node4-at_path :
    (a : List (Bytes × Bytes)) (c x : Xml) (f1 f2 : Bytes) (f3 f4 : Option Bytes)
    → add_node4 (node f1 a c x) f1 f2 f3 f4 ≡ some (node f1 a (at_path f2 f3 f4 (λ c. c) c) x)
unfolding add_node4 at_path
add_node4-at_path a c x f1 f2 none f4 = rw (eq_bytes_refl f1) refl
add_node4-at_path a c x f1 f2 (some t) none = rw (eq_bytes_refl f1) refl
add_node4-at_path a c x f1 f2 (some t) (some u) = rw (eq_bytes_refl f1) refl

is_null-null : (p : Xml) → is_null p ≡ true → p ≡ null
is_null-null null e = refl
is_null-null (node n a c x) e = cc

null-is_null : (p : Xml) → is_null p ≡ false → (p ≡ null) → ⊥
null-is_null p some_node e = let gone : is_null null ≡ false = rw e at some_node in cc

-- A change that changes nothing of the node that is there.
ensure_kept :
    (v : Bytes) (f : Xml → Xml) (p : Xml)
    → is_null (search_list p v) ≡ false
    → f (children_of (search_list p v)) ≡ children_of (search_list p v)
    → ensure v f p ≡ p
unfolding ensure search_list
ensure_kept v f null there same = cc
ensure_kept v f (node n a c x) there same = elim (Bool-cases (eq_bytes n v)) [
  | inl e ↦ rw e (ap (λ k. node n a k x) (rw e at same))
  | inr e ↦ rw e (ap (λ k. node n a c k) (ensure_kept v f x (rw e at there) (rw e at same)))
]

-- A node is only found below one that is.
is_null-search_list :
    (p : Xml) (t : Bytes) → is_null (search_list (children_of p) t) ≡ false → is_null p ≡ false
unfolding search_list
is_null-search_list null t there = there
is_null-search_list (node n a c x) t there = refl

at_path_kept :
    (f2 : Bytes) (f3 f4 : Option Bytes) (f : Xml → Xml) (c : Xml)
    → is_null (found_at f2 f3 f4 c) ≡ false
    → f (children_of (found_at f2 f3 f4 c)) ≡ children_of (found_at f2 f3 f4 c)
    → at_path f2 f3 f4 f c ≡ c
unfolding at_path
at_path_kept f2 none f4 f c there same = ensure_kept f2 f c there same
at_path_kept f2 (some t) none f c there same =
    let first = search_list c f2 in
    ensure_kept f2 (ensure t f) c (is_null-search_list first t there)
      (ensure_kept t f (children_of first) there same)
at_path_kept f2 (some t) (some u) f c there same =
    let first = search_list c f2 in
    let second = search_list (children_of first) t in
    let second_there = is_null-search_list second u there in
    ensure_kept f2 (ensure t (ensure u f)) c (is_null-search_list first t second_there) (
      ensure_kept t (ensure u f) (children_of first) second_there
        (ensure_kept u f (children_of second) there same))

below :
    (v w : Bytes) (f : Xml → Xml) (p : Xml)
    → IsNamed v (ensure w f) p
    → IsNamed w f (search_list (children_of p) w)
below v w f p found = rw found.same (search_list-ensure w f found.children)

-- What is found at the path after a change there.
found_at-at_path :
    (f2 : Bytes) (f3 f4 : Option Bytes) (f : Xml → Xml) (c : Xml)
    → IsNamed (last_name f2 f3 f4) f (found_at f2 f3 f4 (at_path f2 f3 f4 f c))
unfolding at_path
found_at-at_path f2 none f4 f c = search_list-ensure f2 f c
found_at-at_path f2 (some t) none f c = below f2 t f _ (search_list-ensure f2 (ensure t f) c)
found_at-at_path f2 (some t) (some u) f c =
    below t u f _ (below f2 t (ensure u f) _ (search_list-ensure f2 (ensure t (ensure u f)) c))

-- The document whose element at the path has no children.
abbrev pub emptied : Xml → (f2 : Bytes) → (f3 f4 : Option Bytes) → Xml
emptied null f2 f3 f4 = null
emptied (node n a c x) f2 f3 f4 = node n a (at_path f2 f3 f4 (λ children. null) c) x

module _ (a : List (Bytes × Bytes)) (c x : Xml) (f1 f2 : Bytes) (f3 f4 : Option Bytes) where
  unlink_children4-emptied :
      unlink_children4 (node f1 a c x) f1 f2 f3 f4 ≡ some (emptied (node f1 a c x) f2 f3 f4)
  unfolding unlink_children4 drop_children
  unlink_children4-emptied =
      let at = search4-found_at a c x f1 f2 f3 f4 in
      let found = found_at f2 f3 f4 c in
      elim (Bool-cases (is_null found)) [
        | inl e ↦
            let gone = is_null-null found e in
            let same = at_path-found_at f2 f3 f4 (λ k. k) (λ k. null) c (rw gone refl) in
            rw (at, e) (add_node4-at_path a c x f1 f2 f3 f4 ∙ ap (λ k. some (node f1 a k x)) same)
        | inr e ↦ elim (Bool-cases (is_null (children_of found))) [
          | inl empty ↦
              let gone = is_null-null (children_of found) empty in
              let kept = at_path_kept f2 f3 f4 (λ k. null) c e (sym gone) in
              rw (at, e, empty) (ap (λ k. some (node f1 a k x)) (sym kept))
          | inr more ↦ rw (at, e, more) refl
        ]
      ]

  -- In a document whose root has the first name of the path, `config_unlink_children4` yields an
  -- element at the path that has the path's last name and no children, whether it was there before
  -- or not, and the document is changed nowhere else.
  pub search4-unlink_children4 :
      (new : Xml) × (unlink_children4 (node f1 a c x) f1 f2 f3 f4 ≡ some new)
      × (new ≡ emptied (node f1 a c x) f2 f3 f4)
      × IsNamed (last_name f2 f3 f4) (λ children. null) (search4 new f1 f2 f3 f4)
  search4-unlink_children4 =
      let inner = at_path f2 f3 f4 (λ children. null) c in
      let named = found_at-at_path f2 f3 f4 (λ children. null) c in
      (
        node f1 a inner x,
        unlink_children4-emptied,
        refl,
        rw (search4-found_at a inner x f1 f2 f3 f4) named,
      )
