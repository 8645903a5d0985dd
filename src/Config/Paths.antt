-- ===== src/Config/Paths.antt =====
-- What is found in a document: what was put there, and what the encodings have to do with it.
use uaflow.Prelude.{
  ◌≡◌, refl, sym, ◌∙◌, true, false, Option, none, some, List, inl, inr, ◌⊎◌, Bool-cases,
  Option-cases,
}
use uaflow.Prelude.CString.{eq_bytes, eq_bytes_refl, eq_bytes-true}
use uaflow.Config.Tree.{
  Bytes, Xml, null, node, is_null, search_list, search_children, search_level, search4, ensure,
  add_node4, Encoding, utf_8, gb2312, unicode, retry, load,
}

-- A node of the name `v` whose children are `f` of something.
pub record IsNamed (v : Bytes) (f : Xml → Xml) (p : Xml) : Type 0 where
  pub attrs : List (Bytes × Bytes)
  pub children : Xml
  pub next : Xml
  pub same : p ≡ node v attrs (f children) next

pub search_list-ensure :
    (v : Bytes) (f : Xml → Xml) (p : Xml) → IsNamed v f (search_list (ensure v f p) v)
unfolding search_list ensure
search_list-ensure v f null = record {
  attrs = List.[];
  children = null;
  next = null;
  same = rw (eq_bytes_refl v);
}
search_list-ensure v f (node n a c x) = elim (Bool-cases (eq_bytes n v)) [
  | inl e ↦ record {
    attrs = a;
    children = c;
    next = x;
    same = rw (eq_bytes-true n v e, eq_bytes_refl v) (rw (eq_bytes_refl v));
  }
  | inr e ↦ rw (e, e) (search_list-ensure v f x)
]

-- The last name of the path, and what its children become.
abbrev pub last_name : (f2 : Bytes) (f3 f4 : Option Bytes) → Bytes
last_name f2 none f4 = f2
last_name f2 (some t) none = t
last_name f2 (some t) (some u) = u

-- One level further down.
search_children-ensure :
    (v w : Bytes) (f : Xml → Xml) (p : Xml)
    → IsNamed v (ensure w f) p
    → IsNamed w f (search_level p (some w))
unfolding search_level search_children
search_children-ensure v w f p found = rw found.same (search_list-ensure w f found.children)

-- Where an element is added to a document whose root has the first name of the path, the search for
-- the path then finds an element with the path's last name.
pub search4-add_node4 :
    (a : List (Bytes × Bytes)) (c x : Xml) (f1 f2 : Bytes) (f3 f4 : Option Bytes)
    → (new : Xml) × (add_node4 (node f1 a c x) f1 f2 f3 f4 ≡ some new)
      × IsNamed (last_name f2 f3 f4) (λ c. c) (search4 new f1 f2 f3 f4)
unfolding search4 add_node4 search_children search_level
search4-add_node4 a c x f1 f2 none f4 = (
  node f1 a (ensure f2 (λ c. c) c) x,
  rw (eq_bytes_refl f1),
  rw (eq_bytes_refl f1) (search_list-ensure f2 (λ c. c) c),
)
search4-add_node4 a c x f1 f2 (some t) none = (
  node f1 a (ensure f2 (ensure t (λ c. c)) c) x,
  rw (eq_bytes_refl f1),
  rw (eq_bytes_refl f1)
      (search_children-ensure f2 t (λ c. c) _ (search_list-ensure f2 (ensure t (λ c. c)) c)),
)
search4-add_node4 a c x f1 f2 (some t) (some u) = (
  node f1 a (ensure f2 (ensure t (ensure u (λ c. c))) c) x,
  rw (eq_bytes_refl f1),
  rw (eq_bytes_refl f1) (
      search_children-ensure t u (λ c. c) _
        (search_children-ensure f2 t (ensure u (λ c. c)) _
          (search_list-ensure f2 (ensure t (ensure u (λ c. c))) c))),
)

retry-null : (doc later : Option Xml) → retry null doc later ≡ later
unfolding retry
retry-null none later = refl
retry-null (some doc) later = refl

-- Only the first attempt, with UTF-8, can succeed: where the file is accessible the result is the
-- document read so, if it has a root, and nothing otherwise, whatever the other encodings give.
pub load-utf_8 :
    (read : Encoding → Option Xml)
    → ((doc : Xml) × (read utf_8 ≡ some doc) × (is_null doc ≡ false) × (load true read ≡ some doc))
      ⊎ ((load true read ≡ none) × ((doc : Xml) → read utf_8 ≡ some doc → is_null doc ≡ true))
unfolding load
load-utf_8 read = elim (Option-cases (read utf_8)) [
  | inl e ↦ inr (
    rw (
      e,
      retry-null (read gb2312) (retry null (read unicode) none),
      retry-null (read unicode) none,
    ),
    λ doc same. let bad : some doc ≡ none = sym same ∙ e in cc,
  )
  | inr (null, e) ↦ inr (
    rw (
      e,
      retry-null (read gb2312) (retry null (read unicode) none),
      retry-null (read unicode) none,
    ),
    λ doc same. let s : some doc ≡ some null = sym same ∙ e in let d : doc ≡ null = cc in rw d,
  )
  | inr (node n a c x, e) ↦ inl (node n a c x, e, refl, rw e)
]
