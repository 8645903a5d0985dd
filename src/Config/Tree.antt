-- ===== src/Config/Tree.antt =====
-- flow_config/flow_config_xml.c: the search in a document and the insertion of elements.
use uaflow.Prelude.{ℕ, Bool, true, false, Option, none, some, List, [], ◌∷◌, if◌then◌else◌}
use uaflow.Prelude.Int.{ℤ}
use uaflow.Prelude.CString.{eq_bytes}

abbrev pub Bytes : Type 0
Bytes = List ℕ

-- `xmlNode` by its pointers `children` and `next`; `null` is the null pointer. A pointer to a node
-- is the node with its later siblings.
pub data Xml : Type 0 where
  null : Xml
  node : (name : Bytes) (attrs : List (Bytes × Bytes)) (children next : Xml) → Xml

abbrev pub is_null : Xml → Bool
is_null null = true
is_null (node _ _ _ _) = false

abbrev pub next_of : Xml → Xml
next_of null = null
next_of (node n a c x) = x

abbrev pub children_of : Xml → Xml
children_of null = null
children_of (node n a c x) = c

-- `xmlGetProp`
unfoldable pub get_prop : List (Bytes × Bytes) → Bytes → Option Bytes
get_prop [] v = none
get_prop ((n, t) ∷ as') v = if eq_bytes n v then some t else get_prop as' v

-- `config_search_attr_value`
unfoldable pub search_attr_value : Xml → Bytes → Option Bytes
unfolding get_prop
search_attr_value null v = none
search_attr_value (node n a c x) v = get_prop a v

-- `config_search_list`
unfoldable pub search_list : Xml → Bytes → Xml
search_list null v = null
search_list (node n a c x) v = if eq_bytes n v then node n a c x else search_list x v

-- `config_search_next` and `config_search_children`, which are called on a node only.
unfoldable pub search_next : Xml → Bytes → Xml
search_next p v = search_list (next_of p) v

unfoldable pub search_children : Xml → Bytes → Xml
search_children p v = search_list (children_of p) v

-- A level of the path below the second: `!pnode || !f`.
unfoldable pub search_level : Xml → Option Bytes → Xml
unfolding search_children
search_level p none = p
search_level null (some f) = null
search_level (node n a c x) (some f) = search_children (node n a c x) f

-- `config_search4`. The document is its root element; `none` for `f3` ends the search whatever `f4`
-- is.
unfoldable pub search4 : Xml → (f1 f2 : Bytes) → (f3 f4 : Option Bytes) → Xml
unfolding search_level search_children
search4 null f1 f2 f3 f4 = null
search4 (node n a c x) f1 f2 f3 f4 =
    if eq_bytes n f1
    then elim f3 [
      | none ↦ search_children (node n a c x) f2
      | some t ↦ search_level (search_level (search_children (node n a c x) f2) (some t)) f4
    ]
    else null

-- `config_search_children`, `config_add_children_node` where it finds nothing, and a change `f` of
-- the children of the node that either yields, on the list of siblings.
unfoldable pub ensure : Bytes → (Xml → Xml) → Xml → Xml
ensure v f null = node v [] (f null) null
ensure v f (node n a c x) = if eq_bytes n v then node n a (f c) x else node n a c (ensure v f x)

abbrev pub ensure_level : Option Bytes → (Xml → Xml) → Xml → Xml
ensure_level none f c = c
ensure_level (some v) f c = ensure v f c

-- `config_add_node4`: the document after it; `none` where the root has another name.
-- (The source does not expect a document without a root.)
unfoldable pub add_node4 : Xml → (f1 f2 : Bytes) → (f3 f4 : Option Bytes) → Option Xml
unfolding ensure
add_node4 null f1 f2 f3 f4 = none
add_node4 (node n a c x) f1 f2 f3 f4 =
    if eq_bytes n f1
    then some (node n a (ensure f2 (ensure_level f3 (ensure_level f4 (λ c. c))) c) x)
    else none

-- The encodings that `config_load` tries.
pub data Encoding : Type 0 where
  utf_8 gb2312 unicode : Encoding

-- `config_load`: `read` is `xmlReadFile`, which yields a document or nothing, and the document has
-- a root or not. The root that the second and the third attempt test is still that of the first.
root_of : Option Xml → Xml
root_of none = null
root_of (some doc) = doc

unfoldable pub retry : (proot : Xml) (doc later : Option Xml) → Option Xml
retry proot none later = later
retry null (some doc) later = later
retry (node n a c x) (some doc) later = some doc

unfoldable pub load : (accessible : Bool) → (read : Encoding → Option Xml) → Option Xml
unfolding root_of retry
load false read = none
load true read =
    let proot = root_of (read utf_8) in
    if is_null proot
    then retry proot (read gb2312) (retry proot (read unicode) none)
    else some proot

-- `config_new`
abbrev version_attr : Bytes
version_attr = b'V' ∷ b'e' ∷ b'r' ∷ b's' ∷ b'i' ∷ b'o' ∷ b'n' ∷ []

unfoldable pub new_doc : (f1 : Bytes) → Xml
new_doc f1 = node f1 ((version_attr, b'1' ∷ b'.' ∷ b'0' ∷ []) ∷ []) null null

-- `xmlSetProp`: the attribute's value is replaced, or the attribute is put behind the others.
unfoldable pub set_prop : (v value : Bytes) → List (Bytes × Bytes) → List (Bytes × Bytes)
set_prop v value [] = (v, value) ∷ []
set_prop v value ((n, t) ∷ rest) =
    if eq_bytes n v then (n, value) ∷ rest else (n, t) ∷ set_prop v value rest

-- `config_set_attr_value`
unfoldable pub set_attr_value : Xml → (v value : Bytes) → Xml
unfolding set_prop
set_attr_value null v value = null
set_attr_value (node n a c x) v value = node n (set_prop v value a) c x

-- The children of the node at a path are changed by `f`, among the root's children.
unfoldable pub at_path : (f2 : Bytes) → (f3 f4 : Option Bytes) → (Xml → Xml) → Xml → Xml
unfolding ensure
at_path f2 none f4 f = ensure f2 f
at_path f2 (some t) none f = ensure f2 (ensure t f)
at_path f2 (some t) (some u) f = ensure f2 (ensure t (ensure u f))

-- `pnode->children = NULL` for the node that `config_search4` has found. (Memory is not modelled, so
-- `xmlFreeNodeList` changes nothing.)
unfoldable pub drop_children : Xml → (f2 : Bytes) → (f3 f4 : Option Bytes) → Xml
unfolding at_path
drop_children null f2 f3 f4 = null
drop_children (node n a c x) f2 f3 f4 = node n a (at_path f2 f3 f4 (λ children. null) c) x

-- `config_unlink_children4`: the document after it, or `none` where the root has another name.
unfoldable pub unlink_children4 : Xml → (f1 f2 : Bytes) → (f3 f4 : Option Bytes) → Option Xml
unfolding search4 add_node4 drop_children
unlink_children4 doc f1 f2 f3 f4 =
    let pnode = search4 doc f1 f2 f3 f4 in
    if is_null pnode
    then add_node4 doc f1 f2 f3 f4
    else if is_null (children_of pnode)
    then some doc
    else some (drop_children doc f2 f3 f4)

-- `config_save`, on the text of the file, if there is one: `unlinks` says whether the old file can
-- be removed, and `write` is `xmlSaveFormatFileEnc`, with the value that it returns.
unfoldable pub save :
    (write : Xml → Option Bytes → Option Bytes × ℤ)
    → (unlinks : Bool) → Xml
    → Option Bytes
    → Option Bytes × ℤ
save write unlinks doc none = write doc none
save write unlinks doc (some old) = write doc (if unlinks then none else some old)
