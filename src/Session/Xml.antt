-- ===== src/Session/Xml.antt =====
-- The fields of libyang's `struct lyxml_elem` that the program reads.
use libnetconf.Common.{Option, List, [], ◌∷◌}
use libnetconf.Common.Bytes.{Bytes}

mutual
  -- A name, the value of the namespace if there is one, the attributes by name, the text (where
  -- there is none it is empty), and the children.
  pub data Elem : Type 0 where
    elem :
        (name : Bytes) (ns : Option Bytes) (attrs : List (Bytes × Bytes)) (content : Bytes)
        (children : Elems)
        → Elem

  pub data Elems : Type 0 where
    nil : Elems
    cons : Elem → Elems → Elems

abbrev pub name_of : Elem → Bytes
name_of (elem name ns attrs content children) = name

abbrev pub ns_of : Elem → Option Bytes
ns_of (elem name ns attrs content children) = ns

abbrev pub content_of : Elem → Bytes
content_of (elem name ns attrs content children) = content

abbrev pub children_of : Elem → Elems
children_of (elem name ns attrs content children) = children

abbrev pub attrs_of : Elem → List (Bytes × Bytes)
attrs_of (elem name ns attrs content children) = attrs

abbrev pub listed : Elems → List Elem
listed nil = []
listed (cons x rest) = x ∷ listed rest

abbrev pub elems_of : List Elem → Elems
elems_of [] = nil
elems_of (x ∷ xs) = cons x (elems_of xs)
