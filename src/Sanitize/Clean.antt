-- ===== src/Sanitize/Clean.antt =====
-- Nothing dangerous is left in a sanitized tree.
use urwhaturead.Prelude.{
  ◌≡◌, refl, inl, inr, true, false, Option, none, some, [], ◌∷◌, ◌==◌, Text, codes, text_eq,
  includes, lookup, All, Bool-cases, text_beq,
}
use urwhaturead.Prelude.Host.{Host}
use urwhaturead.Sanitize.{
  Attributes, Node, text, element, other, Nodes, nil, cons, is_allowed_tag, is_blocked_tag,
  sanitize_image, append_all, append_sanitized, fragment_or_nothing, sanitize_rich_image_url,
  sanitize_element, sanitize_rich_html_node, sanitize_children,
}
use urwhaturead.Sanitize.Safe.{
  IsSafeAttribute, IsSafeImage, element_attributes-safe, image_attributes-safe,
  image_url-IsSafeImage,
}

module _ (host : Host) (base_url : Option Text) where
  open host use {to_lower_case, parse_url}

  -- Every element has an allowed tag that is not blocked and safe attributes; there is no comment.
  mutual
    pub IsClean : Node → Type 0
    IsClean (text s) = Unit
    IsClean (element tag attrs children) =
        (is_allowed_tag tag ≡ true)
        × (is_blocked_tag tag ≡ false)
        × All (IsSafeAttribute host base_url) attrs
        × AreClean children
    IsClean other = ⊥

    pub AreClean : Nodes → Type 0
    AreClean nil = Unit
    AreClean (cons node nodes) = IsClean node × AreClean nodes

  fragment-clean :
      (nodes : Nodes)
      → AreClean nodes
      → (rest : Nodes) → AreClean rest
      → AreClean (append_sanitized (fragment_or_nothing nodes) rest)
  unfolding AreClean
  fragment-clean nil h rest k = k
  fragment-clean (cons x xs) h rest k = (h.0, append_all-clean xs h.1)
    where
      append_all-clean : (ys : Nodes) → AreClean ys → AreClean (append_all ys rest)
      append_all-clean nil h = k
      append_all-clean (cons y ys) h = (h.0, append_all-clean ys h.1)

  shown_image-clean :
      (o : Option Text) (given : Attributes) (rest : Nodes)
      → ((src : Text) → o ≡ some src → IsSafeImage host base_url src)
      → AreClean rest
      → AreClean (append_sanitized (sanitize_image host base_url o given) rest)
  unfolding AreClean is_allowed_tag is_blocked_tag
  shown_image-clean none given rest h k = k
  shown_image-clean (some []) given rest h k = k
  shown_image-clean (some (c ∷ s)) given rest h k = (
    (
      (unfold includes text_beq in refl),
      (unfold includes text_beq in refl),
      image_attributes-safe host base_url (c ∷ s) given (h (c ∷ s) refl),
      tt,
    ),
    k,
  )

  image-clean :
      (given : Attributes) (rest : Nodes)
      → AreClean rest
      → AreClean (
          append_sanitized
            (sanitize_image host base_url
              (sanitize_rich_image_url host base_url (lookup (codes "src") given))
              given)
            rest)
  image-clean given rest k =
      shown_image-clean (sanitize_rich_image_url host base_url (lookup (codes "src") given)) given
        rest (image_url-IsSafeImage host base_url (lookup (codes "src") given)) k

  element-clean :
      (tag : Text) (given : Attributes) (children rest : Nodes)
      → AreClean children
      → AreClean rest
      → AreClean (append_sanitized (sanitize_element host base_url tag given children) rest)
  unfolding sanitize_element
  element-clean tag given children rest c k = elim (Bool-cases (is_blocked_tag tag)) [
    | inl b ↦ rw b k
    | inr b ↦ elim (Bool-cases (is_allowed_tag tag)) [
      | inr a ↦ rw (b, a) (fragment-clean children c rest k)
      | inl a ↦ elim (Bool-cases (tag == codes "img")) [
        | inr i ↦
            rw (b, a, i)
              (unfold AreClean in ((a, b, element_attributes-safe host base_url tag given, c), k))
        | inl i ↦ rw (b, a, i) (image-clean given rest k)
      ]
    ]
  ]

  mutual
    unfolding sanitize_rich_html_node AreClean

    node-clean :
        (node : Node) (rest : Nodes)
        → AreClean rest
        → AreClean (append_sanitized (sanitize_rich_html_node host base_url node) rest)
    node-clean (text s) rest k = (tt, k)
    node-clean (element name given children) rest k =
        element-clean (to_lower_case name) given (sanitize_children host base_url children) rest
          (nodes-clean children) k
    node-clean other rest k = k

    nodes-clean : (nodes : Nodes) → AreClean (sanitize_children host base_url nodes)
    nodes-clean nil = tt
    nodes-clean (cons node nodes) =
        node-clean node (sanitize_children host base_url nodes) (nodes-clean nodes)

-- Whatever tree the browser parsed, every element that the sanitizer keeps has an allowed tag that
-- is not blocked, and only attributes of the fixed list; a link is a fragment or a parsed URL of
-- the protocols http, https and mailto, an image a parsed URL of http and https.
pub sanitize_children-AreClean :
    (host : Host) (base_url : Option Text) (nodes : Nodes)
    → AreClean host base_url (sanitize_children host base_url nodes)
sanitize_children-AreClean host base_url nodes = nodes-clean host base_url nodes
