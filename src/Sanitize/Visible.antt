-- ===== src/Sanitize/Visible.antt =====
-- The sanitizer keeps the text of an article.
use urwhaturead.Prelude.{
  ◌≡◌, refl, sym, ap, ◌∙◌, Bool, ◌||◌, ◌&&◌, Option, none, some, [], ◌++◌, ◌==◌, if◌then◌else◌,
  Text, codes, text_eq, Bool-cases, inl, inr,
}
use mathlib.Core.List.{◌∷◌, append_assoc}
use urwhaturead.Prelude.Host.{Host}
use urwhaturead.Sanitize.{
  Attributes, Node, text, element, other, Nodes, nil, cons, is_allowed_tag, is_blocked_tag,
  append_all, append_sanitized, fragment_or_nothing, sanitize_image, sanitize_element,
  sanitize_rich_html_node, sanitize_children,
}

-- `textContent`
mutual
  pub text_content : Node → Text
  text_content (text s) = s
  text_content (element name attrs children) = text_contents children
  text_content other = []

  pub text_contents : Nodes → Text
  text_contents nil = []
  text_contents (cons node nodes) = text_content node ++ text_contents nodes

module _ (host : Host) where
  open host use {to_lower_case}

  abbrev hides_text : Text → Bool
  hides_text tag = is_blocked_tag tag || (is_allowed_tag tag && (tag == codes "img"))

  -- The text outside blocked elements, images and comments.
  mutual
    pub visible_text : Node → Text
    visible_text (text s) = s
    visible_text (element name attrs children) =
        if hides_text (to_lower_case name) then [] else visible_texts children
    visible_text other = []

    pub visible_texts : Nodes → Text
    visible_texts nil = []
    visible_texts (cons node nodes) = visible_text node ++ visible_texts nodes

append_all-text :
    (xs ys : Nodes) → text_contents (append_all xs ys) ≡ text_contents xs ++ text_contents ys
unfolding text_contents
append_all-text nil ys = refl
append_all-text (cons x xs) ys =
    ap (λ s. text_content x ++ s) (append_all-text xs ys)
    ∙ sym (append_assoc (text_content x) (text_contents xs) (text_contents ys))

empty_text : text_contents nil ≡ []
unfolding text_contents
empty_text = refl

unfold_text :
    (s : Text) (rest : Nodes) → text_contents (cons (text s) rest) ≡ s ++ text_contents rest
unfolding text_contents
unfold_text s rest = refl

fragment-text :
    (nodes rest : Nodes)
    → text_contents (append_sanitized (fragment_or_nothing nodes) rest)
      ≡ text_contents nodes ++ text_contents rest
fragment-text nil rest = unfold text_contents in refl
fragment-text (cons x xs) rest = append_all-text (cons x xs) rest

module _ (host : Host) (base_url : Option Text) where
  open host use {to_lower_case}

  image-text :
      (o : Option Text) (given : Attributes) (rest : Nodes)
      → text_contents (append_sanitized (sanitize_image host base_url o given) rest)
        ≡ text_contents rest
  unfolding text_contents
  image-text none given rest = refl
  image-text (some []) given rest = refl
  image-text (some (c ∷ s)) given rest = refl

  element-text :
      (tag : Text) (given : Attributes) (children rest : Nodes)
      → text_contents (append_sanitized (sanitize_element host base_url tag given children) rest)
        ≡ (if hides_text host tag then [] else text_contents children) ++ text_contents rest
  unfolding sanitize_element
  element-text tag given children rest = elim (Bool-cases (is_blocked_tag tag)) [
    | inl b ↦ rw b
    | inr b ↦ elim (Bool-cases (is_allowed_tag tag)) [
      | inr a ↦ rw (b, a) (fragment-text children rest)
      | inl a ↦ elim (Bool-cases (tag == codes "img")) [
        | inr i ↦ rw (b, a, i) (unfold text_contents in refl)
        | inl i ↦ rw (b, a, i) (image-text _ given rest)
      ]
    ]
  ]

  mutual
    unfolding sanitize_rich_html_node visible_text

    node-text :
        (node : Node) (rest : Nodes)
        → text_contents (append_sanitized (sanitize_rich_html_node host base_url node) rest)
          ≡ visible_text host node ++ text_contents rest
    node-text (text s) rest = unfold_text s rest
    node-text (element name given children) rest =
        element-text (to_lower_case name) given (sanitize_children host base_url children) rest
        ∙ ap (λ s. (if hides_text host (to_lower_case name) then [] else s) ++ text_contents rest)
            (nodes-text children)
    node-text other rest = refl

    nodes-text :
        (nodes : Nodes)
        → text_contents (sanitize_children host base_url nodes) ≡ visible_texts host nodes
    nodes-text nil = empty_text
    nodes-text (cons node nodes) =
        node-text node (sanitize_children host base_url nodes)
        ∙ ap (λ s. visible_text host node ++ s) (nodes-text nodes)

-- The text of the sanitized tree is the text of the given one outside blocked elements, images and
-- comments, in the same order: an element with an unknown tag loses its tag and keeps its text.
pub sanitize_children-text :
    (host : Host) (base_url : Option Text) (nodes : Nodes)
    → text_contents (sanitize_children host base_url nodes) ≡ visible_texts host nodes
sanitize_children-text host base_url nodes = nodes-text host base_url nodes
