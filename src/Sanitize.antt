-- ===== src/Sanitize.antt =====
-- lib/app-utils.ts, the sanitizer of article HTML: `sanitizeRichHTMLNode` and what it calls. A DOM
-- tree is a data type; the parser before it and the serializer behind it are the browser's.
pub mod Safe
pub mod Clean
pub mod Visible
pub mod Numbers
mod Tests
use urwhaturead.Prelude.{
  ℕ, zero, suc, ◌+◌, ◌-◌, ◌*◌, Bool, true, false, not, ◌&&◌, ◌||◌, Option, none, some, List, [],
  ◌∷◌, ◌++◌, ◌==◌, if◌then◌else◌, ltb, leb, take, Text, codes, trim, trim_start, is_empty,
  starts_with, text_eq, includes, lookup, insert, nat_beq,
}
use urwhaturead.Prelude.Host.{Host, Url}
use urwhaturead.Prelude.Decimal.{decimal}

abbrev pub Attributes : Type 0
Attributes = List (Text × Text)

mutual
  -- `other` is a node that is neither a text nor an element, such as a comment.
  pub data Node : Type 0 where
    text : Text → Node
    element : Text → Attributes → Nodes → Node
    other : Node

  pub data Nodes : Type 0 where
    nil : Nodes
    cons : Node → Nodes → Nodes

-- What the sanitizer returns: nothing, a node, or a fragment, whose nodes an append moves.
pub data Sanitized : Type 0 where
  nothing : Sanitized
  single : Node → Sanitized
  fragment : Nodes → Sanitized

abbrev pub allowed_rich_html_tags : List Text
allowed_rich_html_tags =
    codes "a"
    ∷ codes "p"
    ∷ codes "div"
    ∷ codes "span"
    ∷ codes "br"
    ∷ codes "hr"
    ∷ codes "strong"
    ∷ codes "em"
    ∷ codes "b"
    ∷ codes "i"
    ∷ codes "u"
    ∷ codes "s"
    ∷ codes "blockquote"
    ∷ codes "code"
    ∷ codes "pre"
    ∷ codes "ul"
    ∷ codes "ol"
    ∷ codes "li"
    ∷ codes "h1"
    ∷ codes "h2"
    ∷ codes "h3"
    ∷ codes "h4"
    ∷ codes "h5"
    ∷ codes "h6"
    ∷ codes "img"
    ∷ codes "table"
    ∷ codes "thead"
    ∷ codes "tbody"
    ∷ codes "tr"
    ∷ codes "td"
    ∷ codes "th"
    ∷ []

abbrev pub blocked_rich_html_tags : List Text
blocked_rich_html_tags =
    codes "script"
    ∷ codes "style"
    ∷ codes "iframe"
    ∷ codes "object"
    ∷ codes "embed"
    ∷ codes "form"
    ∷ codes "input"
    ∷ codes "button"
    ∷ codes "textarea"
    ∷ codes "select"
    ∷ codes "meta"
    ∷ codes "link"
    ∷ codes "svg"
    ∷ codes "math"
    ∷ codes "base"
    ∷ []

unfoldable pub is_allowed_tag : Text → Bool
is_allowed_tag = includes allowed_rich_html_tags

unfoldable pub is_blocked_tag : Text → Bool
is_blocked_tag = includes blocked_rich_html_tags

-- A decimal digit, and the value of the run of digits at the front of a text.
abbrev is_digit : ℕ → Bool
is_digit c = leb 48 c && leb c 57

unfoldable pub read_digits : Option ℕ → Text → Option ℕ
read_digits acc [] = acc
read_digits none (c ∷ s) =
    let rest = read_digits (some (c - 48)) s in if is_digit c then rest else none
read_digits (some n) (c ∷ s) =
    let rest = read_digits (some (n * 10 + (c - 48))) s in if is_digit c then rest else some n

-- `Number.parseInt(raw, 10)`; `none` is `NaN`. A negative result is given by `true`.
unfoldable pub parse_int : Text → Bool × Option ℕ
parse_int raw = elim (trim_start raw) [
  | [] ↦ (false, none)
  | c ∷ s ↦
      if nat_beq c b'-'
      then (true, read_digits none s)
      else if nat_beq c b'+'
      then (false, read_digits none s)
      else (false, read_digits none (c ∷ s))
]

-- By the value: a missing, negative or zero number, and one above 4000, give the empty text.
abbrev attribute_of_int : Bool × Option ℕ → Text
attribute_of_int (negative, none) = []
attribute_of_int (true, some n) = []
attribute_of_int (false, some n) = if leb n 0 then [] else if ltb 4000 n then [] else decimal n

unfoldable pub sanitize_positive_int_attribute : Option Text → Text
sanitize_positive_int_attribute none = []
sanitize_positive_int_attribute (some raw) =
    if is_empty raw then [] else attribute_of_int (parse_int raw)

-- `raw?.trim()`, with a missing text read as the empty one
abbrev pub trimmed : Option Text → Text
trimmed none = []
trimmed (some s) = trim s

abbrev is_web_protocol : Text → Bool
is_web_protocol protocol = protocol == codes "http:" || protocol == codes "https:"

unfoldable pub is_link_protocol : Text → Bool
is_link_protocol protocol = is_web_protocol protocol || protocol == codes "mailto:"

unfoldable pub is_image_protocol : Text → Bool
is_image_protocol protocol = is_web_protocol protocol

-- `if (value) element.setAttribute(name, value)`
abbrev pub set_if : Text → Text → Attributes → Attributes
set_if name value attrs = if is_empty value then attrs else insert name value attrs

abbrev pub append_all : Nodes → Nodes → Nodes
append_all nil ys = ys
append_all (cons x xs) ys = cons x (append_all xs ys)

-- The nodes that an append of the result adds in front of those that follow.
abbrev pub append_sanitized : Sanitized → Nodes → Nodes
append_sanitized nothing rest = rest
append_sanitized (single node) rest = cons node rest
append_sanitized (fragment nodes) rest = append_all nodes rest

-- `fragment.childNodes.length > 0 ? fragment : null`
abbrev pub fragment_or_nothing : Nodes → Sanitized
fragment_or_nothing nil = nothing
fragment_or_nothing (cons x xs) = fragment (cons x xs)

-- `baseURL ? new URL(value, baseURL) : new URL(value)`
abbrev pub given_base : Option Text → Option Text
given_base none = none
given_base (some base) = if is_empty base then none else some base

module _ (host : Host) (base_url : Option Text) where
  open host use {to_lower_case, parse_url}

  unfoldable pub sanitize_rich_link_url : Option Text → Option Text
  sanitize_rich_link_url raw_url =
      let value = trimmed raw_url in
      let parsed : Option Text = elim (parse_url value (given_base base_url)) [
        | none ↦ none
        | some url ↦ if is_link_protocol (to_lower_case url.protocol) then some url.href else none
      ] in
      if is_empty value then none else if starts_with value (codes "#") then some value else parsed

  unfoldable pub sanitize_rich_image_url : Option Text → Option Text
  sanitize_rich_image_url raw_url =
      let value = trimmed raw_url in
      let parsed : Option Text = elim (parse_url value (given_base base_url)) [
        | none ↦ none
        | some url ↦ if is_image_protocol (to_lower_case url.protocol) then some url.href else none
      ] in
      if is_empty value then none else parsed

  -- `if (title) element.setAttribute('title', title.slice(0, 400))`
  abbrev set_text : Text → Attributes → Attributes → Attributes
  set_text name given attrs =
      let value = trimmed (lookup name given) in
      if is_empty value then attrs else insert name (take 400 value) attrs

  abbrev set_int : Text → Attributes → Attributes → Attributes
  set_int name given attrs = set_if name (sanitize_positive_int_attribute (lookup name given)) attrs

  -- The attributes of a kept image, in the order in which they are set.
  unfoldable pub image_attributes : Text → Attributes → Attributes
  image_attributes src given = set_int (codes "height") given (
      set_int (codes "width") given (
        set_text (codes "title") given (
          set_text (codes "alt") given (
            insert (codes "referrerpolicy") (codes "no-referrer")
              (insert (codes "loading") (codes "lazy") (insert (codes "src") src []))))))

  abbrev link_attributes : Option Text → Attributes
  link_attributes none = []
  link_attributes (some []) = []
  link_attributes (some (c ∷ s)) =
      insert (codes "rel") (codes "noopener noreferrer nofollow ugc")
        (insert (codes "target") (codes "_blank") (insert (codes "href") (c ∷ s) []))

  -- The attributes of any other kept element.
  unfoldable pub element_attributes : Text → Attributes → Attributes
  element_attributes tag given =
      let link =
        set_text (codes "title") given
          (link_attributes (sanitize_rich_link_url (lookup (codes "href") given))) in
      let with_link = if tag == codes "a" then link else [] in
      let cell = set_int (codes "rowspan") given (set_int (codes "colspan") given with_link) in
      if tag == codes "td" || tag == codes "th" then cell else with_link

  abbrev sanitize_image : Option Text → Attributes → Sanitized
  sanitize_image none given = nothing
  sanitize_image (some []) given = nothing
  sanitize_image (some (c ∷ s)) given =
      single (element (codes "img") (image_attributes (c ∷ s) given) nil)

  -- What becomes of an element, given its sanitized children.
  unfoldable pub sanitize_element : Text → Attributes → Nodes → Sanitized
  sanitize_element tag given children =
      if is_blocked_tag tag
      then nothing
      else if not (is_allowed_tag tag)
      then fragment_or_nothing children
      else if tag == codes "img"
      then sanitize_image (sanitize_rich_image_url (lookup (codes "src") given)) given
      else single (element tag (element_attributes tag given) children)

  unfoldable mutual
    pub sanitize_rich_html_node : Node → Sanitized
    sanitize_rich_html_node (text s) = single (text s)
    sanitize_rich_html_node (element name given children) =
        sanitize_element (to_lower_case name) given (sanitize_children children)
    sanitize_rich_html_node other = nothing

    -- The loops over `childNodes`, of an element and of the root.
    pub sanitize_children : Nodes → Nodes
    sanitize_children nil = nil
    sanitize_children (cons node nodes) =
        append_sanitized (sanitize_rich_html_node node) (sanitize_children nodes)
