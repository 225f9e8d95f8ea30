-- ===== src/Sanitize/Tests.antt =====
-- Concrete runs of the sanitizer.
use urwhaturead.Prelude.{◌≡◌, none, some, [], ◌∷◌, codes}
use urwhaturead.Prelude.Samples.{small_host}
use urwhaturead.Sanitize.{
  Nodes, nil, cons, text, element, other, sanitize_children, sanitize_positive_int_attribute,
}
use urwhaturead.Sanitize.Clean.{AreClean, sanitize_children-AreClean}
use urwhaturead.Sanitize.Visible.{text_contents, visible_texts, sanitize_children-text}
use urwhaturead.Sanitize.Numbers.{IsSize, sanitize_positive_int_attribute-IsSize}

-- `<font>hi <a href="javascript:x">link</a></font><script>bad</script>`
abbrev page : Nodes
page =
    cons
      (element (codes "FONT") [] (
        cons (text (codes "hi ")) (
          cons
            (element (codes "A") ((codes "href", codes "javascript:x") ∷ [])
              (cons (text (codes "link")) nil))
            nil)))
      (cons (element (codes "SCRIPT") [] (cons (text (codes "bad")) nil)) (cons other nil))

sanitize_children-AreClean_example :
    AreClean small_host none (sanitize_children small_host none page)
sanitize_children-AreClean_example = sanitize_children-AreClean small_host none page

sanitize_children-text_example :
    text_contents (sanitize_children small_host none page) ≡ visible_texts small_host page
sanitize_children-text_example = sanitize_children-text small_host none page

sanitize_positive_int_attribute-IsSize_example :
    IsSize (sanitize_positive_int_attribute (some (codes " 640px")))
sanitize_positive_int_attribute-IsSize_example =
    sanitize_positive_int_attribute-IsSize (some (codes " 640px"))
