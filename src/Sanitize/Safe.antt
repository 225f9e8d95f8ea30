-- ===== src/Sanitize/Safe.antt =====
-- Every attribute that the sanitizer sets is safe.
use urwhaturead.Prelude.{
  ◌≡◌, refl, ◌⊎◌, inl, inr, Bool, true, false, ◌||◌, Option, none, some, List, [], ◌∷◌, ◌==◌,
  if◌then◌else◌, Text, codes, is_empty, starts_with, text_eq, includes, insert, lookup, All, arith,
  Bool-cases, Option-cases, take, text_beq,
}
use urwhaturead.Prelude.Host.{Host, Url}
use urwhaturead.Sanitize.{
  Attributes, is_link_protocol, is_image_protocol, trimmed, given_base, set_text, set_int,
  link_attributes, sanitize_positive_int_attribute, sanitize_rich_link_url, sanitize_rich_image_url,
  image_attributes, element_attributes,
}

-- The names that the sanitizer sets: no event handler, no `style`, no `srcdoc`.
abbrev pub safe_attribute_names : List Text
safe_attribute_names =
    codes "src"
    ∷ codes "loading"
    ∷ codes "referrerpolicy"
    ∷ codes "alt"
    ∷ codes "title"
    ∷ codes "width"
    ∷ codes "height"
    ∷ codes "href"
    ∷ codes "target"
    ∷ codes "rel"
    ∷ codes "colspan"
    ∷ codes "rowspan"
    ∷ []

module _ (host : Host) (base_url : Option Text) where
  open host use {to_lower_case, parse_url}

  -- The serialised form of a URL that the browser parsed and whose protocol passes.
  pub record IsSerialised (passes : Text → Bool) (value : Text) : Type 0 where
    pub raw : Text
    pub url : Url
    pub parsed : parse_url raw (given_base base_url) ≡ some url
    pub serialised : value ≡ url.href
    pub protocol : passes (to_lower_case url.protocol) ≡ true

  -- A fragment link, or a link with the protocol http, https or mailto.
  abbrev pub IsSafeLink : Text → Type 0
  IsSafeLink value = (starts_with value (codes "#") ≡ true) ⊎ IsSerialised is_link_protocol value

  abbrev pub IsSafeImage : Text → Type 0
  IsSafeImage value = IsSerialised is_image_protocol value

  pub record IsSafeAttribute (attribute : Text × Text) : Type 0 where
    pub known : includes safe_attribute_names attribute.0 ≡ true
    pub safe_link : attribute.0 ≡ codes "href" → IsSafeLink attribute.1
    pub safe_image : attribute.0 ≡ codes "src" → IsSafeImage attribute.1

  insert-All :
      (name value : Text) (attrs : Attributes)
      → IsSafeAttribute (name, value)
      → All IsSafeAttribute attrs
      → All IsSafeAttribute (insert name value attrs)
  unfolding insert
  insert-All name value [] p h = (p, tt)
  insert-All name value ((k, v) ∷ attrs) p h = elim (Bool-cases (k == name)) [
    | inl e ↦ rw e (p, h.1)
    | inr e ↦ rw e (h.0, insert-All name value attrs p h.1)
  ]

  -- A name other than `href` and `src` takes any value.
  plain :
      (name value : Text)
      → includes safe_attribute_names name ≡ true
      → (name == codes "href") ≡ false
      → (name == codes "src") ≡ false
      → IsSafeAttribute (name, value)
  plain name value k h s = record {
    known = k;
    safe_link = λ e. ground (arith, (text_eq.beq_iff name (codes "href")).1 e);
    safe_image = λ e. ground (arith, (text_eq.beq_iff name (codes "src")).1 e);
  }

  link_url-IsSafeLink :
      (raw : Option Text) (href : Text)
      → sanitize_rich_link_url host base_url raw ≡ some href
      → IsSafeLink href
  unfolding sanitize_rich_link_url
  link_url-IsSafeLink raw href h = elim (Bool-cases (starts_with (trimmed raw) (codes "#"))) [
    | inl e ↦ inl (ground arith)
    | inr e ↦ elim (Option-cases (parse_url (trimmed raw) (given_base base_url))) [
      | inl p ↦ absurd (ground arith)
      | inr (url, p) ↦ inr (record {
        raw = trimmed raw;
        url = url;
        parsed = p;
        serialised = ground arith;
        protocol = ground arith;
      })
    ]
  ]

  pub image_url-IsSafeImage :
      (raw : Option Text) (src : Text)
      → sanitize_rich_image_url host base_url raw ≡ some src
      → IsSafeImage src
  unfolding sanitize_rich_image_url
  image_url-IsSafeImage raw src h =
      elim (Option-cases (parse_url (trimmed raw) (given_base base_url))) [
        | inl p ↦ absurd (ground arith)
        | inr (url, p) ↦ record {
          raw = trimmed raw;
          url = url;
          parsed = p;
          serialised = ground arith;
          protocol = ground arith;
        }
      ]

  set_text-All :
      (name : Text) (given attrs : Attributes)
      → includes safe_attribute_names name ≡ true
      → (name == codes "href") ≡ false
      → (name == codes "src") ≡ false
      → All IsSafeAttribute attrs
      → All IsSafeAttribute (set_text host base_url name given attrs)
  set_text-All name given attrs k h s a =
      elim (Bool-cases (is_empty (trimmed (lookup name given)))) [
        | inl e ↦ rw e a
        | inr e ↦
            rw e (
              insert-All name (take 400 (trimmed (lookup name given))) attrs (plain name _ k h s) a)
      ]

  set_int-All :
      (name : Text) (given attrs : Attributes)
      → includes safe_attribute_names name ≡ true
      → (name == codes "href") ≡ false
      → (name == codes "src") ≡ false
      → All IsSafeAttribute attrs
      → All IsSafeAttribute (set_int host base_url name given attrs)
  set_int-All name given attrs k h s a =
      elim (Bool-cases (is_empty (sanitize_positive_int_attribute (lookup name given)))) [
        | inl e ↦ rw e a
        | inr e ↦ rw e (insert-All name _ attrs (plain name _ k h s) a)
      ]

  src-IsSafe : (src : Text) → IsSafeImage src → IsSafeAttribute (codes "src", src)
  unfolding includes text_beq
  src-IsSafe src i = record { known = refl; safe_link = λ e. cc; safe_image = λ e. i }

  href-IsSafe : (href : Text) → IsSafeLink href → IsSafeAttribute (codes "href", href)
  unfolding includes text_beq
  href-IsSafe href i = record { known = refl; safe_link = λ e. i; safe_image = λ e. cc }

  pub image_attributes-safe :
      (src : Text) (given : Attributes)
      → IsSafeImage src
      → All IsSafeAttribute (image_attributes host base_url src given)
  unfolding image_attributes includes text_beq
  image_attributes-safe src given i = set_int-All (codes "height") given _ refl refl refl (
      set_int-All (codes "width") given _ refl refl refl (
        set_text-All (codes "title") given _ refl refl refl (
          set_text-All (codes "alt") given _ refl refl refl (
            insert-All _ _ _ (plain (codes "referrerpolicy") _ refl refl refl) (
              insert-All _ _ _ (plain (codes "loading") _ refl refl refl)
                (insert-All _ _ _ (src-IsSafe src i) tt))))))

  link_attributes-safe :
      (o : Option Text)
      → ((href : Text) → o ≡ some href → IsSafeLink href)
      → All IsSafeAttribute (link_attributes host base_url o)
  unfolding includes text_beq
  link_attributes-safe none h = tt
  link_attributes-safe (some []) h = tt
  link_attributes-safe (some (c ∷ s)) h = insert-All _ _ _ (plain (codes "rel") _ refl refl refl) (
      insert-All _ _ _ (plain (codes "target") _ refl refl refl)
        (insert-All _ _ _ (href-IsSafe (c ∷ s) (h (c ∷ s) refl)) tt))

  link-safe :
      (given : Attributes)
      → All IsSafeAttribute (
          set_text host base_url (codes "title") given (
            link_attributes host base_url
              (sanitize_rich_link_url host base_url (lookup (codes "href") given))))
  unfolding includes text_beq
  link-safe given = set_text-All (codes "title") given _ refl refl refl (
      link_attributes-safe (sanitize_rich_link_url host base_url (lookup (codes "href") given))
        (link_url-IsSafeLink (lookup (codes "href") given)))

  cell-safe :
      (given attrs : Attributes)
      → All IsSafeAttribute attrs
      → All IsSafeAttribute (
          set_int host base_url
            (codes "rowspan")
            given
            (set_int host base_url (codes "colspan") given attrs))
  unfolding includes text_beq
  cell-safe given attrs a =
      set_int-All (codes "rowspan") given _ refl refl refl
        (set_int-All (codes "colspan") given attrs refl refl refl a)

  if-All :
      (b : Bool) (xs ys : Attributes)
      → All IsSafeAttribute xs
      → All IsSafeAttribute ys
      → All IsSafeAttribute (if b then xs else ys)
  if-All true xs ys h k = h
  if-All false xs ys h k = k

  pub element_attributes-safe :
      (tag : Text) (given : Attributes)
      → All IsSafeAttribute (element_attributes host base_url tag given)
  unfolding element_attributes
  element_attributes-safe tag given =
      let w = if-All (tag == codes "a") _ [] (link-safe given) tt in
      if-All (tag == codes "td" || tag == codes "th") _ _ (cell-safe given _ w) w
