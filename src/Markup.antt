-- ===== src/Markup.antt =====
-- src/markup.c: quoting, stripping of tags, links and images.
pub mod Quote
pub mod Escape
use dunst.Base.{
  ℕ, zero, suc, ◌+◌, ◌-◌, Bool, true, false, not, ◌&&◌, ◌||◌, Option, none, some, is_some, List, [],
  ◌∷◌, ◌++◌, length, take, drop, Str, CString, codes, strchr, strstr, has_prefix, ltb, ◌==◌,
  if◌then◌else◌, isdigit, isxdigit, skip_while, str_empty,
}
use dunst.Settings.{Settings, MarkupMode, markup_null, markup_no, markup_full}
use dunst.Utils.{string_replace_at, string_replace_all, string_append, string_strip_delimited}

unfoldable pub markup_quote : Str → Str
unfolding string_replace_all
markup_quote str =
    let a = string_replace_all (codes "&") (codes "&amp;") str in
    let b = string_replace_all (codes "\"") (codes "&quot;") a in
    let c = string_replace_all (codes "'") (codes "&apos;") b in
    let d = string_replace_all (codes "<") (codes "&lt;") c in
    string_replace_all (codes ">") (codes "&gt;") d

unfoldable pub markup_unquote : Str → Str
unfolding string_replace_all
markup_unquote str =
    let a = string_replace_all (codes "&quot;") (codes "\"") str in
    let b = string_replace_all (codes "&apos;") (codes "'") a in
    let c = string_replace_all (codes "&lt;") (codes "<") b in
    let d = string_replace_all (codes "&gt;") (codes ">") c in
    string_replace_all (codes "&amp;") (codes "&") d

unfoldable pub markup_br2nl : Str → Str
unfolding string_replace_all
markup_br2nl str =
    let a = string_replace_all (codes "<br>") (codes "\n") str in
    let b = string_replace_all (codes "<br/>") (codes "\n") a in
    string_replace_all (codes "<br />") (codes "\n") b

-- The text of a link as it stands in the list of URLs: without brackets and line breaks.
unfoldable pub menu_text : Str → Str
unfolding string_replace_all
menu_text text =
    string_replace_all (codes "\n") (codes "\\n")
      (string_replace_all (codes "[") [] (string_replace_all (codes "]") [] text))

-- g_strdup_printf("[%s] %s", text, url), appended to the list where the caller wants one.
unfoldable pub add_url : Bool → CString → Str → CString → CString
unfolding menu_text string_append
add_url wanted urls text none = urls
add_url wanted urls text (some url) =
    if wanted
    then string_append urls (some (codes "[" ++ (menu_text text ++ (codes "] " ++ url))))
        (some (codes "\n"))
    else urls

-- The end of a round of a tag loop: the text, the URLs, and whether the loop goes on.
pub record Round : Type 0 where
  pub text : Str
  pub urls : CString
  pub goes_on : Bool

-- The value of href, if its quotes close before the tag does. Offsets count from the tag on.
unfoldable pub plain_url : Str → ℕ → CString
plain_url tag tag1_end = elim (strstr tag (codes "href=\"")) [
  | none ↦ none
  | some href ↦
      if ltb href tag1_end
      then (elim (strstr (drop (href + 6) tag) (codes "\"")) [
        | none ↦ none
        | some quote ↦
            if ltb (href + 6 + quote) tag1_end
            then some (take quote (drop (href + 6) tag))
            else none
      ])
      else none
]

-- A link whose tag ends at `tag1_end`, with a closing tag at `tag2` or without one.
unfoldable pub strip_link : Bool → Str → ℕ → ℕ → Option ℕ → CString → Round
unfolding plain_url add_url string_replace_at
strip_link wanted str start tag1_end tag2 urls =
    let tag = drop start str in
    let rest = drop (tag1_end + 1) tag in
    let text_len : ℕ = elim tag2 [ none ↦ length rest | some close ↦ close - (tag1_end + 1) ] in
    let text = take text_len rest in
    let repl_len = text_len + tag1_end + 1 + (if is_some tag2 then 4 else 0) in
    record {
      text = string_replace_at str start repl_len text;
      urls = add_url wanted urls text (plain_url tag tag1_end);
      goes_on = true;
    }

-- One round of markup_strip_a's loop, at the link that begins at `start`.
unfoldable pub strip_a_round : Bool → Str → ℕ → CString → Round
unfolding strip_link
strip_a_round wanted str start urls =
    let tag = drop start str in
    let tag2 = strstr tag (codes "</a>") in
    elim (strstr tag (codes ">")) [
      | none ↦ record {
        text = string_replace_at str start (length tag) [];
        urls = urls;
        goes_on = false;
      }
      | some tag1_end ↦ elim tag2 [
        | none ↦ strip_link wanted str start tag1_end none urls
        | some close ↦
            if ltb close tag1_end
            then record {
              text = string_replace_at str start (close + 4) [];
              urls = urls;
              goes_on = false;
            }
            else strip_link wanted str start tag1_end (some close) urls
      ]
    ]

-- The attribute of an image: the start of its value and the quote that closes it.
unfoldable pub attribute : Str → Str → Option (ℕ × Option ℕ)
attribute tag name = elim (strstr tag name) [
  | none ↦ none
  | some at ↦
      let value = at + length name in
      some (
        value,
        elim (strstr (drop value tag) (codes "\"")) [
          | none ↦ none
          | some quote ↦ some (value + quote)
        ],
      )
]

-- The value starts and ends before the tag ends, and lies clear of the other attribute.
abbrev clear_of : ℕ → ℕ → Option (ℕ × Option ℕ) → ℕ → Bool
clear_of start stop none name_length = true
clear_of start stop (some (other, _)) name_length =
    ltb other start || ltb stop (other - name_length)

abbrev value_of : Str → ℕ → ℕ → Str
value_of tag start stop = take (stop - start) (drop start tag)

-- The alt text and the source of an image whose tag ends at `stop`. Both names have five bytes.
unfoldable pub both_values :
    Str → ℕ → Option (ℕ × Option ℕ) → Option (ℕ × Option ℕ) → CString × CString
both_values tag stop (some (alt_s, some alt_e)) (some (src_s, some src_e)) =
    if (ltb alt_s src_s && ltb alt_e (src_s - 5) && ltb src_e stop)
      || (ltb src_s alt_s && ltb src_e (alt_s - 5) && ltb alt_e stop)
    then (some (value_of tag alt_s alt_e), some (value_of tag src_s src_e))
    else if ltb alt_e stop && (ltb src_s alt_s || ltb alt_e (src_s - 5))
    then (some (value_of tag alt_s alt_e), none)
    else if ltb src_e stop && (ltb alt_s src_s || ltb src_e (alt_s - 5))
    then (none, some (value_of tag src_s src_e))
    else (none, none)
both_values tag stop (some (alt_s, some alt_e)) src =
    if ltb alt_e stop && clear_of alt_s alt_e src 5
    then (some (value_of tag alt_s alt_e), none)
    else (none, none)
both_values tag stop alt (some (src_s, some src_e)) =
    if ltb src_e stop && clear_of src_s src_e alt 5
    then (none, some (value_of tag src_s src_e))
    else (none, none)
both_values tag stop _ _ = (none, none)

-- One round of markup_strip_img's loop.
unfoldable pub strip_img_round : Bool → Str → ℕ → CString → Round
unfolding attribute both_values add_url string_replace_at
strip_img_round wanted str start urls =
    let tag = drop start str in
    elim (strstr tag (codes ">")) [
      | none ↦ record {
        text = string_replace_at str start (length tag) [];
        urls = urls;
        goes_on = false;
      }
      | some stop ↦
          let (alt, src) =
            both_values tag stop (attribute tag (codes "alt=\""))
              (attribute tag (codes "src=\"")) in
          let text : Str = elim alt [ none ↦ codes "[image]" | some t ↦ t ] in
          record {
            text = string_replace_at str start (stop + 1) text;
            urls = add_url wanted urls text src;
            goes_on = true;
          }
    ]

-- `while ((start = strstr(*str, tag)))`, with a round of its own for each kind of tag.
unfoldable pub tag_loop : ℕ → Str → (Str → ℕ → CString → Round) → Str → CString → Str × CString
tag_loop zero tag round str urls = (str, urls)
tag_loop (suc fuel) tag round str urls = elim (strstr str tag) [
  | none ↦ (str, urls)
  | some start ↦
      let r = round str start urls in
      elim r.goes_on [ true ↦ tag_loop fuel tag round r.text r.urls | false ↦ (r.text, r.urls) ]
]

-- The flag says that the caller passes a place for the URLs. A round on a link shortens the text.
unfoldable pub markup_strip_a : Bool → Str → Str × CString
unfolding tag_loop strip_a_round strstr
markup_strip_a wanted str = tag_loop (suc (length str)) (codes "<a") (strip_a_round wanted) str none

-- A round on an image may lengthen the text, but takes a `>` off: none is left of the tag, and
-- none comes in.
unfoldable pub markup_strip_img : Bool → Str → Str × CString
unfolding tag_loop strip_img_round strstr
markup_strip_img wanted str =
    tag_loop (suc (length str)) (codes "<img") (strip_img_round wanted) str none

unfoldable pub markup_strip : Str → Str
unfolding string_strip_delimited markup_unquote
markup_strip str = markup_unquote (string_strip_delimited str b'<' b'>')

abbrev pub ends_entity : Str → Bool
ends_entity [] = false
ends_entity (c ∷ s) = c == b';'

-- The digits of a numeric entity: at least one byte that is no `;`, then digits up to the `;`.
abbrev pub digits_entity : (ℕ → Bool) → Str → Bool
digits_entity digit s = not (ends_entity s) && ends_entity (skip_while digit s)

-- What stands behind `&#`.
abbrev pub numeric_entity : Str → Bool
numeric_entity [] = digits_entity isdigit []
numeric_entity (c ∷ s) =
    if c == b'x' then digits_entity isxdigit s else digits_entity isdigit (c ∷ s)

-- markup_is_entity on the bytes behind the `&`.
unfoldable pub markup_is_entity : Str → Bool
unfolding has_prefix skip_while strchr
markup_is_entity s =
    if not (is_some (strchr s b';'))
    then false
    else if has_prefix s (codes "#")
    then numeric_entity (drop 1 s)
    else has_prefix s (codes "amp;")
      || has_prefix s (codes "lt;")
      || has_prefix s (codes "gt;")
      || has_prefix s (codes "quot;")
      || has_prefix s (codes "apos;")

-- The loop of markup_escape_unsupported: each `&` that begins no entity becomes `&amp;`, and the
-- search goes on behind it.
unfoldable pub markup_escape_unsupported : Str → Str
unfolding markup_is_entity
markup_escape_unsupported [] = []
markup_escape_unsupported (c ∷ s) =
    (if c == b'&' && not (markup_is_entity s) then codes "&amp;" else c ∷ [])
    ++ markup_escape_unsupported s

abbrev by_mode : MarkupMode → Str → Str
by_mode markup_null str = str
by_mode markup_no str = markup_quote str
by_mode MarkupMode.markup_strip str = markup_quote (markup_strip (markup_br2nl str))
by_mode markup_full str =
    (markup_strip_img false
      (markup_strip_a false (markup_br2nl (markup_escape_unsupported str))).0).0

-- MARKUP_NULL fails an assertion in the code; it is left as it is here.
unfoldable pub markup_transform : Settings → Str → MarkupMode → Str
unfolding markup_quote markup_strip markup_br2nl markup_escape_unsupported markup_strip_a
    markup_strip_img
markup_transform c str mode =
    let marked = by_mode mode str in
    if c.ignore_newline then string_replace_all (codes "\n") (codes " ") marked else marked
