-- ===== src/Web/Html.antt =====
-- tools/web.py: the conversion of a page to text, and what `tool_web_fetch` returns. The events of the
-- HTML parser and `str.lower` are parameters.
use lucyd.Base.{
  ℕ, suc, ◌≡◌, ◌∙◌, refl, ap, Text, Bool, true, false, not, ◌||◌, Option, none, some, List, [], ◌∷◌,
  ◌++◌, take, map, length, filter_by, is_empty, lit, decimal, starts_with, contains, mem_text,
  text_eq, ltb, ◌==◌, if◌then◌else◌,
}
use lucyd.Tools.Truncate.{strip}
use lucyd.Web.{Fetched, fetched, invalid, fetch_failed, fetch_raised}

pub data HtmlEvent : Type 0 where
  start_tag : Text → List (Text × Option Text) → HtmlEvent
  end_tag characters : Text → HtmlEvent

-- `_HTMLToText`: the pieces so far, joined
pub record HtmlToText : Type 0 where
  pub result : Text
  pub skip : Bool
  pub in_pre : Bool

abbrev pub newline : Text
newline = lit "\n"

unfoldable pub emit : Text → HtmlToText → HtmlToText
emit t h = record h { result = h.result ++ t }

-- `dict(attrs).get("href", "")`: the last `href` counts, one without a value is None
unfoldable pub href_of : List (Text × Option Text) → Text → Text
unfolding lit text_eq
href_of [] found = found
href_of ((k, none) ∷ attrs) found = href_of attrs (if text_eq k (lit "href") then [] else found)
href_of ((k, some v) ∷ attrs) found = href_of attrs (if text_eq k (lit "href") then v else found)

unfoldable pub is_skipped : Text → Bool
unfolding mem_text lit
is_skipped tag = mem_text tag (lit "script" ∷ lit "style" ∷ lit "noscript" ∷ [])

unfoldable pub is_heading : Text → Bool
unfolding mem_text lit
is_heading tag = mem_text tag (lit "h1" ∷ lit "h2" ∷ lit "h3" ∷ lit "h4" ∷ lit "h5" ∷ lit "h6" ∷ [])

unfoldable pub is_block : Text → Bool
unfolding mem_text lit is_heading
is_block tag =
    mem_text tag (lit "p" ∷ lit "div" ∷ lit "br" ∷ lit "li" ∷ lit "tr" ∷ []) || is_heading tag

unfoldable pub handle_event : HtmlEvent → HtmlToText → HtmlToText
unfolding emit href_of is_skipped is_heading is_block text_eq lit
handle_event (start_tag tag attrs) h =
    let href = href_of attrs [] in
    if is_skipped tag
    then record h { skip = true }
    else if is_block tag
    then emit newline h
    else if text_eq tag (lit "a")
    then (if is_empty href then h else emit (lit " [" ++ (href ++ lit "] ")) h)
    else if text_eq tag (lit "pre")
    then emit (lit "\n```\n") (record h { in_pre = true })
    else h
handle_event (end_tag tag) h =
    if is_skipped tag
    then record h { skip = false }
    else if text_eq tag (lit "pre")
    then emit (lit "\n```\n") (record h { in_pre = false })
    else if is_heading tag
    then emit newline h
    else h
handle_event (characters t) h =
    if h.skip
    then h
    else if h.in_pre
    then emit t h
    else if is_empty (strip t)
    then h
    else emit (strip t ++ lit " ") h

unfoldable pub feed : List HtmlEvent → HtmlToText → HtmlToText
unfolding handle_event
feed [] h = h
feed (e ∷ es) h = feed es (handle_event e h)

-- `re.sub(r"\n{3,}", "\n\n", text)`, behind `n` newlines in a row
unfoldable pub collapse : ℕ → Text → Text
collapse n [] = []
collapse n (c ∷ cs) =
    let line = collapse (suc n) cs in
    let other = collapse 0 cs in if c == 10 then (if ltb n 2 then c ∷ line else line) else c ∷ other

unfoldable pub get_text : HtmlToText → Text
unfolding collapse strip
get_text h = strip (collapse 0 h.result)

-- `lower` is `str.lower`, and `parse` gives the events of a page
module _ (lower : Text → Text) (parse : Text → List HtmlEvent) where
  -- the text of a decoded page: NUL is scrubbed, and HTML converted
  unfoldable pub readable : Text → Text → Text
  unfolding feed get_text strip contains starts_with lit
  readable content_type page =
      let text = filter_by (λ c. not (c == 0)) page in
      if contains (lower content_type) (lit "html") || starts_with (strip text) (lit "<")
      then get_text (feed (parse text) (record { result = []; skip = false; in_pre = false }))
      else text

  unfoldable pub truncation_mark : ℕ → Text
  unfolding lit decimal
  truncation_mark max_chars = lit "\n[truncated at " ++ (decimal max_chars ++ lit " chars]")

  unfoldable pub truncated : ℕ → Text → Text
  unfolding truncation_mark
  truncated max_chars text =
      if ltb max_chars (length text) then take max_chars text ++ truncation_mark max_chars else text

  -- `tool_web_fetch`, on what the connections gave; `none` where it raises, and `error` is the text of an
  -- exception
  unfoldable pub fetched_text : Text → Text → ℕ → Fetched → Option Text
  unfolding truncated readable lit
  fetched_text url error max_chars (fetched content_type page) =
      some (truncated max_chars (readable content_type page))
  fetched_text url error max_chars (invalid reason) = some (lit "Error: " ++ reason)
  fetched_text url error max_chars fetch_failed =
      some (lit "Error fetching " ++ (url ++ (lit ": " ++ error)))
  fetched_text url error max_chars fetch_raised = none

unfoldable pub all_characters : List Text → List HtmlEvent
all_characters ts = map (λ t. characters t) ts

if-true : {A : Type 0} (b : Bool) (x y : A) → b ≡ true → (if b then x else y) ≡ x
if-true b x y e = rw e refl

skipping :
    (ts : List Text) (es : List HtmlEvent) (h : HtmlToText)
    → h.skip ≡ true
    → feed (all_characters ts ++ es) h ≡ feed es h
unfolding feed all_characters handle_event
skipping [] es h hidden = refl
skipping (t ∷ ts) es h hidden =
    ap (λ x. feed (all_characters ts ++ es) x) (if-true h.skip h _ hidden) ∙ skipping ts es h hidden

-- Of a script, a style or a noscript whose content is character data alone, without elements, whatever that
-- text and the state of the converter, only the end of the skipping is left: the converter goes on behind
-- it as if nothing had stood there.
pub feed-hidden :
    (opening closing : Text) (attrs : List (Text × Option Text)) (ts : List Text)
    (es : List HtmlEvent) (h : HtmlToText)
    → is_skipped opening ≡ true
    → is_skipped closing ≡ true
    → feed (start_tag opening attrs ∷ (all_characters ts ++ end_tag closing ∷ es)) h
      ≡ feed es (record h { skip = false })
unfolding feed handle_event
feed-hidden opening closing attrs ts es h o c =
    ap (λ x. feed (all_characters ts ++ end_tag closing ∷ es) x)
      (if-true (is_skipped opening) (record h { skip = true }) _ o)
    ∙ (skipping ts (end_tag closing ∷ es) (record h { skip = true }) refl
        ∙ ap (λ x. feed es x) (if-true (is_skipped closing) (record h { skip = false }) _ c))
