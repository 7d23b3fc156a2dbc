-- ===== src/Ingestion/Fetch.antt =====
-- fetch of internal/ingestion/pipeline.go, and the text it makes of an HTML page. Sending the request is a
-- parameter: it gives the error of the transport, or the status with the body or the error of reading it. `\s`
-- of package regexp is a tab, a line feed, a form feed, a carriage return or a space.
pub mod Bare
pub mod Strip
use tfai_go.Agent.Messages.{decimal}
use tfai_go.Base.{
  ℕ, Bool, true, false, [], ◌∷◌, ◌++◌, Bytes, codes, contains, trim_space, Result, ok, err, not,
  ◌&&◌, ◌||◌, ◌==◌, if◌then◌else◌,
}

-- http.NewRequestWithContext, with the headers that are set
pub record PageRequest : Type 0 where
  pub url : Bytes
  pub user_agent : Bytes
  pub accept : Bytes

pub record Page : Type 0 where
  pub status : ℕ
  pub body : Result Bytes

pub has_close : Bytes → Bool
has_close [] = false
has_close (c ∷ s) = (c == b'>') || has_close s

-- A tag that a `<` before the text opens: the text has a `>`, and not at once.
pub opens_tag : Bytes → Bool
unfolding has_close
opens_tag [] = false
opens_tag (c ∷ s) = not (c == b'>') && has_close s

-- reHTMLTag.ReplaceAllString(raw, " "), outside a tag or after the `<` of one
pub replace_tags : Bool → Bytes → Bytes
unfolding opens_tag
replace_tags inside [] = []
replace_tags true (c ∷ s) =
    let outside_rest = replace_tags false s in
    let inside_rest = replace_tags true s in if c == b'>' then outside_rest else inside_rest
replace_tags false (c ∷ s) =
    let outside_rest = replace_tags false s in
    let inside_rest = replace_tags true s in
    if (c == b'<') && opens_tag s then b' ' ∷ inside_rest else c ∷ outside_rest

-- `\s`
pub is_blank : ℕ → Bool
is_blank c = (c == 9) || (c == 10) || (c == 12) || (c == 13) || (c == 32)

pub starts_blank : Bytes → Bool
unfolding is_blank
starts_blank [] = false
starts_blank (c ∷ s) = is_blank c

-- reWhitespace.ReplaceAllString(text, " "), outside a run or after its replacement
pub collapse_blanks : Bool → Bytes → Bytes
unfolding starts_blank is_blank
collapse_blanks inside [] = []
collapse_blanks true (c ∷ s) =
    let outside_rest = collapse_blanks false s in
    let inside_rest = collapse_blanks true s in if is_blank c then inside_rest else c ∷ outside_rest
collapse_blanks false (c ∷ s) =
    let outside_rest = collapse_blanks false s in
    let inside_rest = collapse_blanks true s in
    if is_blank c && starts_blank s then b' ' ∷ inside_rest else c ∷ outside_rest

-- stripHTML
pub strip_html : Bytes → Bytes
unfolding replace_tags collapse_blanks
strip_html raw = trim_space (collapse_blanks false (replace_tags false raw))

-- The text of a body: an HTML page is stripped.
pub page_text : Bytes → Bytes
unfolding strip_html
page_text text =
    if contains text (codes "<html") || contains text (codes "<!DOCTYPE")
    then strip_html text
    else text

pub read_body : Result Bytes → Result Bytes
unfolding page_text
read_body (err message) = err (codes "reading body: " ++ message)
read_body (ok text) = ok (page_text text)

pub read_page : Bytes → Result Page → Result Bytes
unfolding read_body
read_page url (err message) = err (codes "http get: " ++ message)
read_page url (ok page) =
    if not (page.status == 200)
    then err (codes "unexpected status " ++ decimal page.status ++ codes " for " ++ url)
    else read_body page.body

-- fetch
pub fetch : (PageRequest → Result Page) → Bytes → Bytes → Result Bytes
unfolding read_page
fetch get user_agent url =
    read_page url
      (get (record { url = url; user_agent = user_agent; accept = codes "text/plain, text/html" }))
