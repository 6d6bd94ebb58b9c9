-- ===== src/Url/Page.antt =====
-- The destination and the preview page of services/url/controllers/redirect.controller.js.
pub mod Escaping
use Prim.Native.Char.{code}
use Prim.Native.String.{◌++◌ as ◌<>◌}
use bearlink.Prelude.{
  ℕ, String, Bool, true, false, Option, none, some, List, [], ◌∷◌, ◌==◌, str_eq, if◌then◌else◌,
}
use bearlink.Prelude.Exec.{Result, ok}
use bearlink.Shared.Json.{Json, null, obj, Fields, end, field, str, to_text, given}
use bearlink.Url.Record.{Url}
use bearlink.Url.Platform.{Platform}

-- text.replace(/c/g, by), for one character
replace : ℕ → String → String → String
replace c by String.[] = ""
replace c by (String.◌∷◌ d s) =
    let rest = replace c by s in if code d == c then by <> rest else String.◌∷◌ d rest

unfoldable pub escape_html : String → String
unfolding replace
escape_html text =
    replace b'"' "&quot;" (replace b'>' "&gt;" (replace b'<' "&lt;" (replace b'&' "&amp;" text)))

-- the test of the filter: v !== null && v !== undefined && v !== ''
abbrev pub is_set : Json → Bool
is_set null = false
is_set (str s) = if str_eq s "" then false else true
is_set _ = true

abbrev pub set_entries : Fields → List (String × String)
set_entries end = []
set_entries (field key value rest) =
    if is_set value then (key, to_text value) ∷ set_entries rest else set_entries rest

abbrev pub utm_entries : Option Json → List (String × String)
utm_entries (some (obj fields)) = set_entries fields
utm_entries _ = []

module _ (P : Platform) where
  abbrev pub with_entries : String → List (String × String) → Result String
  with_entries original_url [] = ok original_url
  with_entries original_url (e ∷ entries) = P.url_with_params original_url (e ∷ entries)

  unfoldable pub build_redirect_url : String → Option Json → Result String
  build_redirect_url original_url utm_params = with_entries original_url (utm_entries utm_params)

abbrev page_top : String
page_top =
    "<!DOCTYPE html>\n" <> "<html lang=\"en\">\n" <> "<head>\n" <> "  <meta charset=\"UTF-8\">\n"
    <> "  <meta name=\"viewport\" content=\"width=device-width, initial-scale=1.0\">\n"
    <> "  <title>Link Preview</title>\n" <> "  <style>\n"
    <> "    body { font-family: system-ui, sans-serif; max-width: 600px; margin: 60px auto; padding: 0 16px; color: #222; }\n"
    <> "    .card { border: 1px solid #ddd; border-radius: 8px; overflow: hidden; }\n"
    <> "    .card img { width: 100%; max-height: 300px; object-fit: cover; }\n"
    <> "    .card-body { padding: 16px; }\n"
    <> "    .card-body h2 { margin: 0 0 8px; font-size: 1.2rem; }\n"
    <> "    .card-body p { margin: 0 0 16px; color: #555; font-size: 0.9rem; }\n"
    <> "    .url { font-size: 0.8rem; color: #888; word-break: break-all; margin-bottom: 16px; }\n"
    <> "    a.btn { display: inline-block; background: #0070f3; color: #fff; padding: 10px 20px;\n"
    <> "            border-radius: 6px; text-decoration: none; font-weight: 600; }\n"
    <> "    a.btn:hover { background: #0051a2; }\n" <> "  </style>\n" <> "</head>\n" <> "<body>\n"
    <> "  <div class=\"card\">\n" <> "    "

abbrev before_title : String
before_title = "\n" <> "    <div class=\"card-body\">\n" <> "      <h2>"

abbrev before_description : String
before_description = "</h2>\n" <> "      "

abbrev before_url : String
before_url = "\n" <> "      <div class=\"url\">"

abbrev before_link : String
before_link = "</div>\n" <> "      <a class=\"btn\" href=\""

abbrev page_end : String
page_end =
    "\">Continue to site &rarr;</a>\n" <> "    </div>\n" <> "  </div>\n" <> "</body>\n" <> "</html>"

-- `url.field ? escapeHtml(url.field) : instead`
abbrev pub escaped_or : String → Option String → String
escaped_or instead none = instead
escaped_or instead (some text) = escape_html text

-- an element that is there only for a text that is not empty
abbrev optional : String → String → String → String
optional before text after = if str_eq text "" then "" else before <> text <> after

unfoldable pub build_preview_page : Url → String → String
unfolding escape_html
build_preview_page url destination =
    let title = escaped_or (escape_html destination) (given url.preview_title) in
    let description = escaped_or "" (given url.preview_description) in
    let image = escaped_or "" (given url.preview_image_url) in
    page_top
    <> optional "<img src=\"" image "\" alt=\"Preview image\">"
    <> before_title
    <> title
    <> before_description
    <> optional "<p>" description "</p>"
    <> before_url
    <> escape_html destination
    <> before_link
    <> escape_html destination
    <> page_end
