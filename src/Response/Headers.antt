-- ===== src/Response/Headers.antt =====
-- The headers and the content of an answer of src/wcc/global_response.cpp.
use zpp_cpp.Common.{
  Bool, true, false, List, [], ◌++◌, Option, none, some, ltb, length, if◌then◌else◌, Bytes, codes,
}
use zpp_cpp.Php
use zpp_cpp.Php.{Key, name, index, Val, null, str, Arr, empty, entry, text_of}

-- What goes out, in order: a header, the cookies, the content, or a file that is read out.
pub data Event : Type 0 where
  header : Bytes → Event
  cookies_sent : Event
  body : Bytes → Event
  file_read : Bytes → Event
  fired : Bytes → Event

pub record Response : Type 0 where
  pub is_cli : Bool
  pub content : Bytes
  pub headers : Arr
  pub cookies : Bool
  pub file : Option Bytes
  pub sent : Bool
  pub out : List Event

-- `Response::construct`
unfoldable construct : Bool → Response
construct cli = record {
  is_cli = cli;
  content = [];
  headers = empty;
  cookies = false;
  file = none;
  sent = false;
  out = [];
}

abbrev pub http_prefix : Bytes
http_prefix = codes "HTTP/"

abbrev pub status_key : Key
status_key = name (codes "Status")

-- `setContent`, `appendContent`, `hasContent`, `setCookies`, `isCLI` and `isSent`
unfoldable pub set_content : Bytes → Response → Response
set_content c r = record r { content = c }

unfoldable append_content : Bytes → Response → Response
append_content c r = record r { content = r.content ++ c }

unfoldable has_content : Response → Bool
has_content r = ltb 0 (length r.content)

unfoldable set_cookies : Response → Response
set_cookies r = record r { cookies = true }

unfoldable set_cli : Bool → Response → Response
set_cli b r = record r { is_cli = b }

-- `setHeader`, `setRawHeader`, `hasHeader`, `resetHeaders` and `make_header`, whose header has its value in its
-- name
unfoldable pub set_header : Bytes → Bytes → Response → Response
set_header k v r = record r { headers = Php.set (name k) (str v) r.headers }

unfoldable set_raw_header : Bytes → Response → Response
set_raw_header h r = record r { headers = Php.set (name h) null r.headers }

unfoldable has_header : Bytes → Response → Bool
has_header k r = Php.has_key (name k) r.headers

unfoldable reset_headers : Response → Response
reset_headers r = record r { headers = empty }

unfoldable pub make_header : Bytes → Bytes → Response → Response
unfolding set_raw_header
make_header k v r = set_raw_header (k ++ (codes ": " ++ v)) r

abbrev pub name_text : Key → Bytes
name_text (name s) = s
name_text (index i) = []

-- The loop of `Response::setHeaders`
unfoldable copied_headers : Arr → Arr → Arr
copied_headers empty to = to
copied_headers (entry k v r) to =
    copied_headers r (Php.set (name (name_text k)) (str (text_of (some v))) to)

unfoldable set_headers : Arr → Response → Response
set_headers from r = record r { headers = copied_headers from r.headers }

-- `Response::setContentType`
unfoldable pub set_content_type : Bytes → Bytes → Response → Response
unfolding set_header
set_content_type ctype charset r =
    set_header (codes "Content-Type")
      (ctype ++ (if ltb 0 (length charset) then codes "; charset=" ++ charset else [])) r
