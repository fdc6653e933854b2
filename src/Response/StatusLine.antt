-- ===== src/Response/StatusLine.antt =====
-- The status of an answer of src/wcc/global_response.cpp, and what sets it.
use zpp_cpp.Common.{
  ℕ, Bool, true, false, not, ◌&&◌, [], ◌∷◌, ◌++◌, Option, none, some, ltb, ◌==◌, length,
  if◌then◌else◌, Bytes, codes, take,
}
use zpp_cpp.Php
use zpp_cpp.Php.{Key, name, index, Val, null, str, Arr, empty, entry, text_of}
use zpp_cpp.Php.Lists.{push_back, removal}
use zpp_cpp.StrPtr.{contains}
use zpp_cpp.Response.Codes.{get_http_code_msg}
use zpp_cpp.Response.Headers.{
  Response, http_prefix, status_key, set_content, set_header, set_content_type,
}

-- The loop of `setStatusCode`: the names of the headers in which "HTTP/" stands.
unfoldable pub status_keys : Arr → Arr → Arr
status_keys empty keys = keys
status_keys (entry (name k) v r) keys =
    status_keys r (if contains (some k) http_prefix then push_back (str k) keys else keys)
status_keys (entry (index i) v r) keys = status_keys r keys

module _ (print_int : ℕ → Bytes) where
  -- The message of `setStatusCode`; `none` is the exception for a code without one.
  abbrev pub message_for : ℕ → Bytes → Option Bytes
  message_for icode message =
      if not (icode == 0) && length message == 0
      then (if length (get_http_code_msg icode) == 0 then none else some (get_http_code_msg icode))
      else some message

  abbrev pub status_of : ℕ → Bytes → Bytes
  status_of icode msg = print_int icode ++ (codes " " ++ msg)

  -- `Response::setStatusCode`, with whether it throws; the old status line is gone then.
  unfoldable pub set_status_code : ℕ → Bytes → Response → Response × Bool
  set_status_code icode message r =
      let cleared = removal (status_keys r.headers empty) r.headers in
      elim (message_for icode message) [
        | none ↦ (record r { headers = cleared }, true)
        | some msg ↦ (
          record r {
            headers =
                Php.set status_key (str (status_of icode msg))
                  (Php.set (name (codes "HTTP/1.1 " ++ status_of icode msg)) null cleared);
          },
          false,
        )
      ]

  -- `Response::setAll`; a null content is `none`.
  unfoldable pub set_all : Option Bytes → ℕ → Bytes → Response → Response × Bool
  set_all content icode status r =
      let filled = record r { content = elim content [ none ↦ [] | some c ↦ c ] } in
      if ltb 0 icode then set_status_code icode status filled else (filled, false)

  -- `Response::setNotModified`
  unfoldable pub set_not_modified : Response → Response × Bool
  set_not_modified r = set_status_code 304 (codes "Not modified") r

  -- `Response::redirect`: the code that it is given is not used.
  unfoldable pub redirect : Bytes → Bool → ℕ → Response → Response × Bool
  redirect location external status_code r =
      let (r', thrown) = set_status_code 302 [] r in
      (record r' { headers = Php.set (name (codes "Location")) (str location) r'.headers }, thrown)

  -- `Response::delay_redirect`
  unfoldable pub delay_redirect : Bytes → ℕ → Response → Response × Bool
  delay_redirect location delay r =
      let marked = record r {
        headers =
            Php.set (name (codes "url")) (str location)
              (Php.set (name (codes "Refresh")) (str (print_int delay)) r.headers);
      } in
      let (r', thrown) = set_status_code 303 [] marked in
      (
        record r' {
          content =
              codes "<!DOCTYPE html><html style><head>"
              ++ (codes "<meta http-equiv=\"refresh\" content=\""
                  ++ (print_int delay
                      ++ (codes ";url="
                          ++ (location
                              ++ (codes "\">"
                                  ++ (codes "</head><body><pre>Delayed REDIRECT to "
                                      ++ (location
                                          ++ (codes " after "
                                              ++ (print_int delay
                                                  ++ codes " seconds</pre></body></html>")))))))));
        },
        thrown,
      )

  -- `Response::ajaxHtml`, and `setJsonContent` with the text of the content
  unfoldable pub ajax_html : Bytes → Response → Response × Bool
  ajax_html c r =
      set_status_code 200 []
        (set_content c (set_content_type (codes "text/html") (codes "utf-8") r))

  unfoldable pub set_json_content : Bytes → Response → Response × Bool
  set_json_content json r =
      set_status_code 200 []
        (set_content json (set_content_type (codes "application/json") (codes "utf-8") r))

  -- `Response::setContentLength`
  unfoldable pub set_content_length : ℕ → Response → Response
  set_content_length n r = set_header (codes "Content-Length") (print_int n) r

-- `Response::getStatusCode`: the first three bytes of the status as a number, which PHP reads; null
-- without a status.
unfoldable get_status_code : (Bytes → ℕ) → Response → Option ℕ
get_status_code to_long r = elim (text_of (Php.get status_key r.headers)) [
  | [] ↦ none
  | c ∷ s ↦ some (to_long (take 3 (c ∷ s)))
]
