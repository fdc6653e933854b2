-- ===== src/Response/Sending.antt =====
-- What is sent of an answer of src/wcc/global_response.cpp.
use zpp_cpp.Common.{
  Bool, true, false, not, ◌&&◌, ◌||◌, [], ◌∷◌, ◌++◌, none, some, ltb, length, equal, if◌then◌else◌,
  Bytes, codes, take,
}
use zpp_cpp.Php.{Key, Val, null, Arr, empty, entry, text_of}
use zpp_cpp.StrPtr.{contains}
use zpp_cpp.Response.Headers.{
  header, cookies_sent, body, file_read, fired, Response, http_prefix, make_header, name_text,
}

-- `Response::send_header`; on the command line its code, 0, is written behind the header.
unfoldable pub send_header : Bytes → Response → Response
send_header h r = if r.sent then r else record r { out = r.out ++ header h ∷ [] }

-- The line of one header in `send_each`: one without a value is sent as it is where it has a colon or
-- begins with "HTTP/".
unfoldable pub header_line : Key → Val → Bytes
header_line k null =
    if contains (some (name_text k)) (codes ":") || equal (take 5 (name_text k)) http_prefix
    then name_text k
    else name_text k ++ codes ": "
header_line k v = name_text k ++ (codes ": " ++ text_of (some v))

-- The loop of `Response::send_each`
unfoldable pub send_lines : Arr → Response → Response
send_lines empty r = r
send_lines (entry k v rest) r = send_lines rest (send_header (header_line k v) r)

-- `headers_gone` is PHP's `headers_sent`; `queue` says whether there is an event queue, and `fire` the answer
-- of PHP's function to an event, which is not false; `readfile` says whether a file is read.
module _ (headers_gone : Bool) (queue : Bool) (fire : Bytes → Bool) (readfile : Bytes → Bool) where
  unfoldable pub send_each : Response → Response × Bool
  send_each r = if not r.is_cli && headers_gone then (r, false) else (send_lines r.headers r, true)

  abbrev pub fire_event : Bytes → Response → Response × Bool
  fire_event e r = (record r { out = r.out ++ fired e ∷ [] }, fire e)

  -- `Response::sendHeaders`
  unfoldable pub send_headers : Response → Response × Bool
  send_headers r =
      if queue
      then (let (r1, go) = fire_event (codes "response:beforeSendHeaders") r in
          let (r2, ok) = send_each r1 in
          if go
          then (if ok
              then ((fire_event (codes "response:afterSendHeaders") r2).0, true)
              else (r2, false))
          else (r1, false))
      else send_each r

  abbrev pub send_cookies : Response → Response
  send_cookies r = if r.cookies then record r { out = r.out ++ cookies_sent ∷ [] } else r

  abbrev pub send_content : Response → Response
  send_content r =
      if ltb 0 (length r.content)
      then record r { out = r.out ++ body r.content ∷ []; sent = true }
      else (elim r.file [
        | none ↦ r
        | some f ↦ record r { out = r.out ++ file_read f ∷ []; sent = readfile f }
      ])

  -- `Response::send`: its result, and whether it throws. Where it throws, it goes on all the same.
  unfoldable pub send : Response → Response × (Bool × Bool)
  send r =
      let (r1, ok) = send_headers (if r.is_cli then r else send_cookies r) in
      if ok then (let r2 = send_content r1 in (r2, (r2.sent, r.sent))) else (r1, (false, r.sent))

  -- `Response::headers_sent`
  unfoldable pub headers_sent : Response → Response × Bool
  headers_sent r = if r.sent then (r, true) else (record r { sent = headers_gone }, headers_gone)

-- `Response::setFileToSend`: `last_part` is `attach_name`, `detect` the encoding that PHP finds in a text.
module _ (last_part : Bytes → Bytes) (detect : Bytes → Bytes)
    (rawurlencode addcslashes to_lower : Bytes → Bytes) where
  unfoldable pub disposition : Bytes → Bytes
  disposition base =
      let start = codes "attachment; filename=" in
      if equal (detect base) (codes "ASCII")
      then start ++ (codes "\"" ++ (addcslashes base ++ codes "\""))
      else start
        ++ (rawurlencode base
            ++ (codes "; filename*="
                ++ (to_lower (detect base) ++ (codes "''" ++ rawurlencode base))))

  unfoldable pub set_file_to_send : Bytes → Bytes → Bool → Response → Response
  set_file_to_send path attach_name attachment r =
      let base = if ltb 0 (length attach_name) then attach_name else last_part path in
      let marked =
        if attachment
        then make_header (codes "Content-Disposition") (disposition base) (
            make_header (codes "Content-Transfer-Encoding") (codes "binary") (
              make_header (codes "Content-Type") (codes "application/octet-stream")
                (make_header (codes "Content-Description") (codes "File Transfer") r)))
        else r in
      record marked { file = some path }
