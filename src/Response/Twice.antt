-- ===== src/Response/Twice.antt =====
-- `redirect` and a second `send` of src/wcc/global_response.cpp.
use zpp_cpp.Common.{
  ℕ, ◌≡◌, ◌<◌, refl, ap, sym, ◌∙◌, Bool, true, false, some, Bytes, codes, ◌++◌, ◌∷◌, [], length,
  List, map, arith,
}
use mathlib.Core.List.{append-nil, append_assoc}
use zpp_cpp.Php.{name, str, Arr, empty, entry, get, key_equal}
use zpp_cpp.Php.Arrays.{get-set, get-set_same}
use zpp_cpp.Php.Removal.{IsMap}
use zpp_cpp.Response.Headers.{Response, Event, header, body, status_key}
use zpp_cpp.Response.StatusLine.{set_status_code, status_of, redirect}
use zpp_cpp.Response.Sending.{send, send_headers, send_each, send_lines, send_header, header_line}
use zpp_cpp.Response.Status.{get-set_status_code}
use zpp_cpp.Response.Codes.{get_http_code_msg}

-- Whatever code it is given, `redirect` makes the status that of 302, and sets the location.
pub redirect_status :
    (print_int : ℕ → Bytes) (location : Bytes) (external : Bool) (code : ℕ) (r : Response)
    → IsMap r.headers
    → let (r', thrown) = redirect print_int location external code r in
      (thrown ≡ false)
      × (get status_key r'.headers ≡ some (str (status_of print_int 302 (codes "Found"))))
      × (get (name (codes "Location")) r'.headers ≡ some (str location))
unfolding redirect get_http_code_msg key_equal
redirect_status print_int location external code r map =
    let (kept, status, _) =
      get-set_status_code print_int 302 [] (codes "Found") r status_key map refl in
    let r' = (set_status_code print_int 302 [] r).0 in
    (
      kept,
      get-set (name (codes "Location")) status_key (str location) r'.headers ∙ status,
      get-set_same (name (codes "Location")) (str location) r'.headers,
    )

-- The events of the headers, in their order.
abbrev pub header_events : Arr → List Event
header_events empty = []
header_events (entry k v r) = header (header_line k v) ∷ header_events r

send_lines_out :
    (a : Arr) (r : Response)
    → r.sent ≡ false
    → send_lines a r ≡ record r { out = r.out ++ header_events a }
unfolding send_lines send_header
send_lines_out empty r fresh = ap (λ o. record r { out = o }) (sym (append-nil r.out))
send_lines_out (entry k v a) r fresh =
    let r' : Response = record r { out = r.out ++ header (header_line k v) ∷ [] } in
    let sends : send_header (header_line k v) r ≡ r' = ground (arith, fresh) in
    ap (send_lines a) sends
    ∙ (send_lines_out a r' fresh
        ∙ ap (λ o. record r { out = o })
            (append_assoc r.out (header (header_line k v) ∷ []) (header_events a)))

send_lines_sent : (a : Arr) (r : Response) → r.sent ≡ true → send_lines a r ≡ r
unfolding send_lines send_header
send_lines_sent empty r gone = refl
send_lines_sent (entry k v a) r gone = ground (arith, gone, send_lines_sent a r gone)

abbrev after_first : Response → Response
after_first r = record r {
  out = (r.out ++ header_events r.headers) ++ body r.content ∷ [];
  sent = true;
}

abbrev after_second : Response → Response
after_second r = record r { out = r.out ++ body r.content ∷ [] }

module _ (headers_gone : Bool) (fire readfile : Bytes → Bool) where
  first_send :
      (r : Response)
      → r.is_cli ≡ true
      → r.sent ≡ false
      → 0 < length r.content
      → send headers_gone false fire readfile r ≡ (after_first r, (true, false))
  unfolding send send_headers send_each
  first_send r cli fresh full = ground (arith, cli, fresh, full, send_lines_out r.headers r fresh)

  second_send :
      (r : Response)
      → r.is_cli ≡ true
      → r.sent ≡ true
      → 0 < length r.content
      → send headers_gone false fire readfile r ≡ (after_second r, (true, true))
  unfolding send send_headers send_each
  second_send r cli gone full = ground (arith, cli, gone, full, send_lines_sent r.headers r gone)

-- On the command line, without an event queue, an answer with a content that has not been sent goes out as its
-- headers and then its content, and `send` returns true and throws nothing. A second `send` throws, and
-- sends the content, without its headers, once more.
pub send_twice :
    (headers_gone : Bool) (fire readfile : Bytes → Bool) (r : Response)
    → r.is_cli ≡ true
    → r.sent ≡ false
    → 0 < length r.content
    → let (r1, (done1, thrown1)) = send headers_gone false fire readfile r in
      let (r2, (done2, thrown2)) = send headers_gone false fire readfile r1 in
      (r1.out ≡ r.out ++ (header_events r.headers ++ body r.content ∷ []))
      × (done1 ≡ true)
      × (thrown1 ≡ false)
      × (r2.out ≡ r1.out ++ body r.content ∷ [])
      × (done2 ≡ true)
      × (thrown2 ≡ true)
send_twice headers_gone fire readfile r cli fresh full =
    let first = first_send headers_gone fire readfile r cli fresh full in
    let second = second_send headers_gone fire readfile (after_first r) cli refl full in
    rw (first, second)
      (
        append_assoc r.out (header_events r.headers) (body r.content ∷ []),
        refl,
        refl,
        refl,
        refl,
        refl,
      )
