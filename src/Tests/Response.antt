-- ===== src/Tests/Response.antt =====
-- The theorems on answers at a concrete answer.
use zpp_cpp.Common.{ℕ, ◌≡◌, refl, true, false, none, Bytes, codes, [], ◌∷◌, ◌++◌, arith}
use zpp_cpp.Php
use zpp_cpp.Php.{Key, name, Val, null, str, Arr, empty, entry, get, key_equal}
use zpp_cpp.Common.{equal}
use zpp_cpp.Php.Removal.{IsMap}
use zpp_cpp.StrPtr.{contains, strpos, find}
use zpp_cpp.Response.Headers.{Response, body}
use zpp_cpp.Response.StatusLine.{set_status_code}
use zpp_cpp.Response.Sending.{send}
use zpp_cpp.Response.Codes.{get_http_code_msg}
use zpp_cpp.Response.Status.{get-set_status_code}
use zpp_cpp.Response.Twice.{send_twice, header_events}

abbrev three_digits : ℕ → Bytes
three_digits n = codes "404"

abbrev answer : Response
answer = record {
  is_cli = true;
  content = codes "no";
  headers =
      entry (name (codes "HTTP/1.1 200 OK")) null
        (entry (name (codes "Status")) (str (codes "200 OK")) empty);
  cookies = false;
  file = none;
  sent = false;
  out = [];
}

get-set_status_code_example :
    let (r', thrown) = set_status_code three_digits 404 [] answer in
    (thrown ≡ false) × (get (name (codes "HTTP/1.1 200 OK")) r'.headers ≡ none) × IsMap r'.headers
unfolding Php.get get_http_code_msg key_equal contains strpos find equal
get-set_status_code_example =
    get-set_status_code three_digits 404 [] (codes "Not Found") answer
      (name (codes "HTTP/1.1 200 OK")) (refl, (refl, tt)) refl

send_twice_example :
    let (r1, (done1, thrown1)) = send false false (λ e. true) (λ f. true) answer in
    let (r2, (done2, thrown2)) = send false false (λ e. true) (λ f. true) r1 in
    (r1.out ≡ header_events answer.headers ++ body (codes "no") ∷ [])
    × (done1 ≡ true)
    × (thrown1 ≡ false)
    × (r2.out ≡ r1.out ++ body (codes "no") ∷ [])
    × (done2 ≡ true)
    × (thrown2 ≡ true)
send_twice_example = send_twice false (λ e. true) (λ f. true) answer refl refl (omega arith)
