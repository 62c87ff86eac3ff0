-- ===== src/Protos/Http2/Hpack/StaticTable.antt =====
-- include/wavex/protos/http/http2codec.hpp, namespace hpack: the static table and find_static.
use wave_x.Prelude.{ℕ, suc, Bool, true, false, List, [], ◌∷◌, ◌==◌, if◌then◌else◌, chars}
use wave_x.Protos.Http1.{bytes_eq, is_equal}

pub record StaticEntry : Type 0 where
  pub name : List ℕ
  pub value : List ℕ

abbrev pub entry_of : List ℕ → List ℕ → StaticEntry
entry_of n v = record { name = n; value = v }

-- STATIC_TABLE; the index 0 is not used.
unfoldable pub static_table : List StaticEntry
static_table =
    entry_of [] []
    ∷ entry_of (chars ":authority") []
    ∷ entry_of (chars ":method") (chars "GET")
    ∷ entry_of (chars ":method") (chars "POST")
    ∷ entry_of (chars ":path") (chars "/")
    ∷ entry_of (chars ":path") (chars "/index.html")
    ∷ entry_of (chars ":scheme") (chars "http")
    ∷ entry_of (chars ":scheme") (chars "https")
    ∷ entry_of (chars ":status") (chars "200")
    ∷ entry_of (chars ":status") (chars "204")
    ∷ entry_of (chars ":status") (chars "206")
    ∷ entry_of (chars ":status") (chars "304")
    ∷ entry_of (chars ":status") (chars "400")
    ∷ entry_of (chars ":status") (chars "404")
    ∷ entry_of (chars ":status") (chars "500")
    ∷ entry_of (chars "accept-charset") []
    ∷ entry_of (chars "accept-encoding") (chars "gzip, deflate")
    ∷ entry_of (chars "accept-language") []
    ∷ entry_of (chars "accept-ranges") []
    ∷ entry_of (chars "accept") []
    ∷ entry_of (chars "access-control-allow-origin") []
    ∷ entry_of (chars "age") []
    ∷ entry_of (chars "allow") []
    ∷ entry_of (chars "authorization") []
    ∷ entry_of (chars "cache-control") []
    ∷ entry_of (chars "content-disposition") []
    ∷ entry_of (chars "content-encoding") []
    ∷ entry_of (chars "content-language") []
    ∷ entry_of (chars "content-length") []
    ∷ entry_of (chars "content-location") []
    ∷ entry_of (chars "content-range") []
    ∷ entry_of (chars "content-type") []
    ∷ entry_of (chars "cookie") []
    ∷ entry_of (chars "date") []
    ∷ entry_of (chars "etag") []
    ∷ entry_of (chars "expect") []
    ∷ entry_of (chars "expires") []
    ∷ entry_of (chars "from") []
    ∷ entry_of (chars "host") []
    ∷ entry_of (chars "if-match") []
    ∷ entry_of (chars "if-modified-since") []
    ∷ entry_of (chars "if-none-match") []
    ∷ entry_of (chars "if-range") []
    ∷ entry_of (chars "if-unmodified-since") []
    ∷ entry_of (chars "last-modified") []
    ∷ entry_of (chars "link") []
    ∷ entry_of (chars "location") []
    ∷ entry_of (chars "max-forwards") []
    ∷ entry_of (chars "proxy-authenticate") []
    ∷ entry_of (chars "proxy-authorization") []
    ∷ entry_of (chars "range") []
    ∷ entry_of (chars "referer") []
    ∷ entry_of (chars "refresh") []
    ∷ entry_of (chars "retry-after") []
    ∷ entry_of (chars "server") []
    ∷ entry_of (chars "set-cookie") []
    ∷ entry_of (chars "strict-transport-security") []
    ∷ entry_of (chars "transfer-encoding") []
    ∷ entry_of (chars "user-agent") []
    ∷ entry_of (chars "vary") []
    ∷ entry_of (chars "via") []
    ∷ entry_of (chars "www-authenticate") []
    ∷ []

-- The loop of find_static from the index `i` on, with the first index whose name is the same.
unfoldable pub find_from : List StaticEntry → ℕ → ℕ → List ℕ → List ℕ → ℕ × Bool
find_from [] i name_match name value = (name_match, false)
find_from (e ∷ es) i name_match name value =
    let same = is_equal e.name name in
    let rest =
      find_from es (suc i) (if same then if name_match == 0 then i else name_match else name_match)
        name value in
    if same then if bytes_eq e.value value then (i, true) else rest else rest

-- The entries from the index 1 on.
abbrev pub used_entries : List StaticEntry → List StaticEntry
used_entries [] = []
used_entries (e ∷ es) = es

unfoldable pub find_static : List ℕ → List ℕ → ℕ × Bool
find_static name value = find_from (used_entries static_table) 1 0 name value
