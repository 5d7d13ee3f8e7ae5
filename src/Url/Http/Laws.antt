-- ===== src/Url/Http/Laws.antt =====
-- Which texts `parseHTTPUrl` accepts, and what it returns for them (src/URLStringUtil.cpp).
use async_iomanager.Common.{
  ◌↔◌, ◌+◌, Bool, true, false, none, Bytes, codes, is_empty, find, length, ◌≡◌, ◌≢◌, refl, sym, [],
  ◌∷◌, ◌++◌, Lacks, arith, subst, if◌then◌else◌, ◌||◌, ◌∙◌, ap, ◌⊎◌, inl, inr, Bool-cases,
}
use async_iomanager.Common.Search.{
  Found, find-Found, drop_past, take_before, substr_to_end, is_empty-append, find-append,
  find-none-Lacks, Lacks-find-none,
}
use async_iomanager.Common.Search
use async_iomanager.Url.Http.{HttpUrl, parse_port, parse_http_url}

-- An authority is a host, which has no colon, with a port behind a colon or none.
pub data IsAuthority (authority host port : Bytes) : Type 0 where
  plain : authority ≡ host → port ≡ codes "443" → IsAuthority authority host port
  with_port : authority ≡ host ++ b':' ∷ port → port ≢ [] → IsAuthority authority host port

-- A text that spells an authority and a path that begins with a slash.
pub record IsHttpUrl (url : Bytes) (o : HttpUrl) : Type 0 where
  pub authority : Bytes
  pub tail : Bytes
  pub spelled : url ≡ authority ++ o.path
  pub path_slash : o.path ≡ b'/' ∷ tail
  pub authority_clean : Lacks b'/' authority
  pub host_clean : Lacks b':' o.host
  pub host_given : o.host ≢ []
  pub split : IsAuthority authority o.host o.port

-- The first stage cuts at the first slash.
parse_http_url_at :
    (p r : Bytes) (out : HttpUrl)
    → Lacks b'/' p
    → parse_http_url (p ++ b'/' ∷ r) out ≡ parse_port (record out { host = p; path = b'/' ∷ r })
unfolding parse_http_url
parse_http_url_at p r out h = rw (
  is_empty-append p b'/' r,
  find-append b'/' p r h,
  substr_to_end (p ++ b'/' ∷ r) (length p),
  Search.drop_before p (b'/' ∷ r),
  take_before p (b'/' ∷ r),
)

parse_http_url-none :
    (url : Bytes) (out : HttpUrl)
    → find (codes "/") url ≡ none
    → parse_http_url url out ≡ (false, out)
unfolding parse_http_url
parse_http_url-none url out h = ground arith

-- The second stage on a host with no colon, and on one that has a colon.
parse_port_plain :
    (out : HttpUrl)
    → out.host ≢ []
    → Lacks b':' out.host
    → parse_port out ≡ (true, record out { port = codes "443" })
unfolding parse_port
parse_port_plain out given h = ground (arith, Lacks-find-none b':' out.host)

parse_port_at :
    (p r : Bytes) (out : HttpUrl)
    → Lacks b':' p
    → parse_port (record out { host = p ++ b':' ∷ r }) ≡ (
        if is_empty r || is_empty p
        then (false, record out { host = p; port = r })
        else (true, record out { host = p; port = r }))
unfolding parse_port
parse_port_at p r out h = rw (
  is_empty-append p b':' r,
  find-append b':' p r h,
  substr_to_end (p ++ b':' ∷ r) (length p + 1),
  drop_past p (b':' ∷ []) r,
  take_before p (b':' ∷ r),
)

parse_port_complete :
    (authority path : Bytes) (out o : HttpUrl)
    → o.path ≡ path
    → Lacks b':' o.host
    → o.host ≢ []
    → IsAuthority authority o.host o.port
    → parse_port (record out { host = authority; path = path }) ≡ (true, o)
parse_port_complete authority path out o p clean given (plain e f) =
    rw e (ground (arith, parse_port_plain (record out { host = o.host; path = path }) given clean))
parse_port_complete authority path out o p clean given (with_port e f) =
    rw e (ground (arith, parse_port_at o.host o.port (record out { path = path }) clean))

-- `parseHTTPUrl` accepts every text that spells a host, which is not empty and has no ":", perhaps a
-- colon and a port that is not empty, and a path from the first slash on, and returns these parts;
-- the port is "443" if none is written.
pub parse_http_url_complete :
    (url : Bytes) (out o : HttpUrl) → IsHttpUrl url o → parse_http_url url out ≡ (true, o)
parse_http_url_complete url out o v =
    ap (λ u. parse_http_url u out) (v.spelled ∙ ap (◌++◌ v.authority) v.path_slash)
    ∙ parse_http_url_at v.authority v.tail out v.authority_clean
    ∙ parse_port_complete v.authority (b'/' ∷ v.tail) out o v.path_slash v.host_clean v.host_given
        v.split

parse_port_empty : (out : HttpUrl) → out.host ≡ [] → parse_port out ≡ (false, out)
unfolding parse_port
parse_port_empty out h = ground arith

refusal : {a b : HttpUrl} → ◌≡◌ {A = Bool × HttpUrl} (false, a) (true, b) → ⊥
refusal h = cc

result : {a b : HttpUrl} → ◌≡◌ {A = Bool × HttpUrl} (true, a) (true, b) → a ≡ b
result h = ap (λ (x : Bool × HttpUrl). x.1) h

-- What the second stage accepts, by the outcome of its search.
port_at_sound :
    (p q r host : Bytes) (out o : HttpUrl)
    → host ≡ p ++ b':' ∷ q
    → Lacks b'/' host
    → Lacks b':' p
    → ((is_empty q || is_empty p) ≡ true) ⊎ ((is_empty q || is_empty p) ≡ false)
    → parse_port (record out { host = host; path = b'/' ∷ r }) ≡ (true, o)
    → IsHttpUrl (host ++ b'/' ∷ r) o
port_at_sound p q r host out o split clean lacks empties h = elim empties [
  | inl y ↦ absurd (refusal (sym (at_colon y) ∙ h'))
  | inr n ↦ subst (IsHttpUrl (host ++ b'/' ∷ r)) (result (sym (at_colon n) ∙ h')) (record {
    authority = host;
    tail = r;
    spelled = refl;
    path_slash = refl;
    authority_clean = clean;
    host_clean = lacks;
    host_given = ground arith;
    split = with_port split (ground arith);
  })
]
  where
    out' : HttpUrl
    out' = record out { path = b'/' ∷ r }

    h' : parse_port (record out' { host = p ++ b':' ∷ q }) ≡ (true, o)
    h' = rw (← split) h

    at_colon :
        {b : Bool}
        → (is_empty q || is_empty p) ≡ b
        → parse_port (record out' { host = p ++ b':' ∷ q }) ≡ (
            if b
            then (false, record out' { host = p; port = q })
            else (true, record out' { host = p; port = q }))
    at_colon e = rw e at (parse_port_at p q out' lacks)

port_sound :
    (host r : Bytes) (out o : HttpUrl)
    → Lacks b'/' host
    → host ≢ []
    → Found (codes ":") host
    → parse_port (record out { host = host; path = b'/' ∷ r }) ≡ (true, o)
    → IsHttpUrl (host ++ b'/' ∷ r) o
port_sound host r out o clean given (Found.absent e) h =
    let colon_free = find-none-Lacks b':' host e in
    let out' = record out { host = host; path = b'/' ∷ r } in
    subst (IsHttpUrl (host ++ b'/' ∷ r)) (result (sym (parse_port_plain out' given colon_free) ∙ h))
      (record {
        authority = host;
        tail = r;
        spelled = refl;
        path_slash = refl;
        authority_clean = clean;
        host_clean = colon_free;
        host_given = given;
        split = plain refl refl;
      })
port_sound host r out o clean given (Found.at p q split lacks e) h =
    port_at_sound p q r host out o split clean (find-none-Lacks b':' p lacks)
      (Bool-cases (is_empty q || is_empty p)) h

-- Whatever `parseHTTPUrl` accepts spells a host, which is not empty and has no ":", perhaps a colon
-- and a port that is not empty, and a path from the first slash on, and the outputs are these parts;
-- the port is "443" if none is written.
pub parse_http_url_sound :
    (url : Bytes) (out o : HttpUrl) → parse_http_url url out ≡ (true, o) → IsHttpUrl url o
parse_http_url_sound url out o h = by_place (find-Found b'/' [] url)
  where
    given_or_empty : (p r : Bytes) → url ≡ p ++ b'/' ∷ r → Lacks b'/' p → IsHttpUrl url o
    given_or_empty [] r split lacks = absurd (
        refusal (
          sym (
            ap (λ u. parse_http_url u out) split
            ∙ parse_http_url_at [] r out tt
            ∙ parse_port_empty _ refl)
          ∙ h))
    given_or_empty (c ∷ p) r split lacks =
        subst (λ u. IsHttpUrl u o) (sym split)
          (port_sound (c ∷ p) r out o lacks (cc) (find-Found b':' [] (c ∷ p)) (
            sym (parse_http_url_at (c ∷ p) r out lacks)
            ∙ ap (λ u. parse_http_url u out) (sym split)
            ∙ h))

    by_place : Found (codes "/") url → IsHttpUrl url o
    by_place (Found.absent e) = absurd (refusal (sym (parse_http_url-none url out e) ∙ h))
    by_place (Found.at p r split lacks e) = given_or_empty p r split (find-none-Lacks b'/' p lacks)

-- `parseHTTPUrl` accepts just the texts that spell a host, which is not empty and has no ":", perhaps
-- a colon and a port that is not empty, and a path from the first slash on, and its outputs are these
-- parts; the port is "443" if none is written.
pub parse_http_url_iff :
    (url : Bytes) (out o : HttpUrl) → (parse_http_url url out ≡ (true, o)) ↔ IsHttpUrl url o
parse_http_url_iff url out o = (parse_http_url_sound url out o, parse_http_url_complete url out o)
