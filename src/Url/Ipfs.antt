-- ===== src/Url/Ipfs.antt =====
-- src/URLStringUtil.cpp, `parseIPFSUrl`, and the theorem on which texts it accepts.
use async_iomanager.Common.{
  ◌+◌, Bool, true, false, none, some, Bytes, codes, is_empty, find, substr, length, if◌then◌else◌,
  ◌≡◌, ◌≢◌, ◌↔◌, sym, ap, ◌∙◌, subst, [], ◌∷◌, ◌++◌, Lacks, arith,
}
use async_iomanager.Common.Search.{
  Found, find-Found, drop_past, take_before, substr_to_end, is_empty-append, find-append,
  find-none-Lacks,
}

pub record IpfsUrl : Type 0 where
  pub cid : Bytes
  pub file : Bytes

unfoldable pub parse_ipfs_url : Bytes → IpfsUrl → Bool × IpfsUrl
parse_ipfs_url url out = if is_empty url then (false, out) else elim (find (codes "/") url) [
  | none ↦ (false, out)
  | some index ↦
      let parts = record out {
        cid = substr url 0 index;
        file = substr url (index + 1) (length url);
      } in
      if is_empty parts.cid then (false, parts) else (true, parts)
]

parse_ipfs_url_at :
    (p r : Bytes) (out : IpfsUrl)
    → Lacks b'/' p
    → parse_ipfs_url (p ++ b'/' ∷ r) out ≡ (
        if is_empty p
        then (false, record { cid = p; file = r })
        else (true, record { cid = p; file = r }))
unfolding parse_ipfs_url
parse_ipfs_url_at p r out h = rw (
  is_empty-append p b'/' r,
  find-append b'/' p r h,
  substr_to_end (p ++ b'/' ∷ r) (length p + 1),
  drop_past p (b'/' ∷ []) r,
  take_before p (b'/' ∷ r),
)

parse_ipfs_url-none :
    (url : Bytes) (out : IpfsUrl)
    → find (codes "/") url ≡ none
    → parse_ipfs_url url out ≡ (false, out)
unfolding parse_ipfs_url
parse_ipfs_url-none url out h = ground arith

-- A text that spells a content identifier, a slash and a file name.
pub record IsIpfsUrl (url : Bytes) (o : IpfsUrl) : Type 0 where
  pub spelled : url ≡ o.cid ++ b'/' ∷ o.file
  pub cid_clean : Lacks b'/' o.cid
  pub cid_given : o.cid ≢ []

refusal : {a b : IpfsUrl} → ◌≡◌ {A = Bool × IpfsUrl} (false, a) (true, b) → ⊥
refusal h = cc

result : {a b : IpfsUrl} → ◌≡◌ {A = Bool × IpfsUrl} (true, a) (true, b) → a ≡ b
result h = ap (λ (x : Bool × IpfsUrl). x.1) h

parse_ipfs_url_sound :
    (url : Bytes) (out o : IpfsUrl) → parse_ipfs_url url out ≡ (true, o) → IsIpfsUrl url o
parse_ipfs_url_sound url out o h = by_place (find-Found b'/' [] url)
  where
    given_or_empty : (p r : Bytes) → url ≡ p ++ b'/' ∷ r → Lacks b'/' p → IsIpfsUrl url o
    given_or_empty [] r split lacks =
        absurd
          (refusal (sym (ap (λ u. parse_ipfs_url u out) split ∙ parse_ipfs_url_at [] r out tt) ∙ h))
    given_or_empty (c ∷ p) r split lacks =
        subst (IsIpfsUrl url)
          (result (
            sym (ap (λ u. parse_ipfs_url u out) split ∙ parse_ipfs_url_at (c ∷ p) r out lacks) ∙ h))
          (record { spelled = split; cid_clean = lacks; cid_given = cc })

    by_place : Found (codes "/") url → IsIpfsUrl url o
    by_place (Found.absent e) = absurd (refusal (sym (parse_ipfs_url-none url out e) ∙ h))
    by_place (Found.at p r split lacks e) = given_or_empty p r split (find-none-Lacks b'/' p lacks)

parse_ipfs_url_complete :
    (url : Bytes) (out o : IpfsUrl) → IsIpfsUrl url o → parse_ipfs_url url out ≡ (true, o)
parse_ipfs_url_complete url out o v =
    ap (λ u. parse_ipfs_url u out) v.spelled
    ∙ parse_ipfs_url_at o.cid o.file out v.cid_clean
    ∙ given
  where
    given : ◌≡◌ {A = Bool × IpfsUrl} (if is_empty o.cid then (false, o) else (true, o)) (true, o)
    given = ground (arith, v.cid_given)

-- `parseIPFSUrl` accepts exactly the texts that spell a content identifier, which is not empty and
-- has no slash, then a slash and the rest, and returns those two parts.
pub parse_ipfs_url_iff :
    (url : Bytes) (out o : IpfsUrl) → (parse_ipfs_url url out ≡ (true, o)) ↔ IsIpfsUrl url o
parse_ipfs_url_iff url out o = (parse_ipfs_url_sound url out o, parse_ipfs_url_complete url out o)
