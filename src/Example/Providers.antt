-- ===== src/Example/Providers.antt =====
-- For which arguments a provider is added (example/MNNExample.cpp).
use async_iomanager.Common.{
  ℕ, Bool, true, Option, some, List, [], ◌∷◌, ◌++◌, Bytes, codes, find, Lacks, Bool-cases,
  Option-cases, subst, ◌≡◌, ◌≢◌, ◌⊎◌, inl, inr, refl, sym, ap, ◌∙◌, arith,
}
use async_iomanager.Url.Components.{get_url_components, extension_of}
use async_iomanager.Url.Components.Laws.{
  Split, get_url_components-Split, get_url_components-write, extension_of-IsExtension,
}
use async_iomanager.Url.Ipfs.{parse_ipfs_url, IsIpfsUrl, parse_ipfs_url_iff}
use async_iomanager.Manager.Maps.{same, same_iff}
use async_iomanager.Manager.{no_components}
use async_iomanager.Manager.State.{Handlers}
use async_iomanager.Startup.{Process}
use async_iomanager.Example.{Output, add_provider, no_parts, seek_content, seek, seek_each, main}

-- The content identifiers for which a provider is added.
abbrev pub provided : List Output → List ℕ
provided [] = []
provided (add_provider cid ∷ os) = cid ∷ provided os
provided (o ∷ os) = provided os

provided-append : (os ps : List Output) → provided (os ++ ps) ≡ provided os ++ provided ps
provided-append [] ps = refl
provided-append (o ∷ os) ps = ground (arith, provided-append os ps)

module _ (from_string : Bytes → Option ℕ) where
  -- An argument that spells "ipfs://", a content identifier, a slash and the rest.
  pub record IsProvided (file_name : Bytes) (cid : ℕ) : Type 0 where
    pub cid_text : Bytes
    pub rest : Bytes
    pub spelled : file_name ≡ codes "ipfs" ++ (codes "://" ++ (cid_text ++ b'/' ∷ rest))
    pub clean : Lacks b'/' cid_text
    pub given : cid_text ≢ []
    pub read : from_string cid_text ≡ some cid

  -- The providers that should be added for some arguments, in their order.
  pub data Providers : List Bytes → List ℕ → Type 0 where
    over : Providers [] []
    passed_over :
        {file_name : Bytes} {file_names : List Bytes} {cids : List ℕ}
        → ((cid : ℕ) → ¬ IsProvided file_name cid)
        → Providers file_names cids
        → Providers (file_name ∷ file_names) cids
    provides :
        {file_name : Bytes} {file_names : List Bytes} {cid : ℕ} {cids : List ℕ}
        → IsProvided file_name cid
        → Providers file_names cids
        → Providers (file_name ∷ file_names) (cid ∷ cids)

  -- The parts of an argument that is provided for.
  IsProvided-parts :
      (file_name : Bytes) (cid : ℕ) (v : IsProvided file_name cid)
      → let base = v.cid_text ++ b'/' ∷ v.rest in
        (get_url_components file_name no_components
          ≡ (true, record { prefix = codes "ipfs"; base = base; extension = extension_of base }))
        × (parse_ipfs_url base no_parts ≡ (true, record { cid = v.cid_text; file = v.rest }))
  unfolding find
  IsProvided-parts file_name cid v =
      let base = v.cid_text ++ b'/' ∷ v.rest in
      (
        ap (λ u. get_url_components u no_components) v.spelled
            ∙ get_url_components-write (codes "ipfs") base (extension_of base) no_components refl
                (extension_of-IsExtension base),
        (parse_ipfs_url_iff base no_parts (record { cid = v.cid_text; file = v.rest })).1
            (record { spelled = refl; cid_clean = v.clean; cid_given = v.given }),
      )

  seek-provided :
      (file_name : Bytes) (cid : ℕ) (v : IsProvided file_name cid)
      → provided (seek from_string file_name) ≡ cid ∷ []
  unfolding seek seek_content
  seek-provided file_name cid v =
      let (split, parsed) = IsProvided-parts file_name cid v in rw (split, parsed, v.read) refl

  Parsed-IsProvided :
      (file_name : Bytes) (cid : ℕ)
      → let c = (get_url_components file_name no_components).1 in
        let parts = (parse_ipfs_url c.base no_parts).1 in
        file_name ≡ c.prefix ++ (codes "://" ++ c.base)
        → same c.prefix (codes "ipfs") ≡ true
        → IsIpfsUrl c.base parts
        → from_string parts.cid ≡ some cid
        → IsProvided file_name cid
  Parsed-IsProvided file_name cid spelled is_ipfs v read =
      let c = (get_url_components file_name no_components).1 in
      let parts = (parse_ipfs_url c.base no_parts).1 in
      record {
        cid_text = parts.cid;
        rest = parts.file;
        spelled =
            spelled
            ∙ ap (λ p. p ++ (codes "://" ++ c.base)) ((same_iff c.prefix (codes "ipfs")).0 is_ipfs)
            ∙ ap (λ b. codes "ipfs" ++ (codes "://" ++ b)) v.spelled;
        clean = v.cid_clean;
        given = v.cid_given;
        read = read;
      }

  -- The body of the loop adds the provider of an argument that is provided for, and no other.
  seek-cases :
      (file_name : Bytes)
      → (provided (seek from_string file_name) ≡ [])
        ⊎ ((cid : ℕ) × (provided (seek from_string file_name) ≡ cid ∷ [])
            × IsProvided file_name cid)
  unfolding seek seek_content
  seek-cases file_name = by_split (get_url_components-Split file_name no_components)
    where
      cut_at :
          let c = get_url_components file_name no_components in
          c.0 ≡ true
          → file_name ≡ c.1.prefix ++ (codes "://" ++ c.1.base)
          → (provided (seek from_string file_name) ≡ [])
            ⊎ ((cid : ℕ) × (provided (seek from_string file_name) ≡ cid ∷ [])
                × IsProvided file_name cid)
      cut_at ok spelled =
          let c = get_url_components file_name no_components in
          let p = parse_ipfs_url c.1.base no_parts in
          elim (Bool-cases (same c.1.prefix (codes "ipfs"))) [
            | inr other ↦ inl (rw (ok, other) refl)
            | inl ipfs ↦ elim (Bool-cases p.0) [
              | inr unparsed ↦ inl (rw (ok, ipfs, unparsed) refl)
              | inl parsed ↦ elim (Option-cases (from_string p.1.cid)) [
                | inl invalid ↦ inl (rw (ok, ipfs, parsed, invalid) refl)
                | inr (cid, valid) ↦ inr (
                  cid,
                  rw (ok, ipfs, parsed, valid) refl,
                  Parsed-IsProvided file_name cid spelled ipfs
                      ((parse_ipfs_url_iff c.1.base no_parts p.1).0
                        (ap (λ (b : Bool). (b, p.1)) parsed))
                      valid,
                )
              ]
            ]
          ]

      by_split :
          Split file_name no_components (get_url_components file_name no_components)
          → (provided (seek from_string file_name) ≡ [])
            ⊎ ((cid : ℕ) × (provided (seek from_string file_name) ≡ cid ∷ [])
                × IsProvided file_name cid)
      by_split (Split.refused e r) = inl (rw r refl)
      by_split (Split.cut ok spelled clean ext) = cut_at ok spelled

  seek_each-Providers :
      (file_names : List Bytes) → Providers file_names (provided (seek_each from_string file_names))
  unfolding seek_each
  seek_each-Providers [] = over
  seek_each-Providers (file_name ∷ file_names) =
      let later = seek_each-Providers file_names in
      let both = provided-append (seek from_string file_name) (seek_each from_string file_names) in
      subst (Providers (file_name ∷ file_names)) (sym both) (elim (seek-cases file_name) [
        | inl none_added ↦ rw none_added (
            passed_over (λ cid v. not_both cid (sym none_added ∙ seek-provided file_name cid v))
              later)
        | inr (cid, added, v) ↦ rw added (provides v later)
      ])
    where
      not_both : (cid : ℕ) → [] ≡ cid ∷ [] → ⊥
      not_both cid e = cc

  -- Whatever becomes of its loads, the program hands to Bitswap just the content identifiers of those
  -- arguments that spell "ipfs://", an identifier that can be read, a slash and any rest, in their
  -- order.
  pub main-Providers :
      (cache_dir_of : ℕ → Bytes) (bitswap : ℕ) (h : Handlers) (p : Process) (args : List Bytes)
      → Providers args (provided (main from_string cache_dir_of bitswap h p args).output)
  unfolding main
  main-Providers cache_dir_of bitswap h p [] = over
  main-Providers cache_dir_of bitswap h p (arg ∷ args) = seek_each-Providers (arg ∷ args)
