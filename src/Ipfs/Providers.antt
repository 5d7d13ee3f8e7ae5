-- ===== src/Ipfs/Providers.antt =====
-- The addresses of providers (src/IPFSCommon.cpp, `StartFindingPeers`, `addAddress`, `addAddresses`;
-- src/IPFSLoader.cpp, `addSeedProvider`). An address is a text; the peer that it names, if it names
-- one that libp2p can read, is a parameter. A CID and a peer are numbers.
use async_iomanager.Common.{
  ℕ, Option, none, some, List, [], ◌∷◌, ◌++◌, Bytes, append-nil, ◌≡◌, refl, sym, ap, ◌∙◌,
}

-- `PeerInfo` with its addresses.
pub record PeerInfo : Type 0 where
  pub id : ℕ
  pub addresses : List Bytes

-- The calls of Bitswap.
pub data Op : Type 0 where
  add_provider : ℕ → PeerInfo → Op
  add_providers : ℕ → List PeerInfo → Op

-- The addresses of all the providers that were found.
pub provider_addresses : List PeerInfo → List Bytes
provider_addresses [] = []
provider_addresses (p ∷ ps) = p.addresses ++ provider_addresses ps

-- `IPFSLoader::addSeedProvider`, with the external Bitswap instance if there is one.
pub add_seed_provider : Option ℕ → ℕ → PeerInfo → List Op
add_seed_provider none cid peer = []
add_seed_provider (some bitswap) cid peer = add_provider cid peer ∷ []

module _ (peer_of : Bytes → Option ℕ) where
  abbrev peer_info : ℕ → Bytes → PeerInfo
  peer_info id address = record { id = id; addresses = address ∷ [] }

  pub add_address : ℕ → Bytes → List Op
  add_address cid address = elim (peer_of address) [
    | none ↦ []
    | some id ↦ add_provider cid (peer_info id address) ∷ []
  ]

  -- The loop of `addAddresses`; an address that names no peer is left out.
  pub peer_infos : List Bytes → List PeerInfo
  peer_infos [] = []
  peer_infos (address ∷ addresses) =
      let rest = peer_infos addresses in
      elim (peer_of address) [ none ↦ rest | some id ↦ peer_info id address ∷ rest ]

  pub add_addresses : ℕ → List Bytes → List Op
  add_addresses cid addresses = add_providers cid (peer_infos addresses) ∷ []

  pub add_each : ℕ → List Bytes → List Op
  add_each cid [] = []
  add_each cid (address ∷ addresses) = add_address cid address ++ add_each cid addresses

abbrev with_cid : ℕ → List PeerInfo → List (ℕ × PeerInfo)
with_cid cid [] = []
with_cid cid (p ∷ ps) = (cid, p) ∷ with_cid cid ps

-- The providers that some calls hand to Bitswap, in their order.
abbrev pub handed : List Op → List (ℕ × PeerInfo)
handed [] = []
handed (add_provider cid p ∷ ops) = (cid, p) ∷ handed ops
handed (add_providers cid ps ∷ ops) = with_cid cid ps ++ handed ops

module _ (peer_of : Bytes → Option ℕ) (cid : ℕ) where
  each-handed :
      (addresses : List Bytes)
      → handed (add_each peer_of cid addresses) ≡ with_cid cid (peer_infos peer_of addresses)
  unfolding add_each add_address peer_infos
  each-handed [] = refl
  each-handed (address ∷ addresses) =
      elim (peer_of address)
        as (λ o.
          handed (
            (elim o [ none ↦ [] | some id ↦ add_provider cid (peer_info peer_of id address) ∷ [] ])
            ++ add_each peer_of cid addresses)
          ≡ with_cid cid (elim o [
            | none ↦ peer_infos peer_of addresses
            | some id ↦ peer_info peer_of id address ∷ peer_infos peer_of addresses
          ])) [
            | none ↦ each-handed addresses
            | some id ↦ ap (◌∷◌ (cid, peer_info peer_of id address)) (each-handed addresses)
          ]

  -- `addAddresses` hands Bitswap just the providers, in the same order, that one `addAddress` for each
  -- address hands it; the addresses that name no peer are left out and stop neither.
  pub add_addresses-handed :
      (addresses : List Bytes)
      → handed (add_addresses peer_of cid addresses) ≡ handed (add_each peer_of cid addresses)
  unfolding add_addresses
  add_addresses-handed addresses = append-nil _ ∙ sym (each-handed addresses)
