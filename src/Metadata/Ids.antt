-- ===== src/Metadata/Ids.antt =====
-- Identifiers of dex_aggregator/chain_metadata/src/common.rs and registry/chain.rs, with their
-- derived equality. An EthAddress (20 bytes), a SubstratePublicKey, a transaction hash (32 bytes),
-- a SecretKey and a Uuid (16 bytes) are the numbers that their bytes spell, big end first.
use privadex.Prelude.{
  ℕ, ◌+◌, ◌*◌, ◌^◌, ◌≡◌, ◌↔◌, Bool, true, false, ◌&&◌, Option, none, some, PartialEq, eqb, arith,
}

pub data RelayChain : Type 0 where
  polkadot kusama westend rococo moonbase_relay : RelayChain

abbrev relay_beq : RelayChain → RelayChain → Bool
relay_beq polkadot polkadot = true
relay_beq kusama kusama = true
relay_beq westend westend = true
relay_beq rococo rococo = true
relay_beq moonbase_relay moonbase_relay = true
relay_beq _ _ = false

pub relay_beq_iff : (a b : RelayChain) → (relay_beq a b ≡ true) ↔ (a ≡ b)
relay_beq_iff a b = ground arith

instance abbrev pub relay_eq : PartialEq RelayChain
relay_eq = record { eq = relay_beq; eq_iff = relay_beq_iff }

pub data UniversalChainId : Type 0 where
  substrate_relay_chain : RelayChain → UniversalChainId
  substrate_parachain : RelayChain → ℕ → UniversalChainId

abbrev chain_beq : UniversalChainId → UniversalChainId → Bool
chain_beq (substrate_relay_chain r) (substrate_relay_chain s) = relay_beq r s
chain_beq (substrate_parachain r p) (substrate_parachain s q) = relay_beq r s && eqb p q
chain_beq _ _ = false

pub chain_beq_iff : (a b : UniversalChainId) → (chain_beq a b ≡ true) ↔ (a ≡ b)
chain_beq_iff a b = ground arith

instance abbrev pub chain_eq : PartialEq UniversalChainId
chain_eq = record { eq = chain_beq; eq_iff = chain_beq_iff }

unfoldable pub get_relay : UniversalChainId → RelayChain
get_relay (substrate_relay_chain relay) = relay
get_relay (substrate_parachain relay _) = relay

unfoldable pub get_parachain_id : UniversalChainId → Option ℕ
get_parachain_id (substrate_relay_chain _) = none
get_parachain_id (substrate_parachain _ parachain_id) = some parachain_id

-- `erc20` holds the token's address and `xc20` its asset id.
pub data ChainTokenId : Type 0 where
  native : ChainTokenId
  erc20 : ℕ → ChainTokenId
  xc20 : ℕ → ChainTokenId

abbrev token_beq : ChainTokenId → ChainTokenId → Bool
token_beq native native = true
token_beq (erc20 a) (erc20 b) = eqb a b
token_beq (xc20 a) (xc20 b) = eqb a b
token_beq _ _ = false

pub token_beq_iff : (a b : ChainTokenId) → (token_beq a b ≡ true) ↔ (a ≡ b)
token_beq_iff a b = ground arith

instance abbrev pub token_eq : PartialEq ChainTokenId
token_eq = record { eq = token_beq; eq_iff = token_beq_iff }

-- `XC20Token::get_eth_address`: four bytes FF before the sixteen of the asset id.
unfoldable pub xc20_eth_address : ℕ → ℕ
xc20_eth_address asset_id = 0xFFFFFFFF * 2 ^ 128 + asset_id

pub record UniversalTokenId : Type 0 where
  pub chain : UniversalChainId
  pub id : ChainTokenId

abbrev token_id_beq : UniversalTokenId → UniversalTokenId → Bool
token_id_beq a b = chain_beq a.chain b.chain && token_beq a.id b.id

pub token_id_beq_iff : (a b : UniversalTokenId) → (token_id_beq a b ≡ true) ↔ (a ≡ b)
token_id_beq_iff a b = ground (arith, chain_beq_iff a.chain b.chain, token_beq_iff a.id b.id)

instance abbrev pub token_id_eq : PartialEq UniversalTokenId
token_id_eq = record { eq = token_id_beq; eq_iff = token_id_beq_iff }

pub data UniversalAddress : Type 0 where
  ethereum : ℕ → UniversalAddress
  substrate : ℕ → UniversalAddress

abbrev address_beq : UniversalAddress → UniversalAddress → Bool
address_beq (ethereum a) (ethereum b) = eqb a b
address_beq (substrate a) (substrate b) = eqb a b
address_beq _ _ = false

pub address_beq_iff : (a b : UniversalAddress) → (address_beq a b ≡ true) ↔ (a ≡ b)
address_beq_iff a b = ground arith

instance abbrev pub address_eq : PartialEq UniversalAddress
address_eq = record { eq = address_beq; eq_iff = address_beq_iff }
