-- ===== src/Wallet/Networks.antt =====
-- src/chain/config.ts: the two networks and the choice between them.
use qrib.Engine.Common.{truthy}
use qrib.Common.{
  Text, codes, Option, List, Bool, if◌then◌else◌, ◌∷◌, is_some, some, ◌≡◌, text_eq, [], ◌||◌, ◌↔◌,
  none, any, or_else, arith, Bool-cases, inl, inr, ap,
}

-- An entry of `NETWORKS`, without the chain that the Ethereum library defines.
pub record Network : Type 0 where
  pub usdc : Text
  pub env_rpc : Text
  pub default_rpc : Text
  pub explorer : Text

abbrev pub base_sepolia : Network
base_sepolia = record {
  usdc = codes "0x036CbD53842c5426634e7929541eC2318f3dCF7e";
  env_rpc = codes "BASE_SEPOLIA_RPC_URL";
  default_rpc = codes "https://sepolia.base.org";
  explorer = codes "https://sepolia.basescan.org";
}

abbrev pub base : Network
base = record {
  usdc = codes "0x833589fCD6eDb6E08f4c7C32D4f71b54bdA02913";
  env_rpc = codes "BASE_RPC_URL";
  default_rpc = codes "https://mainnet.base.org";
  explorer = codes "https://basescan.org";
}

-- `NETWORKS[network]`
abbrev pub network_of : Text → Option Network
network_of name =
    if text_eq name (codes "base-sepolia")
    then some base_sepolia
    else if text_eq name (codes "base")
    then some base
    else none

-- The names that every object inherits, which the operator `in` finds too.
abbrev pub inherited : List Text
inherited =
    codes "constructor"
    ∷ codes "hasOwnProperty"
    ∷ codes "isPrototypeOf"
    ∷ codes "propertyIsEnumerable"
    ∷ codes "toLocaleString"
    ∷ codes "toString"
    ∷ codes "valueOf"
    ∷ codes "__proto__"
    ∷ codes "__defineGetter__"
    ∷ codes "__defineSetter__"
    ∷ codes "__lookupGetter__"
    ∷ codes "__lookupSetter__"
    ∷ []

-- `input in NETWORKS`
abbrev pub in_networks : Text → Bool
in_networks name = is_some (network_of name) || any (text_eq name) inherited

-- `parseNetwork`; `none` where it throws.
unfoldable pub parse_network : Option Text → Option Text
parse_network none = some (codes "base-sepolia")
parse_network (some name) =
    if text_eq name []
    then some (codes "base-sepolia")
    else if in_networks name
    then some name
    else none

-- `rpcUrlFor`
abbrev pub rpc_url_for : (Text → Option Text) → Network → Text
rpc_url_for env cfg =
    if truthy (env cfg.env_rpc) then or_else (env cfg.env_rpc) [] else cfg.default_rpc

-- `parseNetwork` answers mainnet exactly where mainnet was asked for by its name.
pub parse_network_mainnet :
    (input : Option Text)
    → (parse_network input ≡ some (codes "base")) ↔ (input ≡ some (codes "base"))
unfolding parse_network
parse_network_mainnet none = (λ e. absurd (ground (arith, e)), λ e. absurd (ground (arith, e)))
parse_network_mainnet (some name) = (asked name, λ e. ap parse_network e)
  where
    asked :
        (name : Text)
        → parse_network (some name) ≡ some (codes "base")
        → some name ≡ some (codes "base")
    asked name e = elim (Bool-cases (text_eq name [])) [
      | inl empty ↦ absurd (ground (arith, e, empty))
      | inr named ↦ elim (Bool-cases (in_networks name)) [
        | inl known ↦ ground (arith, e, named, known)
        | inr unknown ↦ absurd (ground (arith, e, named, unknown))
      ]
    ]
