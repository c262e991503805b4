-- ===== src/Metadata/Templates.antt =====
-- `WalletMultiLocationTemplate` of dex_aggregator/chain_metadata/src/bridge.rs, over the crate xcm.
use privadex.Prelude.{ℕ, ◌-◌, List, length, get_elem?, ◌==◌, nat_eq, if◌then◌else◌}
use privadex.Prelude.Fallible.{Outcome, ok, err, ok_or, ◌>>=◌}
use privadex.Metadata.Ids.{UniversalAddress, ethereum, substrate}

-- What a junction holds, as far as the code looks at it.
pub data JunctionView : Type 0 where
  account_key20 account_id32 other : JunctionView

-- What the code uses of the crate xcm: the junctions of a location, the replacement of one of them
-- (`at_mut`), and the replacement of the account in a junction.
pub record Xcm : Type 1 where
  pub MultiLocation : Type 0
  pub Junction : Type 0
  pub interior : MultiLocation → List Junction
  pub set_junction : ℕ → Junction → MultiLocation → MultiLocation
  pub view : Junction → JunctionView
  pub replace_account : Junction → ℕ → Junction

pub data TemplateError : Type 0 where
  invalid_multi_location_length invalid_multi_location_address : TemplateError

module _ (x : Xcm) where
  pub record WalletMultiLocationTemplate : Type 0 where
    pub template : x.MultiLocation

  -- `if let Junction::AccountKey20 { .. }`, and `AccountId32` for the other length of address.
  replace_last :
      JunctionView → ℕ → x.Junction → ℕ → x.MultiLocation → Outcome TemplateError x.MultiLocation
  replace_last JunctionView.account_key20 index junction eth_addr m =
      ok (x.set_junction index (x.replace_account junction eth_addr) m)
  replace_last _ index junction eth_addr m = err invalid_multi_location_address

  replace_last_id :
      JunctionView → ℕ → x.Junction → ℕ → x.MultiLocation → Outcome TemplateError x.MultiLocation
  replace_last_id JunctionView.account_id32 index junction pubkey m =
      ok (x.set_junction index (x.replace_account junction pubkey) m)
  replace_last_id _ index junction pubkey m = err invalid_multi_location_address

  -- `get_full_dest_multilocation_raw` for twenty bytes, and for thirty-two.
  full_dest_eth : ℕ → WalletMultiLocationTemplate → Outcome TemplateError x.MultiLocation
  unfolding replace_last
  full_dest_eth field t =
      let len = length (x.interior t.template) in
      if len == 0
      then err invalid_multi_location_length
      else ok_or (get_elem? (x.interior t.template) (len - 1)) invalid_multi_location_length
        >>= λ last_junction.
            replace_last (x.view last_junction) (len - 1) last_junction field t.template

  full_dest_substrate : ℕ → WalletMultiLocationTemplate → Outcome TemplateError x.MultiLocation
  unfolding replace_last_id
  full_dest_substrate field t =
      let len = length (x.interior t.template) in
      if len == 0
      then err invalid_multi_location_length
      else ok_or (get_elem? (x.interior t.template) (len - 1)) invalid_multi_location_length
        >>= λ last_junction.
            replace_last_id (x.view last_junction) (len - 1) last_junction field t.template

  unfoldable pub get_full_dest_multilocation :
      WalletMultiLocationTemplate → UniversalAddress → Outcome TemplateError x.MultiLocation
  unfolding full_dest_eth full_dest_substrate
  get_full_dest_multilocation t (ethereum eth_addr) = full_dest_eth eth_addr t
  get_full_dest_multilocation t (substrate substrate_addr) = full_dest_substrate substrate_addr t
