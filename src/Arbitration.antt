-- ===== src/Arbitration.antt =====
-- src/fs/caching/address-arbitration.ts and the holder of a contended path in
-- src/fs/caching/claim-set-assignment.ts: which of the objects that claim one cache address holds it.
pub mod Order
pub mod Holder
mod Tests
use obsidian_air_sync.Prelude.{
  ℕ, Bool, true, false, not, ◌&&◌, ◌||◌, Option, none, some, List, [], ◌∷◌, Eq, ◌==◌, nat_eq,
  bool_eq, ltb, if◌then◌else◌,
}
use obsidian_air_sync.Prelude.Text.{Str, str_eq, str_ltb}
use obsidian_air_sync.Types.Entity.{PathAuthority, actual_resolved, requested_echo}

-- A claim that does not say that it is a folder is none.
pub record AddressClaim : Type 0 where
  pub id : Str
  pub authority : PathAuthority
  pub is_folder : Bool

pub data Outcome : Type 0 where
  no_contest merge admit_incumbent admit_claimant : Outcome

pub data Reason : Type 0 where
  same_stable_id folder_merge path_authority lowest_stable_id : Reason

pub record AddressArbitration : Type 0 where
  pub path : Str
  pub outcome : Outcome
  pub admitted_id : Str
  pub withheld_id : Option Str
  pub reason : Reason
  pub withheld_owes_remediation : Bool

abbrev pub is_resolved : PathAuthority → Bool
is_resolved actual_resolved = true
is_resolved requested_echo = false

-- Lower rank wins.
abbrev pub authority_rank : PathAuthority → ℕ
authority_rank actual_resolved = 0
authority_rank requested_echo = 1

pub merges_as_one_folder : AddressClaim → AddressClaim → Bool
merges_as_one_folder left right =
    not (left.id == right.id)
    && left.is_folder
    && right.is_folder
    && is_resolved left.authority
    && is_resolved right.authority

settle : Str → AddressClaim → AddressClaim → Bool → Reason → AddressArbitration
settle path incumbent claimant incumbent_wins reason =
    let admitted = if incumbent_wins then incumbent else claimant in
    let withheld = if incumbent_wins then claimant else incumbent in
    record {
      path = path;
      outcome = if incumbent_wins then admit_incumbent else admit_claimant;
      admitted_id = admitted.id;
      withheld_id = some withheld.id;
      reason = reason;
      withheld_owes_remediation = is_resolved withheld.authority;
    }

pub arbitrate_address : Str → AddressClaim → AddressClaim → AddressArbitration
unfolding merges_as_one_folder settle
arbitrate_address path incumbent claimant =
    if incumbent.id == claimant.id
    then record {
      path = path;
      outcome = no_contest;
      admitted_id = incumbent.id;
      withheld_id = none;
      reason = same_stable_id;
      withheld_owes_remediation = false;
    }
    else if merges_as_one_folder incumbent claimant
    then record {
      path = path;
      outcome = merge;
      admitted_id = if str_ltb incumbent.id claimant.id then incumbent.id else claimant.id;
      withheld_id = none;
      reason = folder_merge;
      withheld_owes_remediation = false;
    }
    else if not (authority_rank incumbent.authority == authority_rank claimant.authority)
    then settle path incumbent claimant
        (ltb (authority_rank incumbent.authority) (authority_rank claimant.authority))
        path_authority
    else settle path incumbent claimant (str_ltb incumbent.id claimant.id) lowest_stable_id

-- `admitOne`: the arbiter is folded over the claims of one path.
pub admit_one : Str → AddressClaim → List AddressClaim → AddressClaim
admit_one path holder [] = holder
admit_one path holder (claim ∷ group) =
    admit_one path
      (if (arbitrate_address path holder claim).admitted_id == holder.id then holder else claim)
      group
