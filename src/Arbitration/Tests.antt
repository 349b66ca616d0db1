-- ===== src/Arbitration/Tests.antt =====
-- Three claims of one path.
use obsidian_air_sync.Prelude.{◌≡◌, refl, false, [], ◌∷◌, inl, inr}
use obsidian_air_sync.Prelude.Text.{Str, str_eq, codes}
use obsidian_air_sync.Types.Entity.{PathAuthority, actual_resolved}
use obsidian_air_sync.Arbitration.{AddressClaim, arbitrate_address, admit_one}
use obsidian_air_sync.Arbitration.Order.{arbitrate_address_comm}
use obsidian_air_sync.Arbitration.Holder.{IsIn, admit_one-order_independent}
use obsidian_air_sync.Samples.{note}

abbrev first : AddressClaim
first = record { id = codes "x"; authority = actual_resolved; is_folder = false }

abbrev second : AddressClaim
second = record { id = codes "y"; authority = actual_resolved; is_folder = false }

abbrev always : Str → PathAuthority
always id = actual_resolved

arbitrate_address_comm_example :
    ((arbitrate_address note first second).admitted_id
      ≡ (arbitrate_address note second first).admitted_id)
    × ((arbitrate_address note first second).withheld_id
        ≡ (arbitrate_address note second first).withheld_id)
    × ((arbitrate_address note first second).reason ≡ (arbitrate_address note second first).reason)
    × ((arbitrate_address note first second).withheld_owes_remediation
        ≡ (arbitrate_address note second first).withheld_owes_remediation)
arbitrate_address_comm_example = arbitrate_address_comm note first second

swapped : (a b c : AddressClaim) → IsIn c (a ∷ b ∷ []) → IsIn c (b ∷ a ∷ [])
swapped a b c (inl e) = inr (inl e)
swapped a b c (inr (inl e)) = inl e
swapped a b c (inr (inr e)) = inr (inr e)

admit_one-order_independent_example :
    (admit_one note first (second ∷ [])).id ≡ (admit_one note second (first ∷ [])).id
admit_one-order_independent_example =
    admit_one-order_independent always note first second (second ∷ []) (first ∷ []) refl (refl, tt)
      refl (refl, tt) (swapped first second) (swapped second first)
