-- ===== src/Arbitration/Order.antt =====
-- The order that the arbiter of src/fs/caching/address-arbitration.ts follows.
use obsidian_air_sync.Prelude.{
  ◌≡◌, ◌≢◌, Bool, true, false, ◌&&◌, ◌||◌, arith, ◌==◌, nat_eq, ltb, if◌then◌else◌,
}
use obsidian_air_sync.Prelude.Text.{
  Str, str_eq, str_ltb, str_ltb_irrefl, str_ltb_trans, str_ltb_connex,
}
use obsidian_air_sync.Arbitration.{AddressClaim, authority_rank, arbitrate_address}

-- Authority first, then the lowest id.
unfoldable pub before : AddressClaim → AddressClaim → Bool
before a b =
    ltb (authority_rank a.authority) (authority_rank b.authority)
    || (authority_rank a.authority == authority_rank b.authority && str_ltb a.id b.id)

pub before_trans :
    (a b c : AddressClaim) → before a b ≡ true → before b c ≡ true → before a c ≡ true
unfolding before
before_trans a b c p q = ground (arith, str_ltb_trans a.id b.id c.id)

pub before_irrefl : (a : AddressClaim) → before a a ≡ false
unfolding before
before_irrefl a = ground (arith, str_ltb_irrefl a.id)

pub before_connex : (a b : AddressClaim) → a.id ≢ b.id → before a b ≡ false → before b a ≡ true
unfolding before
before_connex a b n h = ground (arith, str_ltb_connex a.id b.id)

before_asym : (a b : AddressClaim) → before a b ≡ true → before b a ≡ true → ⊥
before_asym a b p q = ground (arith, before_trans a b a p q, before_irrefl a)

-- Between two different objects the arbiter admits the one that comes first by authority and then
-- by id, whatever the outcome is called.
pub admitted-arbitrate_address :
    (path : Str) (a b : AddressClaim)
    → a.id ≢ b.id
    → (arbitrate_address path a b).admitted_id ≡ (if before a b then a.id else b.id)
unfolding arbitrate_address before
admitted-arbitrate_address path a b n = ground arith

pub admitted-same_id :
    (path : Str) (a b : AddressClaim)
    → a.id ≡ b.id
    → (arbitrate_address path a b).admitted_id ≡ a.id
unfolding arbitrate_address
admitted-same_id path a b e = ground arith

-- For two claims of an address, which of them is the incumbent makes no difference to who is
-- admitted, who is withheld, for which reason, and whether the withheld one owes a remediation.
pub arbitrate_address_comm :
    (path : Str) (a b : AddressClaim)
    → ((arbitrate_address path a b).admitted_id ≡ (arbitrate_address path b a).admitted_id)
      × ((arbitrate_address path a b).withheld_id ≡ (arbitrate_address path b a).withheld_id)
      × ((arbitrate_address path a b).reason ≡ (arbitrate_address path b a).reason)
      × ((arbitrate_address path a b).withheld_owes_remediation
          ≡ (arbitrate_address path b a).withheld_owes_remediation)
unfolding arbitrate_address
arbitrate_address_comm path a b =
    ground (arith, str_ltb_connex a.id b.id, str_ltb_trans a.id b.id a.id, str_ltb_irrefl a.id)
