-- ===== src/Settle/Layout.antt =====
-- engine/stockmesh/programs/stocklana-settle/src/order.rs: the offsets of the fields in the data of an order.
use xtxc.Common.{ℕ}

abbrev pub owner : ℕ
owner = 8

abbrev pub policy : ℕ
policy = 72

abbrev pub cash_mint : ℕ
cash_mint = 104

abbrev pub product_mint : ℕ
product_mint = 136

abbrev pub escrow : ℕ
escrow = 168

abbrev pub cash_destination : ℕ
cash_destination = 200

abbrev pub order_nonce : ℕ
order_nonce = 232

abbrev pub remaining_stock : ℕ
remaining_stock = 248

abbrev pub min_cash_per_share : ℕ
min_cash_per_share = 256

abbrev pub expires_slot : ℕ
expires_slot = 264

abbrev pub revision : ℕ
revision = 272

abbrev pub filled_cash : ℕ
filled_cash = 280

abbrev pub status : ℕ
status = 328

abbrev pub instrument : ℕ
instrument = 40

abbrev pub total_stock : ℕ
total_stock = 240

abbrev pub created_slot : ℕ
created_slot = 288

abbrev pub initial_policy_version : ℕ
initial_policy_version = 296

abbrev pub model : ℕ
model = 304

abbrev pub conservative_bps : ℕ
conservative_bps = 305

abbrev pub numerator : ℕ
numerator = 312

abbrev pub denominator : ℕ
denominator = 320
