-- ===== src/Billing/Adapters/Key.antt =====
-- The keys that the adapters of core/billing/adapters look up, numbered.
use backend_core.Common.{ℕ}

abbrev pub method : ℕ
method = 11

abbrev pub params : ℕ
params = 12

abbrev pub id : ℕ
id = 13

abbrev pub account : ℕ
account = 14

abbrev pub payment_id : ℕ
payment_id = 15

abbrev pub amount : ℕ
amount = 16

abbrev pub reason : ℕ
reason = 17

abbrev pub authorization : ℕ
authorization = 18

abbrev pub action : ℕ
action = 19

abbrev pub click_trans_id : ℕ
click_trans_id = 20

abbrev pub merchant_trans_id : ℕ
merchant_trans_id = 21

abbrev pub merchant_prepare_id : ℕ
merchant_prepare_id = 22

abbrev pub error : ℕ
error = 23

abbrev pub sign_string : ℕ
sign_string = 24

abbrev pub service_id : ℕ
service_id = 25

abbrev pub sign_time : ℕ
sign_time = 26
