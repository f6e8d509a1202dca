-- ===== src/Store/Ledger.antt =====
-- The rows that money movements leave: infrastructure/mysql/user_wallet_flows.go,
-- user_commission_records.go, user_commission_withdrawals.go, user_notifications.go,
-- user_invoices.go and vip_config.go. The unique keys are those of docs/migrations.
use ai_token_mall.Prelude.{
  ℕ, Bool, false, ◌&&◌, Option, none, some, [], ◌∷◌, ◌++◌, ◌==◌, String, str_eq, find_first,
  exists_where, if◌then◌else◌,
}
use ai_token_mall.Entity.{
  flow_type_eq, ref_type_eq, UserWalletFlows, UserCommissionRecords, UserCommissionWithdrawals,
  UserNotifications, UserInvoices, VipConfig, UserCommissionPayoutConfig,
}
use ai_token_mall.Store.Action.{Tables, Action, ◌>>=◌, query, insert}

-- uk_user_wallet_flows_ref (type, ref_type, ref_id)
abbrev pub same_flow : UserWalletFlows → UserWalletFlows → Bool
same_flow a b =
    flow_type_eq a.flow_type b.flow_type
    && ref_type_eq a.ref_type b.ref_type
    && a.ref_id == b.ref_id

abbrev pub add_flow : UserWalletFlows → Tables → Tables
add_flow row t = record t { flows = t.flows ++ row ∷ [] }

unfoldable pub create_flow : UserWalletFlows → Action ℕ
create_flow row = insert (λ t n. exists_where (same_flow row) t.flows) (λ n t. add_flow row t)

unfoldable pub record_of_order : ℕ → Tables → Option UserCommissionRecords
record_of_order order_id t = find_first (λ r. r.order_id == order_id) t.records

unfoldable pub find_record_by_order_id : ℕ → Action (Option UserCommissionRecords)
find_record_by_order_id order_id = query (record_of_order order_id)

abbrev pub add_record : UserCommissionRecords → Tables → Tables
add_record row t = record t { records = t.records ++ row ∷ [] }

-- uk_user_commission_records_order (order_id); the row gets its id here.
unfoldable pub create_record : UserCommissionRecords → Action ℕ
create_record row =
    insert (λ t n. exists_where (λ r. r.order_id == row.order_id) t.records)
      (λ n t. add_record (record row { id = n }) t)

abbrev pub add_withdrawal : UserCommissionWithdrawals → Tables → Tables
add_withdrawal row t = record t { withdrawals = t.withdrawals ++ row ∷ [] }

unfoldable pub create_withdrawal : UserCommissionWithdrawals → Action ℕ
create_withdrawal row = insert (λ t n. false) (λ n t. add_withdrawal (record row { id = n }) t)

abbrev pub add_notification : UserNotifications → Tables → Tables
add_notification row t = record t { notifications = t.notifications ++ row ∷ [] }

unfoldable pub create_notification : UserNotifications → Action ℕ
create_notification row = insert (λ t n. false) (λ n t. add_notification row t)

abbrev pub add_invoice : UserInvoices → Tables → Tables
add_invoice row t = record t { invoices = t.invoices ++ row ∷ [] }

unfoldable pub create_invoice : UserInvoices → Action ℕ
create_invoice row = insert (λ t n. false) (λ n t. add_invoice row t)

unfoldable pub vip_config_of : ℕ → Tables → Option VipConfig
vip_config_of id t = find_first (λ c. c.id == id) t.vip_configs

unfoldable pub find_vip_config_by_id : ℕ → Action (Option VipConfig)
find_vip_config_by_id id = query (vip_config_of id)

abbrev pub default_id : Option VipConfig → ℕ
default_id none = 1
default_id (some c) = if c.id == 0 then 1 else c.id

abbrev pub default_level : Tables → Option VipConfig
default_level t = vip_config_of (default_id (find_first (λ c. c.is_default) t.vip_configs)) t

-- `FindDefault`: the first default level, or the level 1. (The branch for a missing column is not
-- modelled.)
unfoldable pub find_default_vip_config : Action (Option VipConfig)
unfolding find_vip_config_by_id
find_default_vip_config = do
  found ← query (λ t. find_first (λ c. c.is_default) t.vip_configs)
  find_vip_config_by_id (default_id found)

unfoldable pub find_payout : ℕ → String → Action (Option UserCommissionPayoutConfig)
find_payout user_id channel =
    query (λ t. find_first (λ p. p.user_id == user_id && str_eq p.channel channel) t.payouts)
