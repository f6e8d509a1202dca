-- ===== src/Account/Lists.antt =====
-- The pages of lists: user_service.go (wallet flows, invoices), invite_rebate_service.go (commission
-- records, withdrawals, members), with the statements of infrastructure/mysql that they call. An
-- item is the row that it shows; the number of the order of an invoice is only shown.
use ai_token_mall.Prelude.{
  ℕ, ◌-◌, ◌*◌, ◌||◌, Option, none, some, List, [], ◌∷◌, ◌++◌, ◌==◌, ltb, select, take, drop, length,
  if◌then◌else◌,
}
use ai_token_mall.Prelude.Int.{ℤ, pos, negsuc, wrap_64}
use ai_token_mall.Entity.{
  Users, UserWalletFlows, UserInvoices, UserCommissionRecords, UserCommissionWithdrawals,
}
use ai_token_mall.Store.Action.{Tables, Action, pure, ◌>>=◌, query, map_error, catch}
use ai_token_mall.Store.Accounts.{find_by_id}
use ai_token_mall.Account.{to_db_error, text_or_empty, is_empty}

pub record PageQuery : Type 0 where
  pub page : ℤ
  pub page_size : ℤ

pub record Page (A : Type 0) : Type 0 where
  pub items : List A
  pub total : ℕ
  pub page : ℕ
  pub page_size : ℕ

-- A page below 1 is the first one.
abbrev pub page_number : ℤ → ℕ
page_number (pos n) = if n == 0 then 1 else n
page_number (negsuc n) = 1

-- A size below 1 is 9, one above 100 is 100.
abbrev pub size_of_page : ℤ → ℕ
size_of_page (pos n) = if n == 0 then 9 else if ltb 100 n then 100 else n
size_of_page (negsuc n) = 9

-- `normalizePage`: the page, its size and the offset, a product of two `int` that wraps at 64 bits.
unfoldable pub normalize_page : PageQuery → ℕ × ℕ × ℤ
normalize_page q =
    let page = page_number q.page in
    let page_size = size_of_page q.page_size in
    (page, page_size, wrap_64 (pos ((page - 1) * page_size)))

-- ORDER BY id DESC, for rows that are kept in the order of their ids.
unfoldable pub descending : {A : Type 0} → List A → List A
descending [] = []
descending (x ∷ xs) = descending xs ++ x ∷ []

-- `limit <= 0 || limit > 100`
abbrev pub limit_or : ℕ → ℕ → ℕ
limit_or default limit = if limit == 0 || ltb 100 limit then default else limit

-- `if offset < 0 { offset = 0 }`
abbrev pub offset_or_zero : ℤ → ℕ
offset_or_zero (pos n) = n
offset_or_zero (negsuc n) = 0

unfoldable pub rows_at : {A : Type 0} → (Tables → List A) → ℤ → ℕ → Action (List A)
rows_at rows offset limit =
    query (λ t. take limit (drop (offset_or_zero offset) (descending (rows t))))

abbrev pub flows_of : ℕ → Tables → List UserWalletFlows
flows_of user_id t = select (λ f. f.user_id == user_id) t.flows

abbrev pub invoices_of : ℕ → Tables → List UserInvoices
invoices_of user_id t = select (λ i. i.user_id == user_id) t.invoices

abbrev pub records_of : ℕ → Tables → List UserCommissionRecords
records_of user_id t = select (λ r. r.inviter_user_id == user_id) t.records

abbrev pub withdrawals_of : ℕ → Tables → List UserCommissionWithdrawals
withdrawals_of user_id t = select (λ w. w.user_id == user_id) t.withdrawals

abbrev pub members_of : ℕ → Tables → List Users
members_of user_id t = select (λ u. u.parent_user_id == user_id) t.users

-- The count, and then the rows of the page, as all listings read them.
unfoldable pub list_page : {A : Type 0} → (Tables → List A) → ℕ → PageQuery → Action (Page A)
unfolding rows_at normalize_page
list_page rows default q = map_error to_db_error (query (λ t. length (rows t))) >>= λ total.
    let (page, page_size, offset) = normalize_page q in
    map_error to_db_error (rows_at rows offset (limit_or default page_size)) >>= λ items.
    pure record { items = items; total = total; page = page; page_size = page_size }

unfoldable pub list_wallet_flows : ℕ → PageQuery → Action (Page UserWalletFlows)
unfolding list_page
list_wallet_flows user_id q = list_page (flows_of user_id) 9 q

unfoldable pub list_invoices : ℕ → PageQuery → Action (Page UserInvoices)
unfolding list_page
list_invoices user_id q = list_page (invoices_of user_id) 9 q

-- A record with the names of the invited user, as far as they can be read.
pub record CommissionRecordItem : Type 0 where
  pub row : UserCommissionRecords
  pub invitee_nickname : List ℕ
  pub invitee_email : List ℕ

abbrev pub record_item : UserCommissionRecords → Option Users → CommissionRecordItem
record_item row none = record { row = row; invitee_nickname = []; invitee_email = [] }
record_item row (some u) =
    let nickname = text_or_empty u.nickname in
    let email = text_or_empty u.email in
    record {
      row = row;
      invitee_nickname = if is_empty nickname then email else nickname;
      invitee_email = email;
    }

-- An error of the read of an invited user is passed over.
unfoldable pub record_items : List UserCommissionRecords → Action (List CommissionRecordItem)
record_items [] = pure []
record_items (row ∷ rows) = do
  invitee ← catch (find_by_id row.invitee_user_id >>= λ u. pure (some u)) (λ e. pure none)
  rest ← record_items rows
  pure (record_item row invitee ∷ rest)

unfoldable pub list_commission_records : ℕ → PageQuery → Action (Page CommissionRecordItem)
unfolding list_page record_items
list_commission_records user_id q = do
  p ← list_page (records_of user_id) 20 q
  items ← record_items p.items
  pure record { items = items; total = p.total; page = p.page; page_size = p.page_size }

unfoldable pub list_withdrawals : ℕ → PageQuery → Action (Page UserCommissionWithdrawals)
unfolding list_page
list_withdrawals user_id q = list_page (withdrawals_of user_id) 20 q

-- `ListMembers` asks for 500 rows, and the statement takes 20 instead.
unfoldable pub list_members : ℕ → Action (List Users × ℕ)
unfolding rows_at
list_members user_id =
    map_error to_db_error (rows_at (members_of user_id) (pos 0) (limit_or 20 500)) >>= λ items.
    map_error to_db_error (query (λ t. length (members_of user_id t))) >>= λ total.
    pure (items, total)
