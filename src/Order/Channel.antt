-- ===== src/Order/Channel.antt =====
-- order_service.go: the words of a request. A refused word is `none`, the empty text of the code.
use ai_token_mall.Prelude.{ℕ, ◌||◌, Option, none, some, List, [], String, if◌then◌else◌}
use ai_token_mall.Text.{codes, codes_eq, trim_space, to_lower}
use ai_token_mall.Entity.{OrderType}

abbrev pub word : List ℕ → List ℕ
word raw = to_lower (trim_space raw)

unfoldable pub normalize_order_type : List ℕ → Option OrderType
normalize_order_type raw =
    if codes_eq (word raw) [] || codes_eq (word raw) (codes "purchase")
    then some OrderType.purchase
    else if codes_eq (word raw) (codes "renewal")
    then some OrderType.renewal
    else if codes_eq (word raw) (codes "upgrade")
    then some OrderType.upgrade
    else if codes_eq (word raw) (codes "quota_addon")
    then some OrderType.quota_addon
    else none

unfoldable pub normalize_pay_channel : List ℕ → Option String
normalize_pay_channel raw =
    if codes_eq (word raw) (codes "alipay")
    then some "alipay"
    else if codes_eq (word raw) (codes "wechat") || codes_eq (word raw) (codes "wxpay")
    then some "wechat"
    else if codes_eq (word raw) (codes "paypal")
    then some "paypal"
    else none
