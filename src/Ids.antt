-- ===== src/Ids.antt =====
-- pkg/vo/id.go: an ID keeps the text that uuid.Parse accepted, as it was written.
use financial_wallet.Prelude.{Option, none, some, if◌then◌else◌}
use financial_wallet.Text.{Text}
use financial_wallet.Result.{Result, ok, err, ◌>>=◌, invalid_id}
use financial_wallet.Libs.{Libs}

unfoldable pub parse_id : Libs → Text → Result Text
parse_id lib s = if lib.uuid_parses s then ok s else err invalid_id

-- A nullable column or field that holds an ID.
unfoldable pub parse_optional_id : Libs → Option Text → Result (Option Text)
unfolding parse_id
parse_optional_id lib none = ok none
parse_optional_id lib (some s) = do id ← parse_id lib s; ok (some id)
