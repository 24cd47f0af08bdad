-- ===== src/Ofx/Parse.antt =====
-- pkg/ofx/parser.go: Parse, from the bytes of a file to its transactions.
use financial_wallet.Prelude.{
  ℕ, Bool, true, false, not, Option, List, [], ◌∷◌, length, take, ltb, if◌then◌else◌,
}
use financial_wallet.Text.{Text, is_empty, trim_space}
use financial_wallet.Result.{
  Result, ok, ◌>>=◌, ◌>>◌, fail_if, or_error, traverse, invalid_format, no_transactions,
}
use financial_wallet.Usecases.Import.{Transaction}
use financial_wallet.Ofx.Amount.{Floats, parse_amount}
use financial_wallet.Ofx.Date.{Times, parse_date}
use financial_wallet.Ofx.Sgml.{Header, split_header_and_body, is_sgml, sgml_to_xml}

-- xmlStmtTrn: what the decoder leaves of an element STMTTRN.
pub record XmlTransaction : Type 0 where
  pub trn_type : Text
  pub dt_posted : Text
  pub trn_amt : Text
  pub fitid : Text
  pub name : Text
  pub memo : Text

pub record ParseResult : Type 0 where
  pub header : Header
  pub transactions : List Transaction

abbrev max_ofx_size : ℕ
max_ofx_size = 5242880

-- `decode strict body`: encoding/xml reads the document, and its transactions are those under
-- BANKMSGSRSV1, STMTTRNRS, STMTRS, BANKTRANLIST; none is an error of the decoder.
module _ (floats : Floats) (times : Times)
    (decode : Bool → Text → Option (List XmlTransaction)) where
  unfoldable pub map_transaction : XmlTransaction → Result Transaction
  map_transaction raw = do
    amount ← parse_amount floats (trim_space raw.trn_amt)
    date_posted ← parse_date times (trim_space raw.dt_posted)
    ok (record {
      fitid = trim_space raw.fitid;
      type = trim_space raw.trn_type;
      amount = amount;
      name = trim_space raw.name;
      memo = trim_space raw.memo;
      date_posted = date_posted;
    })

  unfoldable pub parse_xml_body : Text → Bool → Result (List Transaction)
  parse_xml_body body strict = do
    raw ← or_error (decode strict body) invalid_format
    traverse map_transaction raw

  abbrev no_rows : List Transaction → Bool
  no_rows [] = true
  no_rows (t ∷ ts) = false

  -- Parse, on the file that the reader holds, or none where reading it fails.
  unfoldable pub parse : Option Text → Result ParseResult
  parse input = do
    whole ← or_error input invalid_format
    let data_read = take 5242881 whole
    fail_if (ltb max_ofx_size (length data_read)) invalid_format
    fail_if (is_empty (trim_space data_read)) invalid_format
    (header, body) ← split_header_and_body data_read
    let sgml = is_sgml header
    transactions ← parse_xml_body (if sgml then sgml_to_xml body else body) (not sgml)
    fail_if (no_rows transactions) no_transactions
    ok (record { header = header; transactions = transactions })
