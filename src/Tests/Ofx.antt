-- ===== src/Tests/Ofx.antt =====
-- Runs of ParseAmount.
use financial_wallet.Prelude.{
  ◌<◌, Bool, Option, ◌++◌, List, ◌∷◌, [], take, drop, ℕ, ◌≡◌, refl, true, false, none, some, arith,
}
use financial_wallet.Prelude.Int.{ℤ, pos, negsuc}
use financial_wallet.Int64.{InRange, wrap}
use financial_wallet.Text.{Text, codes}
use financial_wallet.Result.{ok, err, no_transactions, invalid_format, invalid_ofx_amount}
use financial_wallet.Ofx.Amount.{Floats, parse_amount}
use financial_wallet.Ofx.Roundtrip.{show_amount, parse_amount-show_amount}
use financial_wallet.Ofx.Sgml.{Header, parse_header, split_header_and_body, process_line}
use financial_wallet.Ofx.Split.{IsFirst, split_header_and_body-IsFirst}
use financial_wallet.Ofx.Date.{Times}
use financial_wallet.Ofx.Parse.{XmlTransaction, ParseResult, parse}
use financial_wallet.Ofx.Limit.{parse_amount-limit, parse_amount-overflow}

-- Floats that read nothing.
abbrev no_floats : Floats
no_floats = record {
  Float = Unit;
  parse = λ s. none;
  cents = λ x. x;
  above_max = λ x. false;
  below_min = λ x. false;
  to_int = λ x. pos 0;
}

-- The examples of the comment of ParseAmount, a blank amount, and two signs, of which ParseInt reads
-- the second.
amounts-run :
    (parse_amount no_floats (codes " 150.75") ≡ ok (pos 15075))
    × (parse_amount no_floats (codes "-30.50") ≡ ok (negsuc 3049))
    × (parse_amount no_floats (codes "100") ≡ ok (pos 10000))
    × (parse_amount no_floats (codes "-7.5") ≡ ok (negsuc 749))
    × (parse_amount no_floats (codes " ") ≡ err invalid_ofx_amount)
    × (parse_amount no_floats (codes "--5") ≡ ok (pos 500))
unfolding parse_amount financial_wallet.Text.trim_space financial_wallet.Ofx.Amount.strip_sign
    financial_wallet.Ofx.Amount.parse_parts financial_wallet.Text.split_once
    financial_wallet.Ofx.Amount.parse_whole financial_wallet.Ofx.Amount.parse_int
    financial_wallet.Ofx.Amount.digits financial_wallet.Ofx.Amount.add_fraction
    financial_wallet.Ofx.Amount.pad_two financial_wallet.Int64.add64 wrap
    financial_wallet.Prelude.Int.◌+ℤ◌ financial_wallet.Prelude.Int.◌*ℤ◌ financial_wallet.Int64.neg64
    financial_wallet.Prelude.Int.◌-ℤ◌
amounts-run = (refl, refl, refl, refl, refl, refl)

parse_amount-show_amount_example :
    parse_amount no_floats (show_amount (negsuc 9223372036854775807))
    ≡ ok (negsuc 9223372036854775807)
parse_amount-show_amount_example =
    parse_amount-show_amount no_floats (negsuc 9223372036854775807)
      (record { above = omega arith; below = omega arith })

parse_amount-limit_example :
    parse_amount no_floats (show_amount (pos 9223372036854775900)) ≡ err invalid_ofx_amount
parse_amount-limit_example = parse_amount-limit no_floats 9223372036854775900

parse_amount-overflow_example :
    (m : ℕ) × (parse_amount no_floats (show_amount (pos 9223372036854775899)) ≡ ok (negsuc m))
parse_amount-overflow_example =
    parse_amount-overflow no_floats 9223372036854775899 (omega arith) (omega arith)

-- A file of two header lines and an element.
abbrev small_file : Text
small_file = codes "VERSION:102" ++ 10 ∷ codes "ENCODING:USASCII" ++ 10 ∷ codes "<ofx><MEMO>x"

abbrev small_header : Header
small_header = record { version = codes "102"; encoding = codes "USASCII" }

-- The file cut in two, and lines of SGML: a leaf, a leaf that is closed already, and the start of an
-- aggregate.
split_header_and_body-run :
    split_header_and_body small_file ≡ ok (small_header, codes "<ofx><MEMO>x")
unfolding split_header_and_body financial_wallet.Ofx.Sgml.index_fold
    financial_wallet.Ofx.Sgml.matches_fold financial_wallet.Ofx.Sgml.ascii_fold parse_header
    financial_wallet.Ofx.Sgml.read_pairs financial_wallet.Ofx.Sgml.scan
    financial_wallet.Ofx.Sgml.split_lines financial_wallet.Text.trim_space
    financial_wallet.Ofx.Sgml.drop_return financial_wallet.Text.has_prefix
    financial_wallet.Text.split_once financial_wallet.Text.text_eq financial_wallet.Ofx.Sgml.upper
split_header_and_body-run = refl

process_line-run :
    (process_line (codes "<MEMO> x") ≡ codes "<MEMO>x</MEMO>")
    × (process_line (codes "<MEMO>x</MEMO>") ≡ codes "<MEMO>x</MEMO></MEMO>")
    × (process_line (codes "<STMTTRN>") ≡ codes "<STMTTRN>")
unfolding process_line financial_wallet.Text.has_prefix financial_wallet.Text.split_once
    financial_wallet.Text.trim_space
process_line-run = (refl, refl, refl)

split_header_and_body-IsFirst_example :
    (n : ℕ) × (IsFirst (codes "<OFX>") small_file n)
    × (small_header ≡ parse_header (take n small_file))
    × (take n small_file ++ codes "<ofx><MEMO>x" ≡ small_file)
split_header_and_body-IsFirst_example =
    split_header_and_body-IsFirst small_file small_header (codes "<ofx><MEMO>x")
      split_header_and_body-run

-- Calls of the library that know one day and one document.
abbrev one_day : Times
one_day = record { day = λ s loc. some 20260115; second = λ s loc. none; scan_int = λ s. none }

abbrev one_row : Bool → Text → Option (List XmlTransaction)
one_row strict body = some (
    record {
      trn_type = codes "DEBIT";
      dt_posted = codes "20260115";
      trn_amt = codes " -7.5";
      fitid = codes "f1";
      name = [];
      memo = codes "x ";
    }
    ∷ [])

-- A whole file, a file without a transaction, a blank file, and a reader that fails.
parse-run :
    (parse no_floats one_day one_row (some small_file)
      ≡ ok (record {
        header = small_header;
        transactions =
            record {
              fitid = codes "f1";
              type = codes "DEBIT";
              amount = negsuc 749;
              name = [];
              memo = codes "x";
              date_posted = 20260115;
            }
            ∷ [];
      }))
    × (parse no_floats one_day (λ strict body. some []) (some small_file) ≡ err no_transactions)
    × (parse no_floats one_day one_row (some (codes " ")) ≡ err invalid_format)
    × (parse no_floats one_day one_row none ≡ err invalid_format)
unfolding parse financial_wallet.Text.trim_space split_header_and_body
    financial_wallet.Ofx.Sgml.index_fold financial_wallet.Ofx.Sgml.matches_fold
    financial_wallet.Ofx.Sgml.ascii_fold financial_wallet.Ofx.Parse.parse_xml_body
    financial_wallet.Result.traverse financial_wallet.Ofx.Parse.map_transaction parse_amount
    financial_wallet.Ofx.Amount.strip_sign financial_wallet.Ofx.Amount.parse_parts
    financial_wallet.Text.split_once financial_wallet.Ofx.Amount.parse_whole
    financial_wallet.Ofx.Amount.parse_int financial_wallet.Ofx.Amount.digits
    financial_wallet.Ofx.Amount.add_fraction financial_wallet.Ofx.Amount.pad_two
    financial_wallet.Int64.add64 financial_wallet.Int64.neg64 wrap
    financial_wallet.Ofx.Amount.signed financial_wallet.Ofx.Date.drop_bracket
    financial_wallet.Ofx.Date.parse_date financial_wallet.Ofx.Date.parse_ofx_timezone
    financial_wallet.Ofx.Sgml.convert_lines financial_wallet.Ofx.Sgml.drop_return
    financial_wallet.Ofx.Sgml.extract_version financial_wallet.Ofx.Sgml.index_of
    financial_wallet.Ofx.Sgml.is_sgml parse_header process_line financial_wallet.Ofx.Sgml.read_pairs
    financial_wallet.Ofx.Sgml.scan financial_wallet.Ofx.Sgml.sgml_to_xml
    financial_wallet.Ofx.Sgml.split_lines financial_wallet.Ofx.Sgml.trim_quotes
    financial_wallet.Ofx.Sgml.until_quote financial_wallet.Ofx.Sgml.upper
    financial_wallet.Prelude.Int.◌*ℤ◌ financial_wallet.Prelude.Int.◌+ℤ◌
    financial_wallet.Prelude.Int.◌-ℤ◌ financial_wallet.Text.has_prefix financial_wallet.Text.text_eq
parse-run = (refl, refl, refl, refl)
