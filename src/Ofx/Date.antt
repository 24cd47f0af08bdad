-- ===== src/Ofx/Date.antt =====
-- pkg/ofx/date.go. A time is its instant, so the name of a zone does not matter.
use financial_wallet.Prelude.{Option, none, some, [], ◌∷◌, length, ◌==◌, if◌then◌else◌}
use financial_wallet.Prelude.Int.{ℤ, pos, ◌*ℤ◌}
use financial_wallet.Int64.{wrap}
use financial_wallet.Text.{Text, is_empty, trim_space, split_once}
use financial_wallet.Result.{Result, ◌>>◌, fail_if, err, or_error, invalid_ofx_date}
use financial_wallet.Domain.Statement.{Time}

-- What date.go calls of the packages time and fmt. day and second: time.ParseInLocation with the
-- layouts "20060102" and "20060102150405", the location given by its offset from UTC in seconds.
-- scan_int: fmt.Sscanf(s, "%d", &n).
pub record Times : Type 0 where
  pub day : Text → ℤ → Option Time
  pub second : Text → ℤ → Option Time
  pub scan_int : Text → Option ℤ

-- strings.TrimSuffix(s, "]")
unfoldable pub drop_bracket : Text → Text
drop_bracket [] = []
drop_bracket (c ∷ []) = if c == b']' then [] else c ∷ []
drop_bracket (c ∷ d ∷ s) = c ∷ drop_bracket (d ∷ s)

module _ (times : Times) where
  abbrev hours : Option ℤ → ℤ
  hours none = pos 0
  hours (some h) = wrap (h *ℤ pos 3600)

  abbrev offset : Text → ℤ
  offset s = if is_empty s then pos 0 else hours (times.scan_int s)

  -- parseOFXTimezone, and UTC where it fails, on what follows the opening bracket.
  unfoldable pub parse_ofx_timezone : Text → ℤ
  parse_ofx_timezone s = offset ((split_once b':' (drop_bracket s)).0)

  abbrev zone : Option Text → ℤ
  zone none = pos 0
  zone (some s) = parse_ofx_timezone s

  abbrev parse_layout : Text → ℤ → Result Time
  parse_layout s loc =
      if length s == 8
      then or_error (times.day s loc) invalid_ofx_date
      else if length s == 14
      then or_error (times.second s loc) invalid_ofx_date
      else err invalid_ofx_date

  abbrev parse_parts : Text × Option Text → Result Time
  parse_parts (before, bracket) = parse_layout ((split_once b'.' before).0) (zone bracket)

  unfoldable pub parse_date : Text → Result Time
  parse_date raw =
      let s = trim_space raw in
      do fail_if (is_empty s) invalid_ofx_date; parse_parts (split_once b'[' s)
