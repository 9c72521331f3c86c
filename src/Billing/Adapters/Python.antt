-- ===== src/Billing/Adapters/Python.antt =====
-- What the adapters use of Python: JSON, decimals, texts and constant-time comparison, and the
-- request of core/billing/ports.py. Texts are numbers, the empty text 0; the library's functions on
-- them are parameters.
use backend_core.Common.{
  ℕ, Bool, true, false, not, ◌&&◌, Option, none, some, List, [], ◌∷◌, ◌==◌, if◌then◌else◌,
}
use backend_core.Shared.Errors.{Error, Result, ok, err}
use backend_core.Shared.Clock.{DateTime}
use backend_core.Billing.Models.{FailureCode}

-- What `json.loads` gives. A float and a list are only tested for truth and turned into text.
mutual
  pub data Json : Type 0 where
    null : Json
    boolean : Bool → Json
    integer : Bool → ℕ → Json
    float array : Bool → ℕ → Json
    string : ℕ → Json
    object : Fields → Json

  pub data Fields : Type 0 where
    nil : Fields
    field : ℕ → Json → Fields → Fields

-- `json.loads`: a value, a JSONDecodeError or TypeError, or the ValueError of an integer that is too
-- long.
pub data Loaded : Type 0 where
  decoded : Json → Loaded
  undecodable too_long : Loaded

-- What `Decimal(text)` gives, as far as the code tells values apart; minus infinity is negative.
pub data Decimal : Type 0 where
  negative fraction infinite nan : Decimal
  whole : ℕ → Decimal

-- `RawWebhook`
pub record RawWebhook : Type 0 where
  pub headers : List (ℕ × ℕ)
  pub body : ℕ
  pub form : List (ℕ × ℕ)

-- The standard library: `json.loads`, `str` of a value that is no text, `UUID` and its text, `int`,
-- `Decimal`, `str.lower`, `str.isascii`, the scheme test and the decoding of a Basic header, the
-- reading of a failure code, the signature's digest, and a moment in milliseconds.
pub record Python : Type 0 where
  pub loads : ℕ → Loaded
  pub show : Json → ℕ
  pub uuid : ℕ → Option ℕ
  pub show_uuid : ℕ → ℕ
  pub int : ℕ → Option (Bool × ℕ)
  pub decimal : ℕ → Option Decimal
  pub lower : ℕ → ℕ
  pub is_ascii : ℕ → Bool
  pub is_basic : ℕ → Bool
  pub credentials : ℕ → Option ℕ
  pub failure_code : ℕ → FailureCode
  pub digest : List ℕ → ℕ
  pub milliseconds : DateTime → ℕ

-- `value.get(key)` of a JSON object
unfoldable pub get : ℕ → Fields → Option Json
get key nil = none
get key (field k v rest) = if k == key then some v else get key rest

-- `value.get(key)` of a mapping of texts
unfoldable pub get_text : ℕ → List (ℕ × ℕ) → Option ℕ
get_text key [] = none
get_text key ((k, v) ∷ rest) = if k == key then some v else get_text key rest

-- `bool(value)`
unfoldable pub truthy : Json → Bool
truthy null = false
truthy (boolean b) = b
truthy (integer sign n) = not (n == 0)
truthy (float nonzero text) = nonzero
truthy (array nonempty text) = nonempty
truthy (string t) = not (t == 0)
truthy (object nil) = false
truthy (object (field k v rest)) = true

-- `str(value)`
abbrev pub text_of : Python → Json → ℕ
text_of py (string t) = t
text_of py j = py.show j

-- `RawWebhook.header`
unfoldable pub header : Python → ℕ → List (ℕ × ℕ) → Option ℕ
header py name [] = none
header py name ((k, v) ∷ rest) = if py.lower k == py.lower name then some v else header py name rest

-- `hmac.compare_digest` of two texts, which refuses one that is not ASCII.
unfoldable pub compare_digest : Python → ℕ → ℕ → Result Bool
compare_digest py a b = if py.is_ascii a && py.is_ascii b then ok (a == b) else err Error.type_error
