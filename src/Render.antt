-- ===== src/Render.antt =====
-- engine/tunnel/config.py: from the URIs of a tunnel's nodes to the configuration that sing-box
-- reads. What urllib, base64, json, int and float answer are arguments.
pub mod Query
pub mod Address
pub mod Builders
pub mod Vmess
pub mod Shadowsocks
pub mod Config
pub mod Fits
pub mod Faults
use infinity_proxy.Prelude.{
  ℕ, zero, suc, String, Bool, true, false, not, Option, none, some, List, [], ◌∷◌, any, str_eq,
  if◌then◌else◌,
}
use infinity_proxy.Prelude.Int.{ℤ, pos, negsuc}
use infinity_proxy.Prelude.Text.{is_text}

-- what an exception is
pub data Fault : Type 0 where
  value_error type_error attribute_error overflow_error os_error timeout key_error : Fault

pub data Outcome {ℓ} (A : Type ℓ) : Type ℓ where
  ok : A → Outcome A
  raised : Fault → Outcome A

infixl 5 ◌>>=◌
abbrev pub ◌>>=◌ {ℓ κ} : {A : Type ℓ} {B : Type κ} → Outcome A → (A → Outcome B) → Outcome B
ok a >>= k = k a
raised f >>= k = raised f

-- what holds of the result, if there is one
abbrev pub Yields {ℓ κ} : {A : Type ℓ} → (A → Type κ) → Outcome A → Type κ
Yields P (ok a) = P a
Yields P (raised f) = Unit

pub Yields-bind {ℓ κ ν} :
    {A : Type ℓ} {B : Type κ} (P : B → Type ν) (m : Outcome A) (k : A → Outcome B)
    → ((a : A) → Yields P (k a))
    → Yields P (m >>= k)
Yields-bind P (ok a) k h = h a
Yields-bind P (raised f) k h = tt

-- a step whose result is known to satisfy something
pub Yields-then {ℓ κ ν υ} :
    {A : Type ℓ} {B : Type κ} (Q : A → Type υ) (P : B → Type ν) (m : Outcome A) (k : A → Outcome B)
    → Yields Q m
    → ((a : A) → Q a → Yields P (k a))
    → Yields P (m >>= k)
Yields-then Q P (ok a) k q h = h a q
Yields-then Q P (raised f) k q h = tt

-- A value of a decoded JSON object, or of a query, where it is a text. A number with a fraction
-- keeps its text and whether it is truthy, and so does a list or an object.
pub data Value : Type 0 where
  null : Value
  boolean : Bool → Value
  number : ℤ → Value
  real : String → Bool → Value
  text : String → Value
  composite : String → Bool → Value

abbrev pub Fields : Type 0
Fields = List (String × Value)

pub data Loaded : Type 0 where
  object : Fields → Loaded
  not_object : Loaded

-- the parts of a parsed URL that are read
pub record Url : Type 0 where
  pub netloc : String
  pub query : String
  pub username : Option String
  pub password : Option String

-- the standard library
pub record Library : Type 0 where
  pub unquote : String → String
  pub lower : String → String
  pub strip : String → String
  pub decimal : ℕ → String
  pub hexadecimal : ℕ → String
  pub urlparse : String → Outcome Url
  pub parse_qs : String → List (String × List String)
  pub b64decode : String → Option String
  pub b64decode_urlsafe : String → Option String
  pub loads : String → Option Loaded
  pub int : Value → Outcome ℤ
  pub int_float : String → Outcome ℤ

unfoldable pub truth : Value → Bool
truth null = false
truth (boolean b) = b
truth (number (pos zero)) = false
truth (number (pos (suc n))) = true
truth (number (negsuc n)) = true
truth (real s b) = b
truth (text s) = is_text s
truth (composite s b) = b

-- `x in (…)`, for texts
abbrev pub one_of : List String → String → Bool
one_of texts s = any (λ t. str_eq t s) texts

pub record Reality : Type 0 where
  pub public_key : Value
  pub short_id : Option Value

-- `enabled` is always true
pub record Tls : Type 0 where
  pub server_name : Option String
  pub insecure : Bool
  pub alpn : Option (List String)
  pub fingerprint : Option Value
  pub reality : Option Reality

pub data Transport : Type 0 where
  ws grpc httpupgrade http_transport : Option Value → Option Value → Transport

pub record Obfs : Type 0 where
  pub kind : Value
  pub obfs_password : Option Value

-- the fields of an outbound that depend on its protocol
pub data Dial : Type 0 where
  vless_dial : String → Option Value → Option Tls → Option Transport → Dial
  vmess_dial : Value → Value → Option ℤ → Option Tls → Option Transport → Dial
  shadowsocks_dial : String → String → Option (String × Option String) → Dial
  trojan_dial : String → Tls → Option Transport → Dial
  tuic_dial : String → Option String → Option Value → Option Value → Tls → Dial
  hysteria2_dial : String → Tls → Option Obfs → Option ℤ → Option ℤ → Dial
  http_dial socks_dial : Option (String × String) → Dial

pub record Outbound : Type 0 where
  pub tag : String
  pub server : Value
  pub server_port : ℤ
  pub dial : Dial
