-- ===== src/Render/Address.antt =====
-- _b64decode and _host_port of engine/tunnel/config.py.
use Prim.Native.String.{◌++◌}
use infinity_proxy.Prelude.{
  ℕ, String, ◌≡◌, refl, ap, ◌∙◌, arith, true, false, Option, none, some, if◌then◌else◌,
}
use infinity_proxy.Prelude.Int.{ℤ}
use infinity_proxy.Prelude.Text.{
  has-append, append-single, rpartition-append, has, partition, rpartition, starts_with,
  remove_prefix, is_text, padded,
}
use infinity_proxy.Render.{Outcome, ok, raised, value_error, ◌>>=◌, text, Library}

unfoldable pub decode_b64 : Library → String → Outcome String
decode_b64 lib payload =
    let data_ = if has b'%' payload then lib.unquote payload else payload in
    elim (lib.b64decode (padded data_)) [
      | some s ↦ ok s
      | none ↦ elim (lib.b64decode_urlsafe (padded data_)) [
        | some s ↦ ok s
        | none ↦ raised value_error
      ]
    ]

abbrev pub default_text : Library → Option ℕ → String
default_text lib none = ""
default_text lib (some n) = lib.decimal n

-- the host and the text of the port, before the checks
unfoldable pub split_authority : Library → Option ℕ → String → Outcome (String × String)
split_authority lib default_port netloc =
    if starts_with "[" netloc
    then (let (host, closed, after) = partition b']' netloc in
        let rest = if starts_with ":" after then remove_prefix ":" after else "" in
        if closed
        then ok (host, (if is_text rest then rest else default_text lib default_port))
        else raised value_error)
    else (let (host, found, port) = rpartition b':' netloc in
        ok (if found then (host, port) else (netloc, "")))

abbrev pub port_text : Library → Option ℕ → String → Outcome String
port_text lib none port = if is_text port then ok port else raised value_error
port_text lib (some n) port = ok (if is_text port then port else lib.decimal n)

unfoldable pub dial_address : Library → Option ℕ → String × String → Outcome (String × ℤ)
dial_address lib default_port (host, port) =
    let resolved = port_text lib default_port port >>= λ shown. lib.int (text shown) in
    if is_text host then (resolved >>= λ n. ok (lib.unquote host, n)) else raised value_error

unfoldable pub host_port : Library → String → Option ℕ → Outcome (String × ℤ)
unfolding split_authority dial_address
host_port lib netloc default_port =
    split_authority lib default_port (rpartition b'@' netloc).2 >>= dial_address lib default_port

port_text-given :
    (lib : Library) (default_port : Option ℕ) (port : String)
    → is_text port ≡ true
    → port_text lib default_port port ≡ ok port
port_text-given lib none port h = rw h refl
port_text-given lib (some n) port h = rw h refl

-- What is written as a host and a port is read as that host and that port, whoever the user before
-- the `@` is: for a host that does not begin with a bracket and has no `@`, and for a port text
-- without `@` and `:` that `int` reads.
pub host_port-append :
    (lib : Library) (default_port : Option ℕ) (user host port : String) (n : ℤ)
    → is_text host ≡ true
    → is_text port ≡ true
    → has b'@' host ≡ false
    → has b'@' port ≡ false
    → has b':' port ≡ false
    → starts_with "[" (host ++ (":" ++ port)) ≡ false
    → lib.int (text port) ≡ ok n
    → host_port lib (user ++ ("@" ++ (host ++ (":" ++ port)))) default_port
      ≡ ok (lib.unquote host, n)
unfolding host_port split_authority dial_address has
host_port-append lib default_port user host port n some_host some_port plain clean single bare
      reads =
    let authority = host ++ (":" ++ port) in
    let no_at : has b'@' authority ≡ false =
      has-append b'@' host (":" ++ port) ∙ ground (arith, has-append b'@' ":" port, plain, clean) in
    let outer : rpartition b'@' (user ++ ("@" ++ authority)) ≡ (user, true, authority) =
      ap (λ t. rpartition b'@' (user ++ t)) (append-single "@" authority)
      ∙ rpartition-append user "@" authority no_at in
    let inner : rpartition b':' authority ≡ (host, true, port) =
      ap (λ t. rpartition b':' (host ++ t)) (append-single ":" port)
      ∙ rpartition-append host ":" port single in
    rw outer (
      rw (bare, inner)
        (rw (some_host, port_text-given lib default_port port some_port, reads) refl))
